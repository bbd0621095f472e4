-- ===== src/Planner/Tests.antt =====
-- The theorems on the placement screen at a board with five ships, and at an empty one.
use networkprogramming_battl.Base.{
  ℕ, pos, ◌⊎◌, Bool, true, false, ◌≡◌, refl, Option, none, some, get_elem?, replicate, arith,
}
use networkprogramming_battl.Protocol.{
  Coordinate, carrier, battleship, cruiser, submarine, destroyer, horizontal,
}
use networkprogramming_battl.Board.{
  Board, new_board, place_ship, is_valid_placement, is_free, mark_ship,
}
use networkprogramming_battl.Board.Fleet.{IsValid}
use networkprogramming_battl.Board.Placement.{place_ship-IsValid}
use networkprogramming_battl.Board.Random.{new_board-IsValid}
use networkprogramming_battl.Planner.{
  Planner, all_ships_placed, place_ship_at, random_place_all_ships,
}
use networkprogramming_battl.Planner.Clicks.{sixth_ship, next_ship, random_ready}

abbrev or_new : Option (Board × Bool) → Board
or_new none = new_board
or_new (some (b, _)) = b

abbrev row : ℕ → Coordinate
row n = record { row = pos n; col = pos 0 }

abbrev one : Board
one = or_new (place_ship new_board carrier (row 0) horizontal)

abbrev two : Board
two = or_new (place_ship one battleship (row 1) horizontal)

abbrev three : Board
three = or_new (place_ship two cruiser (row 2) horizontal)

abbrev four : Board
four = or_new (place_ship three submarine (row 3) horizontal)

abbrev pub five : Board
five = or_new (place_ship four destroyer (row 4) horizontal)

pub five-IsValid : IsValid five
unfolding place_ship is_valid_placement is_free mark_ship new_board
five-IsValid =
    place_ship-IsValid four five destroyer (row 4) horizontal
      (place_ship-IsValid three four submarine (row 3) horizontal
        (place_ship-IsValid two three cruiser (row 2) horizontal
          (place_ship-IsValid one two battleship (row 1) horizontal
            (place_ship-IsValid new_board one carrier (row 0) horizontal new_board-IsValid
              (omega arith) (omega arith) refl)
            (omega arith) (omega arith) refl)
          (omega arith) (omega arith) refl)
        (omega arith) (omega arith) refl)
      (omega arith) (omega arith) refl

abbrev ready : Planner
ready = record {
  player_board = five;
  selected_ship_type = destroyer;
  current_orientation = horizontal;
  ships_placed = replicate 5 true;
}

abbrev fresh : Planner
fresh = record {
  player_board = new_board;
  selected_ship_type = carrier;
  current_orientation = horizontal;
  ships_placed = replicate 5 false;
}

sixth_ship_test : place_ship_at ready (pos 8) (pos 3) ≡ none
unfolding place_ship is_valid_placement is_free mark_ship new_board
sixth_ship_test = sixth_ship ready (pos 8) (pos 3) five-IsValid refl refl

next_ship_test :
    (p' : Planner) × (place_ship_at fresh (pos 0) (pos 0) ≡ some p')
    × ((all_ships_placed p' ≡ true)
        ⊎ (get_elem? p'.ships_placed p'.selected_ship_type ≡ some false))
unfolding place_ship is_valid_placement is_free mark_ship new_board
next_ship_test = next_ship fresh (pos 0) (pos 0) one refl

random_ready_test :
    (p' : Planner) × (random_place_all_ships fresh (λ k. k) ≡ some p')
    × IsValid p'.player_board
    × (all_ships_placed p' ≡ true)
random_ready_test = random_ready fresh (λ k. k)
