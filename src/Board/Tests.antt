-- ===== src/Board/Tests.antt =====
-- The board's theorems at small boards, and runs of its operations.
use networkprogramming_battl.Base.{
  ℕ, zero, suc, ◌+◌, ◌<◌, ◌==◌, eq→≡, Bool-cases, inl, inr, sym, List, pos, Bool, true, false, ◌≡◌,
  ◌≢◌, ◌↔◌, ◌⊎◌, refl, Option, none, some, [], ◌∷◌, length, arith,
}
use networkprogramming_battl.Protocol.{
  Coordinate, carrier, destroyer, horizontal, vertical, get_ship_length, miss, hit, sunk,
}
use networkprogramming_battl.Board.{
  Board, CellState, cell_empty, cell_ship, cell_miss, cell_hit, new_board, place_ship, remove_ship,
  process_shot, all_ships_sunk, is_valid_placement, new_ship, random_placement, Draws, board_size,
  num_ships, mark_ship, is_free, shoot_at, strike_fleet, get_cell, set_cell,
}
use networkprogramming_battl.Board.Cells.{point}
use networkprogramming_battl.Board.Fleet.{IsValid, sunk_count}
use networkprogramming_battl.Board.Shots.{process_shot-IsValid}
use networkprogramming_battl.Board.Marks.{ship_read}
use networkprogramming_battl.Board.Placement.{place_ship-IsValid, Placed}
use networkprogramming_battl.Board.Check.{is_valid_placement_iff, place_ship-cases}
use networkprogramming_battl.Planner.Tests.{five, five-IsValid}
use networkprogramming_battl.Board.Conquest.{visits, every_square_wins}
use networkprogramming_battl.Board.Victory.{all_ships_sunk_iff, short_fleet, shoot_all}
use networkprogramming_battl.Board.Reports.{process_shot_report, process_shot_again, sinks}
use networkprogramming_battl.Board.Removal.{place-remove}
use networkprogramming_battl.Board.Random.{random_placement-IsValid, new_board-IsValid}

abbrev or_new : Option (Board × Bool) → Board
or_new none = new_board
or_new (some (b, _)) = b

-- A destroyer on the first two squares of row 0.
moored : Board
moored = or_new (place_ship new_board destroyer (point 0 0) horizontal)

moored_placed : place_ship new_board destroyer (point 0 0) horizontal ≡ some (moored, true)
unfolding moored place_ship is_valid_placement is_free mark_ship new_board
moored_placed = refl

place_ship-IsValid_example : IsValid moored
place_ship-IsValid_example =
    place_ship-IsValid new_board moored destroyer (point 0 0) horizontal new_board-IsValid
      (omega arith) (omega arith) moored_placed

moored-IsValid : IsValid moored
moored-IsValid =
    place_ship-IsValid new_board moored destroyer (point 0 0) horizontal new_board-IsValid
      (omega arith) (omega arith) moored_placed

process_shot-IsValid_example : IsValid (process_shot moored (point 0 1)).0
process_shot-IsValid_example = process_shot-IsValid moored (point 0 1) moored-IsValid

all_ships_sunk_iff_example : (all_ships_sunk moored ≡ true) ↔ (
    (length moored.ships ≡ num_ships)
    × ((r c : ℕ) → r < board_size → c < board_size → moored.grid r c ≢ cell_ship))
all_ships_sunk_iff_example = all_ships_sunk_iff moored moored-IsValid

process_shot_report_example :
    let x = process_shot moored (point 0 1) in
    ((x.1 ≡ miss) ↔ (moored.grid 0 1 ≢ cell_ship))
    × (sunk_count x.0.ships ≡ sunk_count moored.ships + sinks x.1)
    × (x.0.grid 0 1 ≢ cell_ship)
process_shot_report_example =
    process_shot_report moored 0 1 moored-IsValid (omega arith) (omega arith)

process_shot_again_test :
    process_shot (process_shot moored (point 0 1)).0 (point 0 1)
    ≡ ((process_shot moored (point 0 1)).0, miss)
process_shot_again_test = process_shot_again moored (point 0 1)

is_valid_placement_iff_example :
    (is_valid_placement moored carrier (point 0 5) vertical ≡ some true) ↔ (
      (k : ℕ)
      → k < get_ship_length carrier
      → ship_read moored.grid (new_ship carrier (point 0 5) vertical) k ≡ some cell_empty)
is_valid_placement_iff_example =
    is_valid_placement_iff moored carrier (point 0 5) vertical (omega arith) (omega arith)

place_ship-cases_test :
    ((b' : Board) × (place_ship new_board carrier (point 9 5) horizontal ≡ some (b', true))
      × Placed new_board (new_ship carrier (point 9 5) horizontal) b')
    ⊎ (place_ship new_board carrier (point 9 5) horizontal ≡ some (new_board, false))
unfolding new_board
place_ship-cases_test =
    place_ship-cases new_board carrier 9 5 horizontal (omega arith) (omega arith) (omega arith)

short_fleet_test : all_ships_sunk (shoot_all moored (point 0 0 ∷ point 0 1 ∷ [])) ≡ false
unfolding moored place_ship is_valid_placement is_free mark_ship new_board
short_fleet_test = short_fleet moored (point 0 0 ∷ point 0 1 ∷ []) moored-IsValid (omega arith)

place-remove_example :
    (b'' : Board) × (remove_ship moored destroyer ≡ some (b'', true))
    × ((r c : ℕ) → b''.grid r c ≡ new_board.grid r c)
    × (b''.ships ≡ new_board.ships)
    × (b''.ships_remaining ≡ new_board.ships_remaining)
unfolding new_board
place-remove_example =
    place-remove new_board moored destroyer (point 0 0) horizontal tt moored_placed

abbrev counting : Draws
counting k = k

random_placement-IsValid_example :
    (b' : Board) × (k : ℕ) × (random_placement counting moored ≡ some (b', k)) × IsValid b'
random_placement-IsValid_example = random_placement-IsValid counting moored

-- A destroyer sinks with its second hit.
sinks_twice :
    let one = process_shot moored (point 0 0) in
    let two = process_shot one.0 (point 0 1) in
    (one.1 ≡ hit) × (two.1 ≡ sunk) × (two.0.ships_remaining ≡ pos 4)
unfolding moored place_ship is_valid_placement is_free mark_ship new_board process_shot strike_fleet
    networkprogramming_battl.Board.covers
sinks_twice = (refl, refl, refl)

-- From row 12 a horizontal ship passes the bounds tests, and the overlap test reads outside the grid.
row_unchecked : is_valid_placement new_board destroyer (point 12 0) horizontal ≡ none
unfolding is_valid_placement is_free
row_unchecked = refl

-- A row of squares in front of others, and the squares of so many rows.
abbrev row_of : ℕ → ℕ → List Coordinate → List Coordinate
row_of r zero rest = rest
row_of r (suc n) rest = point r n ∷ row_of r n rest

abbrev squares : ℕ → List Coordinate
squares zero = []
squares (suc m) = row_of m board_size (squares m)

visits_rest :
    (q n : ℕ) (rest : List Coordinate) (r c : ℕ)
    → visits rest r c ≡ true
    → visits (row_of q n rest) r c ≡ true
unfolding visits
visits_rest q zero rest r c h = h
visits_rest q (suc n) rest r c h = ground (arith, visits_rest q n rest r c h)

visits-row_of :
    (r n : ℕ) (rest : List Coordinate) (c : ℕ) → c < n → visits (row_of r n rest) r c ≡ true
unfolding visits
visits-row_of r zero rest c h = absurd (omega (arith, h))
visits-row_of r (suc n) rest c h = elim (Bool-cases (n == c)) [
  | inl here ↦ ground (arith, here)
  | inr before ↦ ground (arith, visits-row_of r n rest c (ground (arith, h, before)))
]

visits-squares : (m r c : ℕ) → r < m → c < board_size → visits (squares m) r c ≡ true
visits-squares zero r c h k = absurd (omega (arith, h))
visits-squares (suc m) r c h k = elim (Bool-cases (m == r)) [
  | inl here ↦ rw (sym (eq→≡ m r here)) (visits-row_of m board_size (squares m) c k)
  | inr before ↦
      visits_rest m board_size (squares m) r c (visits-squares m r c (ground (arith, h, before)) k)
]

every_square_wins_example : all_ships_sunk (shoot_all five (squares board_size)) ≡ true
unfolding place_ship is_valid_placement is_free mark_ship new_board
every_square_wins_example =
    every_square_wins five (squares board_size) five-IsValid refl (visits-squares board_size)
