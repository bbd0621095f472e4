-- ===== src/Planner.antt =====
-- The screen on which a player places the ships (client/src/ui_ship_placement.cpp, UIManager): what a
-- button or a click on the board does to the board and to the list of placed ships. The board is
-- there, and what is drawn is left out. `none` is a write behind the array of five ships.
pub mod Clicks
pub mod Tests
use networkprogramming_battl.Base.{
  ℕ, zero, suc, ◌+◌, ◌==◌, if◌then◌else◌, ℤ, pos, Bool, true, false, ◌&&◌, Option, none, some, List,
  [], ◌∷◌, replicate,
}
use networkprogramming_battl.Protocol.{Coordinate, carrier, horizontal, vertical}
use networkprogramming_battl.Placements.{to_int8}
use networkprogramming_battl.Board.{
  Board, num_ships, Draws, place_ship, remove_ship, clear_board, random_placement,
}

pub record Planner : Type 0 where
  pub player_board : Board
  pub selected_ship_type : ℕ
  pub current_orientation : ℕ
  pub ships_placed : List Bool

unfoldable pub set_placed : ℕ → Bool → List Bool → List Bool
set_placed i b [] = []
set_placed zero b (x ∷ xs) = b ∷ xs
set_placed (suc i) b (x ∷ xs) = x ∷ set_placed i b xs

-- the loop that selects the next ship, from the i-th on
unfoldable pub next_unplaced : ℕ → List Bool → ℕ → ℕ
next_unplaced i [] selected = selected
next_unplaced i (placed ∷ xs) selected = if placed then next_unplaced (i + 1) xs selected else i

unfoldable pub all_placed : List Bool → Bool
all_placed [] = true
all_placed (placed ∷ xs) = placed && all_placed xs

unfoldable pub all_ships_placed : Planner → Bool
unfolding all_placed
all_ships_placed p = all_placed p.ships_placed

unfoldable pub select_ship_for_placement : Planner → ℕ → Planner
select_ship_for_placement p type = record p { selected_ship_type = type }

unfoldable pub toggle_ship_orientation : Planner → Planner
toggle_ship_orientation p = record p {
  current_orientation = if p.current_orientation == horizontal then vertical else horizontal;
}

unfoldable pub place_ship_at : Planner → ℤ → ℤ → Option Planner
unfolding set_placed next_unplaced
place_ship_at p row col =
    let target : Coordinate = record { row = to_int8 row; col = to_int8 col } in
    elim (place_ship p.player_board p.selected_ship_type target p.current_orientation) [
      | none ↦ none
      | some (b, ok) ↦
          let placed = set_placed p.selected_ship_type true p.ships_placed in
          if ok
          then some (record p {
            player_board = b;
            ships_placed = placed;
            selected_ship_type = next_unplaced 0 placed p.selected_ship_type;
          })
          else some (record p { player_board = b })
    ]

unfoldable pub random_place_all_ships : Planner → Draws → Option Planner
random_place_all_ships p rand = elim (random_placement rand p.player_board) [
  | none ↦ none
  | some (b, _) ↦ some (record p { player_board = b; ships_placed = replicate num_ships true })
]

unfoldable pub clear_all_ships : Planner → Planner
clear_all_ships p = record p {
  player_board = clear_board p.player_board;
  ships_placed = replicate num_ships false;
  selected_ship_type = carrier;
}

unfoldable pub clear_ship : Planner → ℕ → Option Planner
unfolding set_placed
clear_ship p type = elim (remove_ship p.player_board type) [
  | none ↦ none
  | some (b, _) ↦
      some (record p { player_board = b; ships_placed = set_placed type false p.ships_placed })
]
