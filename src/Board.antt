-- ===== src/Board.antt =====
-- The class Board of common/include/game_state.h and common/src/game_state.cpp.
-- The grid is a function of row and column; reads and writes outside it are faults (`none`), as are
-- writes behind the end of `ships`. The array `ships` of five entries is kept in two lists: the
-- first `ships_count` entries (`ships`), and the other slots with what they hold (`spare`).
pub mod Cells
pub mod Fleet
pub mod Shots
pub mod Marks
mod Drawing
pub mod Placement
pub mod Check
pub mod Victory
pub mod Conquest
pub mod Reports
pub mod Removal
pub mod Sinking
pub mod Random
mod Tests
mod Squares
unfoldable pub use Squares.*
use networkprogramming_battl.Base.{
  ℕ, zero, suc, ◌+◌, ◌%◌, ltb, leb, ◌==◌, if◌then◌else◌, ℤ, pos, negsuc, is_neg, shift, int_ge,
  int_gt, int_eq, Bool, true, false, ◌&&◌, ◌||◌, Option, none, some, List, [], ◌∷◌, ◌++◌, length,
  replicate,
}
use networkprogramming_battl.Base
use networkprogramming_battl.Protocol.{
  Coordinate, Ship, carrier, battleship, cruiser, submarine, destroyer, horizontal, vertical,
  get_ship_length, ShotResult, miss, hit, sunk,
}

-- Board::Board
unfoldable pub new_board : Board
new_board = record {
  grid = λ _ _. cell_empty;
  ships = [];
  spare = replicate num_ships zero_ship;
  ships_remaining = pos num_ships;
}

-- the overlap loop of isValidPlacement, from cell i with n cells to go
unfoldable pub is_free : Grid → Coordinate → ℕ → ℕ → ℕ → Option Bool
is_free g p o i zero = some true
is_free g p o i (suc n) = elim (read g (cell_row p o i) (cell_col p o i)) [
  | none ↦ none
  | some cell ↦ if is_empty cell then is_free g p o (suc i) n else some false
]

unfoldable pub is_valid_placement : Board → ℕ → Coordinate → ℕ → Option Bool
is_valid_placement b type p orientation =
    let length = get_ship_length type in
    if is_neg p.row || is_neg p.col
    then some false
    else if orientation == horizontal && int_gt (shift p.col length) board_size
    then some false
    else if orientation == vertical && int_gt (shift p.row length) board_size
    then some false
    else is_free b.grid p orientation 0 length

-- the loop of placeShip that marks the cells
unfoldable pub mark_ship : Grid → Coordinate → ℕ → ℕ → ℕ → Option Grid
mark_ship g p o i zero = some g
mark_ship g p o i (suc n) = elim (write g (cell_row p o i) (cell_col p o i) cell_ship) [
  | none ↦ none
  | some g' ↦ mark_ship g' p o (suc i) n
]

-- ships[ships_count++] = ship
abbrev pub add_ship : Board → Grid → List Ship → Ship → Option Board
add_ship b g [] s = none
add_ship b g (_ ∷ rest) s = some (record b { grid = g; ships = b.ships ++ s ∷ []; spare = rest })

abbrev pub new_ship : ℕ → Coordinate → ℕ → Ship
new_ship type p orientation = record {
  type = type;
  orientation = orientation;
  position = p;
  length = get_ship_length type;
  hits = 0;
  is_sunk = false;
}

-- the part of placeShip behind the check
unfoldable pub put_ship : Board → ℕ → Coordinate → ℕ → Option (Board × Bool)
put_ship b type p o = elim (mark_ship b.grid p o 0 (get_ship_length type)) [
  | none ↦ none
  | some g ↦ elim (add_ship b g b.spare (new_ship type p o)) [
    | none ↦ none
    | some b' ↦ some (b', true)
  ]
]

unfoldable pub place_ship : Board → ℕ → Coordinate → ℕ → Option (Board × Bool)
unfolding put_ship
place_ship b type p o = elim (is_valid_placement b type p o) [
  | none ↦ none
  | some ok ↦ if ok then put_ship b type p o else some (b, false)
]

-- the loop of removeShip that clears the cells of a ship that are not hit
pub unmark_ship : Grid → Ship → ℕ → ℕ → Option Grid
unmark_ship g s i zero = some g
unmark_ship g s i (suc n) =
    elim (read g (cell_row s.position s.orientation i) (cell_col s.position s.orientation i)) [
      | none ↦ none
      | some cell ↦
          elim (if is_ship cell
            then write g (cell_row s.position s.orientation i) (cell_col s.position s.orientation i)
                cell_empty
            else some g) [ none ↦ none | some g' ↦ unmark_ship g' s (suc i) n ]
    ]

-- the first ship of a type, and the others
abbrev pub take_ship : ℕ → List Ship → Option (Ship × List Ship)
take_ship type [] = none
take_ship type (s ∷ ss) =
    if s.type == type
    then some (s, ss)
    else elim (take_ship type ss) [ none ↦ none | some (t, rest) ↦ some (t, s ∷ rest) ]

-- the last of the live slots, which the shift of removeShip leaves behind
abbrev pub last_ship : Ship → List Ship → Ship
last_ship d [] = d
last_ship d (s ∷ ss) = last_ship s ss

unfoldable pub remove_ship : Board → ℕ → Option (Board × Bool)
unfolding unmark_ship
remove_ship b type = elim (take_ship type b.ships) [
  | none ↦ some (b, false)
  | some (s, rest) ↦ elim (unmark_ship b.grid s 0 s.length) [
    | none ↦ none
    | some g ↦
        some
          (record b { grid = g; ships = rest; spare = last_ship zero_ship b.ships ∷ b.spare }, true)
  ]
]

unfoldable pub clear_board : Board → Board
clear_board b = record {
  grid = λ _ _. cell_empty;
  ships = [];
  spare = replicate num_ships zero_ship;
  ships_remaining = pos num_ships;
}

-- the inner loop of processShot: is the target one of the ship's cells from j on, n of them?
unfoldable pub covers : Ship → Coordinate → ℕ → ℕ → Bool
covers s p j zero = false
covers s p j (suc n) =
    (int_eq (cell_row s.position s.orientation j) p.row
      && int_eq (cell_col s.position s.orientation j) p.col)
    || covers s p (suc j) n

-- `hits` is a byte
abbrev pub strike : Ship → Ship
strike s =
    let h = (s.hits + 1) % 256 in
    record s { hits = h; is_sunk = if leb s.length h then true else s.is_sunk }

-- the outer loop of processShot: the first ship that covers the target takes the hit; the flag
-- tells whether it sank
unfoldable pub strike_fleet : List Ship → Coordinate → List Ship × Bool
strike_fleet [] p = ([], false)
strike_fleet (s ∷ ss) p =
    if covers s p 0 s.length
    then (strike s ∷ ss, leb s.length (strike s).hits)
    else (let r = strike_fleet ss p in (s ∷ r.0, r.1))

-- the shot at a cell of the grid
unfoldable pub shoot_cell : Board → ℕ → ℕ → CellState → Board × ShotResult
shoot_cell b r c cell_ship =
    let q = strike_fleet b.ships (record { row = pos r; col = pos c }) in
    (
      record b {
        grid = update b.grid r c cell_hit;
        ships = q.0;
        ships_remaining = if q.1 then Base.pred b.ships_remaining else b.ships_remaining;
      },
      if q.1 then sunk else hit,
    )
shoot_cell b r c cell_empty = (record b { grid = update b.grid r c cell_miss }, miss)
shoot_cell b r c cell_miss = (b, miss)
shoot_cell b r c cell_hit = (b, miss)
shoot_cell b r c cell_sunk = (b, miss)

-- processShot inside and outside the board
unfoldable pub shoot_at : Board → ℤ → ℤ → Board × ShotResult
unfolding shoot_cell
shoot_at b (pos r) (pos c) = if inside r c then shoot_cell b r c (b.grid r c) else (b, miss)
shoot_at b (pos r) (negsuc c) = (b, miss)
shoot_at b (negsuc r) c = (b, miss)

unfoldable pub process_shot : Board → Coordinate → Board × ShotResult
unfolding shoot_at
process_shot b p = shoot_at b p.row p.col

unfoldable pub all_ships_sunk : Board → Bool
all_ships_sunk b = int_eq b.ships_remaining (pos 0)

unfoldable pub get_cell : Board → ℤ → ℤ → CellState
get_cell b row col = elim (read b.grid row col) [ none ↦ cell_empty | some v ↦ v ]

unfoldable pub set_cell : Board → ℤ → ℤ → CellState → Board
set_cell b row col v = elim (write b.grid row col v) [ none ↦ b | some g ↦ record b { grid = g } ]

-- the draws of rand(), numbered; each call of the loop takes three
abbrev pub Draws : Type 0
Draws = ℕ → ℕ

abbrev pub drawn_pos : Draws → ℕ → Coordinate
drawn_pos rand k = record { row = pos (rand k % board_size); col = pos (rand (k + 1) % board_size) }

abbrev pub drawn_orientation : Draws → ℕ → ℕ
drawn_orientation rand k = if rand (k + 2) % 2 == 0 then horizontal else vertical

-- the attempts of randomPlacement for one ship, with the number of attempts left; the result is the
-- board and the number of draws made
pub try_place : Draws → Board → ℕ → ℕ → ℕ → Option (Board × ℕ)
try_place rand b type k zero = some (b, k)
try_place rand b type k (suc attempts) =
    let rest = try_place rand b type (k + 3) attempts in
    elim (is_valid_placement b type (drawn_pos rand k) (drawn_orientation rand k)) [
      | none ↦ none
      | some true ↦ elim (place_ship b type (drawn_pos rand k) (drawn_orientation rand k)) [
        | none ↦ none
        | some (b', _) ↦ some (b', k + 3)
      ]
      | some false ↦ rest
    ]

abbrev pub max_attempts : ℕ
max_attempts = 1000

-- the loop over the five ship types
pub place_all : Draws → ℕ → Board → ℕ → List ℕ → Option (Board × ℕ)
place_all rand attempts b k [] = some (b, k)
place_all rand attempts b k (type ∷ types) = elim (try_place rand b type k attempts) [
  | none ↦ none
  | some (b', k') ↦ place_all rand attempts b' k' types
]

abbrev pub all_types : List ℕ
all_types = carrier ∷ battleship ∷ cruiser ∷ submarine ∷ destroyer ∷ []

unfoldable pub random_placement : Draws → Board → Option (Board × ℕ)
random_placement rand b = place_all rand max_attempts (clear_board b) 0 all_types
