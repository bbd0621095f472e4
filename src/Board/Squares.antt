-- ===== src/Board/Squares.antt =====
-- The data of the class Board (common/include/game_state.h): the grid, its reads and writes, and
-- the cells of a ship.
use networkprogramming_battl.Base.{
  ℕ, ltb, ◌==◌, if◌then◌else◌, ℤ, pos, negsuc, shift, Bool, true, false, ◌&&◌, Option, none, some,
  List,
}
use networkprogramming_battl.Protocol.{Coordinate, Ship, horizontal, vertical}

pub data CellState : Type 0 where
  cell_empty cell_ship cell_miss cell_hit cell_sunk : CellState

abbrev pub board_size : ℕ
board_size = 10

abbrev pub num_ships : ℕ
num_ships = 5

abbrev pub is_empty : CellState → Bool
is_empty cell_empty = true
is_empty _ = false

abbrev pub is_ship : CellState → Bool
is_ship cell_ship = true
is_ship _ = false

-- neither shot at nor marked
abbrev pub is_fresh : CellState → Bool
is_fresh cell_empty = true
is_fresh cell_ship = true
is_fresh _ = false

abbrev pub Grid : Type 0
Grid = ℕ → ℕ → CellState

pub record Board : Type 0 where
  pub grid : Grid
  pub ships : List Ship
  pub spare : List Ship
  pub ships_remaining : ℤ

abbrev pub inside : ℕ → ℕ → Bool
inside r c = ltb r board_size && ltb c board_size

abbrev pub update : Grid → ℕ → ℕ → CellState → Grid
update g r c v = λ r' c'. if r' == r && c' == c then v else g r' c'

-- grid[r][c], where `none` is a read outside the array
abbrev pub read : Grid → ℤ → ℤ → Option CellState
read g (pos r) (pos c) = if inside r c then some (g r c) else none
read g (pos r) (negsuc c) = none
read g (negsuc r) c = none

-- grid[r][c] = v, where `none` is a write outside the array
abbrev pub write : Grid → ℤ → ℤ → CellState → Option Grid
write g (pos r) (pos c) v = if inside r c then some (update g r c v) else none
write g (pos r) (negsuc c) v = none
write g (negsuc r) c v = none

-- the row and the column of the i-th cell of a ship
abbrev pub cell_row : Coordinate → ℕ → ℕ → ℤ
cell_row p orientation i = shift p.row (if orientation == vertical then i else 0)

abbrev pub cell_col : Coordinate → ℕ → ℕ → ℤ
cell_col p orientation i = shift p.col (if orientation == horizontal then i else 0)

-- a slot of `ships` after memset
abbrev pub zero_ship : Ship
zero_ship = record {
  type = 0;
  orientation = 0;
  position = record { row = pos 0; col = pos 0 };
  length = 0;
  hits = 0;
  is_sunk = false;
}
