-- ===== src/Battle/Reveal.antt =====
-- The mark on the opponent's board when the server reports a sunk ship (the MOVE_RESULT callback of
-- client/src/ui_lobby.cpp): the hits beside the target become sunk, and a ship is placed over them.
use networkprogramming_battl.Base.{
  ℕ, zero, suc, ◌+◌, ◌-◌, ltb, if◌then◌else◌, ℤ, pos, negsuc, shift, Bool, true, false, not, ◌||◌,
  Option, none, some,
}
use networkprogramming_battl.Protocol.{Coordinate, horizontal, vertical, get_ship_length}
use networkprogramming_battl.Placements.{to_int8}
use networkprogramming_battl.Board.{
  Board, CellState, cell_hit, cell_sunk, board_size, cell_row, cell_col, place_ship, process_shot,
  get_cell, set_cell,
}

-- z - n
abbrev pub back : ℤ → ℕ → ℤ
back (pos m) n = if ltb m n then negsuc (n - m - 1) else pos (m - n)
back (negsuc m) n = negsuc (m + n)

abbrev pub is_cell_hit : CellState → Bool
is_cell_hit cell_hit = true
is_cell_hit _ = false

-- The four directions of the scans, and the cell that lies i steps from the target.
pub data Direction : Type 0 where
  left right up down : Direction

abbrev pub step_row : Direction → ℤ → ℕ → ℤ
step_row up row i = back row i
step_row down row i = shift row i
step_row _ row i = row

abbrev pub step_col : Direction → ℤ → ℕ → ℤ
step_col left col i = back col i
step_col right col i = shift col i
step_col _ col i = col

-- a scan from the i-th cell on; it ends at the first cell that is not hit, which all cells off the board
-- are, so that n = 10 steps are enough. The result counts the cells that were marked.
unfoldable pub scan : Direction → ℤ → ℤ → ℕ → ℕ → Board → Board × ℕ
scan d row col i zero b = (b, 0)
scan d row col i (suc n) b =
    let rest =
      scan d row col (suc i) n (set_cell b (step_row d row i) (step_col d col i) cell_sunk) in
    if is_cell_hit (get_cell b (step_row d row i) (step_col d col i))
    then (rest.0, suc rest.1)
    else (b, 0)

abbrev pub beside : Board → ℤ → ℤ → Direction → Bool
beside b row col d = is_cell_hit (get_cell b (step_row d row 1) (step_col d col 1))

-- What the scans find: the board, and how far the marks reach.
pub record Extent : Type 0 where
  pub board : Board
  pub lefts : ℕ
  pub rights : ℕ
  pub ups : ℕ
  pub downs : ℕ

unfoldable pub scan_row : Board → ℤ → ℤ → Extent
scan_row b row col =
    let l = scan left row col 1 board_size b in
    let r = scan right row col 1 board_size l.0 in
    record { board = r.0; lefts = l.1; rights = r.1; ups = 0; downs = 0 }

unfoldable pub scan_column : Extent → ℤ → ℤ → Extent
scan_column e row col =
    let u = scan up row col 1 board_size e.board in
    let d = scan down row col 1 board_size u.0 in record e { board = d.0; ups = u.1; downs = d.1 }

-- The checks of the neighbours; a neighbour off the board reads as empty.
unfoldable pub mark_neighbours : Board → ℤ → ℤ → Extent
unfolding scan_row scan_column
mark_neighbours b row col =
    let across = beside b row col left || beside b row col right in
    let along = beside b row col up || beside b row col down in
    let first =
      if across || not along
      then scan_row b row col
      else record { board = b; lefts = 0; rights = 0; ups = 0; downs = 0 } in
    if along || not across then scan_column first row col else first

-- the loop that hits the cells of the ship that was placed
unfoldable pub hit_all : Board → Coordinate → ℕ → ℕ → ℕ → Board
hit_all b p o i zero = b
hit_all b p o i (suc n) =
    hit_all
      (process_shot b (record { row = to_int8 (cell_row p o i); col = to_int8 (cell_col p o i) })).0
      p o (suc i) n

abbrev pub reveal_orientation : Extent → ℕ
reveal_orientation e =
    if ltb 0 (e.lefts + e.rights)
    then horizontal
    else if ltb 0 (e.ups + e.downs)
    then vertical
    else horizontal

-- the cell where the ship is placed
abbrev pub reveal_corner : Extent → ℤ → ℤ → Coordinate
reveal_corner e row col = record {
  row = to_int8 (back row e.ups);
  col = to_int8 (back col e.lefts);
}

-- the placement of the ship over the marks
unfoldable pub place_revealed : Extent → ℕ → Coordinate → ℕ → Option Board
unfolding hit_all
place_revealed e type p o = elim (place_ship e.board type p o) [
  | none ↦ none
  | some (placed, ok) ↦ some (if ok then hit_all placed p o 0 (get_ship_length type) else placed)
]

unfoldable pub reveal_sunk : Board → ℤ → ℤ → ℕ → Option Board
unfolding mark_neighbours place_revealed
reveal_sunk b row col type =
    let e = mark_neighbours (set_cell b row col cell_sunk) row col in
    place_revealed e type (reveal_corner e row col) (reveal_orientation e)
