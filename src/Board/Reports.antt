-- ===== src/Board/Reports.antt =====
-- What a shot reports, and that a cell is shot only once.
use networkprogramming_battl.Base.{
  ℕ, ◌+◌, ◌<◌, ℤ, pos, negsuc, true, ◌≡◌, ◌≢◌, ◌↔◌, inl, inr, refl, Bool-cases, arith,
}
use networkprogramming_battl.Protocol.{Coordinate, ShotResult, miss, sunk}
use networkprogramming_battl.Board.{
  Board, CellState, cell_empty, cell_ship, cell_miss, cell_hit, cell_sunk, inside, board_size,
  shoot_cell, shoot_at, process_shot,
}
use networkprogramming_battl.Board.Cells.{point}
use networkprogramming_battl.Board.Fleet.{sunk_count, IsValid}
use networkprogramming_battl.Board.Shots.{sunk_count-strike_fleet}

abbrev pub sinks : ShotResult → ℕ
sinks sunk = 1
sinks _ = 0

report_cell :
    (b : Board) (r c : ℕ) (s : CellState)
    → IsValid b
    → b.grid r c ≡ s
    → let x = shoot_cell b r c s in
      ((x.1 ≡ miss) ↔ (s ≢ cell_ship))
      × (sunk_count x.0.ships ≡ sunk_count b.ships + sinks x.1)
      × (x.0.grid r c ≢ cell_ship)
unfolding shoot_cell
report_cell b r c cell_ship v e =
    ground (arith, sunk_count-strike_fleet b.grid r c e b.ships v.fleet.afloat)
report_cell b r c cell_empty v e = ground arith
report_cell b r c cell_miss v e = ground arith
report_cell b r c cell_hit v e = ground arith
report_cell b r c cell_sunk v e = ground arith

inside_of : (r c : ℕ) → r < board_size → c < board_size → inside r c ≡ true
inside_of r c h k = ground arith

again_cell :
    (b : Board) (r c : ℕ) (s : CellState)
    → b.grid r c ≡ s
    → let x = (shoot_cell b r c s).0 in shoot_cell x r c (x.grid r c) ≡ (x, miss)
unfolding shoot_cell
again_cell b r c cell_ship e = ground arith
again_cell b r c cell_empty e = ground arith
again_cell b r c cell_miss e = rw e
again_cell b r c cell_hit e = rw e
again_cell b r c cell_sunk e = rw e

again_at : (b : Board) (z w : ℤ) → shoot_at (shoot_at b z w).0 z w ≡ ((shoot_at b z w).0, miss)
unfolding shoot_at
again_at b (pos r) (pos c) = elim (Bool-cases (inside r c)) [
  | inl i ↦ rw (i, shoot_at) (again_cell b r c (b.grid r c) refl)
  | inr o ↦ rw (o, shoot_at)
]
again_at b (pos r) (negsuc c) = refl
again_at b (negsuc r) w = refl

-- A second shot at the same square, on the board or off it, reports a miss and changes nothing.
pub process_shot_again :
    (b : Board) (p : Coordinate)
    → process_shot (process_shot b p).0 p ≡ ((process_shot b p).0, miss)
unfolding process_shot
process_shot_again b p = again_at b p.row p.col

-- A shot at a square of a valid board reports a miss exactly where no ship floats there; it reports
-- `sunk` exactly when one more ship has sunk; and nothing floats on the square afterwards.
pub process_shot_report :
    (b : Board) (r c : ℕ)
    → IsValid b
    → r < board_size
    → c < board_size
    → let x = process_shot b (point r c) in
      ((x.1 ≡ miss) ↔ (b.grid r c ≢ cell_ship))
      × (sunk_count x.0.ships ≡ sunk_count b.ships + sinks x.1)
      × (x.0.grid r c ≢ cell_ship)
unfolding process_shot shoot_at
process_shot_report b r c v h k =
    rw (inside_of r c h k, shoot_at) (report_cell b r c (b.grid r c) v refl)
