-- ===== src/Battle/Wear.antt =====
-- A shot wears the board: what was shot at stays so, and the target is so afterwards.
use networkprogramming_battl.Base.{
  ℕ, zero, suc, ◌≤◌, ◌<◌, ℤ, pos, negsuc, true, false, ◌&&◌, ◌≡◌, refl, List, [], ◌∷◌, inl, inr,
  Bool-cases, arith,
}
use networkprogramming_battl.Protocol.{Coordinate, Ship}
use networkprogramming_battl.Placements.{to_int8}
use networkprogramming_battl.Board.{
  Board, CellState, is_fresh, cell_empty, cell_ship, cell_miss, cell_hit, cell_sunk, board_size,
  cell_row, cell_col, covers, inside, get_cell, set_cell, shoot_cell, shoot_at, process_shot,
}
use networkprogramming_battl.Board.Cells.{point}
use networkprogramming_battl.Battle.Fire.{
  mark_cells, mark_sunk_ship, mark_sunk_at, is_sinking, on_grid, local_shot,
}
use networkprogramming_battl.Battle.Marking.{set_cell-grid}
use networkprogramming_battl.Battle.Spent.{Wears, spent, spent-Wears, spent_more}

set_cell-Wears : (b : Board) (z w : ℤ) → Wears b.grid (set_cell b z w cell_sunk).grid
set_cell-Wears b z w r c e = ground (arith, set_cell-grid b z w cell_sunk r c)

mark_cells-Wears : (b : Board) (s : Ship) (j n : ℕ) → Wears b.grid (mark_cells b s j n).grid
unfolding mark_cells
mark_cells-Wears b s j zero r c e = e
mark_cells-Wears b s j (suc n) r c e =
    let z = cell_row s.position s.orientation j in
    let w = cell_col s.position s.orientation j in
    mark_cells-Wears (set_cell b z w cell_sunk) s (suc j) n r c (set_cell-Wears b z w r c e)

mark_sunk_ship-Wears :
    (b : Board) (ss : List Ship) (type : ℕ) → Wears b.grid (mark_sunk_ship b ss type).grid
unfolding mark_sunk_ship
mark_sunk_ship-Wears b [] type r c e = e
mark_sunk_ship-Wears b (s ∷ ss) type r c e =
    ground (arith, mark_cells-Wears b s 0 s.length r c e, mark_sunk_ship-Wears b ss type r c e)

mark_sunk_at-Wears :
    (b : Board) (ss : List Ship) (p : Coordinate) → Wears b.grid (mark_sunk_at b ss p).grid
unfolding mark_sunk_at
mark_sunk_at-Wears b [] p r c e = e
mark_sunk_at-Wears b (s ∷ ss) p r c e = elim (Bool-cases (s.is_sunk && covers s p 0 s.length)) [
  | inl k ↦
      rw (k, mark_sunk_at)
        (mark_sunk_at-Wears (mark_sunk_ship b b.ships s.type) ss p r c
          (mark_sunk_ship-Wears b b.ships s.type r c e))
  | inr k ↦ rw (k, mark_sunk_at) (mark_sunk_at-Wears b ss p r c e)
]

shoot_cell-Wears :
    (b : Board) (r c : ℕ) (s : CellState)
    → b.grid r c ≡ s
    → Wears b.grid (shoot_cell b r c s).0.grid
      × (is_fresh ((shoot_cell b r c s).0.grid r c) ≡ false)
unfolding shoot_cell
shoot_cell-Wears b r c cell_ship e = (λ i j h. ground (arith, h), ground arith)
shoot_cell-Wears b r c cell_empty e = (λ i j h. ground (arith, h), ground arith)
shoot_cell-Wears b r c cell_miss e = (λ i j h. h, ground (arith, e))
shoot_cell-Wears b r c cell_hit e = (λ i j h. h, ground (arith, e))
shoot_cell-Wears b r c cell_sunk e = (λ i j h. h, ground (arith, e))

pub process_shot-Wears : (b : Board) (p : Coordinate) → Wears b.grid (process_shot b p).0.grid
unfolding process_shot shoot_at
process_shot-Wears b p = shoot_at-Wears b p.row p.col
  where
    shoot_at-Wears : (a : Board) (z w : ℤ) → Wears a.grid (shoot_at a z w).0.grid
    shoot_at-Wears a (pos r) (pos c) = elim (Bool-cases (inside r c)) [
      | inl k ↦ rw (k, shoot_at) ((shoot_cell-Wears a r c (a.grid r c) refl).0)
      | inr k ↦ rw (k, shoot_at) (λ i j h. h)
    ]
    shoot_at-Wears a (pos r) (negsuc c) = λ i j h. h
    shoot_at-Wears a (negsuc r) w = λ i j h. h

pub process_shot-spends :
    (b : Board) (r c : ℕ)
    → r < board_size
    → c < board_size
    → is_fresh (b.grid r c) ≡ true
    → suc (spent b) ≤ spent (process_shot b (point r c)).0
unfolding process_shot shoot_at
process_shot-spends b r c h k fresh =
    let i : inside r c ≡ true = ground (arith, h, k) in
    let w = shoot_cell-Wears b r c (b.grid r c) refl in
    spent_more b (process_shot b (point r c)).0 r c (process_shot-Wears b (point r c)) h k fresh
      (rw (i, shoot_at) w.1)

marks-Wears : (b : Board) (p : Coordinate) → spent b ≤ spent (mark_sunk_at b b.ships p)
marks-Wears b p = spent-Wears b (mark_sunk_at b b.ships p) (mark_sunk_at-Wears b b.ships p)

to_int8_small : (n : ℕ) → n < 10 → to_int8 (pos n) ≡ pos n
to_int8_small n h = ground arith

-- A target on the grid that can be aimed at.
pub record IsAim (b : Board) (p : Coordinate) : Type 0 where
  pub aboard : on_grid p.row p.col ≡ true
  pub fresh : is_fresh (get_cell b p.row p.col) ≡ true

-- A local shot at a cell that was not shot at spends one more cell.
pub local_shot-spends :
    (b : Board) (p : Coordinate) → IsAim b p → suc (spent b) ≤ spent (local_shot b p).0
unfolding local_shot get_cell
local_shot-spends b p aim = spends p.row p.col aim.aboard aim.fresh
  where
    spends :
        (z w : ℤ)
        → on_grid z w ≡ true
        → is_fresh (get_cell b z w) ≡ true
        → suc (spent b) ≤ spent (local_shot b (record { row = z; col = w })).0
    spends (pos r) (pos c) o f =
        let h : r < board_size = ground (arith, o) in
        let k : c < board_size = ground (arith, o) in
        let x = process_shot b (point r c) in
        let more = process_shot-spends b r c h k (ground (arith, f, h, k)) in
        rw (to_int8_small r h, to_int8_small c k, local_shot)
          (elim (Bool-cases (is_sinking x.1)) [
            | inl e ↦ rw e (omega (arith, more, marks-Wears x.0 (point r c)))
            | inr e ↦ rw e more
          ])
    spends (pos r) (negsuc c) o f = absurd (ground (arith, o))
    spends (negsuc r) w o f = absurd (ground (arith, o))
