-- ===== src/Battle/Marking.antt =====
-- The marks on the ship that a local shot sinks (UIManager::markSunkShip).
use networkprogramming_battl.Base.{
  ℕ, zero, suc, if◌then◌else◌, ℤ, pos, negsuc, int_eq, true, false, ◌&&◌, ◌≡◌, refl, List, [], ◌∷◌,
  All, inl, inr, Bool-cases, arith,
}
use networkprogramming_battl.Protocol.{Coordinate, Ship}
use networkprogramming_battl.Placements.{to_int8}
use networkprogramming_battl.Board.{
  Board, Grid, CellState, cell_sunk, is_ship, cell_row, cell_col, covers, inside, get_cell,
  set_cell, process_shot,
}
use networkprogramming_battl.Board.Cells.{point}
use networkprogramming_battl.Board.Fleet.{IsAfloat, IsValid}
use networkprogramming_battl.Board.Shots.{process_shot-IsValid}
use networkprogramming_battl.Board.Sinking.{set_cell-IsValid, sunk_quiet}
use networkprogramming_battl.Battle.Fire.{
  mark_cells, mark_sunk_ship, mark_sunk_at, is_sinking, local_shot,
}

-- What `set_cell` changes.
pub set_cell-grid :
    (b : Board) (z w : ℤ) (v : CellState) (r c : ℕ)
    → (set_cell b z w v).grid r c
      ≡ (if (int_eq z (pos r) && int_eq w (pos c)) && inside r c then v else b.grid r c)
unfolding set_cell
set_cell-grid b (pos a) (pos d) v r c = ground arith
set_cell-grid b (pos a) (negsuc d) v r c = ground arith
set_cell-grid b (negsuc a) w v r c = ground arith

pub set_cell-ships : (b : Board) (z w : ℤ) (v : CellState) → (set_cell b z w v).ships ≡ b.ships
unfolding set_cell
set_cell-ships b (pos a) (pos d) v = ground arith
set_cell-ships b (pos a) (negsuc d) v = refl
set_cell-ships b (negsuc a) w v = refl

-- None of the n cells of the ship from j on floats.
abbrev Quiet : Grid → Ship → ℕ → ℕ → Type 0
Quiet g s j n = (r c : ℕ) → covers s (point r c) j n ≡ true → is_ship (g r c) ≡ false

get_cell_quiet :
    (b : Board) (z w : ℤ)
    → ((r c : ℕ) → (int_eq z (pos r) && int_eq w (pos c)) ≡ true → is_ship (b.grid r c) ≡ false)
    → is_ship (get_cell b z w) ≡ false
unfolding get_cell
get_cell_quiet b (pos a) (pos d) h = ground (arith, h a d (ground arith))
get_cell_quiet b (pos a) (negsuc d) h = refl
get_cell_quiet b (negsuc a) w h = refl

mark_cells-IsValid :
    (b : Board) (s : Ship) (j n : ℕ) → IsValid b → Quiet b.grid s j n → IsValid (mark_cells b s j n)
unfolding mark_cells covers
mark_cells-IsValid b s j zero v q = v
mark_cells-IsValid b s j (suc n) v q =
    let z = cell_row s.position s.orientation j in
    let w = cell_col s.position s.orientation j in
    mark_cells-IsValid (set_cell b z w cell_sunk) s (suc j) n
      (set_cell-IsValid b z w (get_cell_quiet b z w (λ r c e. q r c (ground (arith, e)))) v)
      (λ r c e. ground (arith, set_cell-grid b z w cell_sunk r c, q r c (ground (arith, e))))

mark_sunk_ship-IsValid :
    (b : Board) (ss : List Ship) (type : ℕ)
    → IsValid b
    → All (IsAfloat b.grid) ss
    → IsValid (mark_sunk_ship b ss type)
unfolding mark_sunk_ship
mark_sunk_ship-IsValid b [] type v a = v
mark_sunk_ship-IsValid b (s ∷ ss) type v a = elim (Bool-cases s.is_sunk) [
  | inl k ↦ ground (
    arith,
    mark_cells-IsValid b s 0 s.length v (λ r c e. sunk_quiet b.grid s r c a.0 k e),
    mark_sunk_ship-IsValid b ss type v a.1,
  )
  | inr k ↦ ground (arith, k, mark_sunk_ship-IsValid b ss type v a.1)
]

mark_sunk_at-IsValid :
    (b : Board) (ss : List Ship) (p : Coordinate) → IsValid b → IsValid (mark_sunk_at b ss p)
unfolding mark_sunk_at
mark_sunk_at-IsValid b [] p v = v
mark_sunk_at-IsValid b (s ∷ ss) p v = elim (Bool-cases (s.is_sunk && covers s p 0 s.length)) [
  | inl k ↦ rw k (
      mark_sunk_at-IsValid (mark_sunk_ship b b.ships s.type) ss p
        (mark_sunk_ship-IsValid b b.ships s.type v v.fleet.afloat))
  | inr k ↦ rw k (mark_sunk_at-IsValid b ss p v)
]

-- A local shot, with the marks on a ship that it sinks, keeps a valid board valid.
pub local_shot-IsValid : (b : Board) (p : Coordinate) → IsValid b → IsValid (local_shot b p).0
unfolding local_shot
local_shot-IsValid b p v =
    let target : Coordinate = record { row = to_int8 p.row; col = to_int8 p.col } in
    let x = process_shot b target in
    let kept = process_shot-IsValid b target v in
    elim (Bool-cases (is_sinking x.1)) [
      | inl k ↦ rw (k, local_shot) (mark_sunk_at-IsValid x.0 x.0.ships p kept)
      | inr k ↦ rw (k, local_shot) kept
    ]
