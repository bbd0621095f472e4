-- ===== src/Battle/Scans.antt =====
-- What the scans beside a sunk target mark, and when a ship is shown over them.
use networkprogramming_battl.Base.{
  ℕ, zero, suc, ◌<◌, if◌then◌else◌, ℤ, pos, negsuc, int_eq, Bool, true, false, ◌&&◌, ◌||◌, ◌≡◌,
  refl, ap, ◌∙◌, arith,
}
use networkprogramming_battl.Board.{Board, CellState, cell_sunk, inside, get_cell, set_cell}
use networkprogramming_battl.Battle.Reveal.{
  is_cell_hit, Direction, left, right, up, down, step_row, step_col, scan,
}
use networkprogramming_battl.Battle.Marking.{set_cell-grid, set_cell-ships}

-- Two steps of a scan are at different cells.
steps_apart :
    (d : Direction) (row col : ℤ) (i j : ℕ)
    → i < j
    → (int_eq (step_row d row i) (step_row d row j) && int_eq (step_col d col i) (step_col d col j))
      ≡ false
steps_apart left row (pos c) i j h = ground arith
steps_apart left row (negsuc c) i j h = ground arith
steps_apart right row (pos c) i j h = ground arith
steps_apart right row (negsuc c) i j h = ground arith
steps_apart up (pos r) col i j h = ground arith
steps_apart up (negsuc r) col i j h = ground arith
steps_apart down (pos r) col i j h = ground arith
steps_apart down (negsuc r) col i j h = ground arith

pub get_cell_other :
    (b : Board) (z w z' w' : ℤ) (v : CellState)
    → (int_eq z z' && int_eq w w') ≡ false
    → get_cell (set_cell b z w v) z' w' ≡ get_cell b z' w'
unfolding get_cell
get_cell_other b z w (pos r) (pos c) v h = ground (arith, set_cell-grid b z w v r c, h)
get_cell_other b z w (pos r) (negsuc c) v h = refl
get_cell_other b z w (negsuc r) c v h = refl

abbrev pub hit_step : Direction → ℤ → ℤ → Board → ℕ → Bool
hit_step d row col b i = is_cell_hit (get_cell b (step_row d row i) (step_col d col i))

-- Is the cell one of the n that the scan visits from step i on?
unfoldable pub reaches : Direction → ℤ → ℤ → ℕ → ℕ → ℕ → ℕ → Bool
reaches d row col i zero r c = false
reaches d row col i (suc n) r c =
    (int_eq (step_row d row i) (pos r) && int_eq (step_col d col i) (pos c))
    || reaches d row col (suc i) n r c

-- The first n cells of the scan are hit, and the next one is not.
abbrev pub IsRun : Direction → ℤ → ℤ → Board → ℕ → ℕ → Type 0
IsRun d row col b i zero = hit_step d row col b i ≡ false
IsRun d row col b i (suc n) = (hit_step d row col b i ≡ true) × IsRun d row col b (suc i) n

-- What a scan gives: n cells are sunk, and nothing else changes.
pub record IsScanned (d : Direction) (row col : ℤ) (i n : ℕ) (b : Board) (x : Board × ℕ)
    : Type 0 where
  pub counted : x.1 ≡ n
  pub ships : x.0.ships ≡ b.ships
  pub marks :
      (r c : ℕ)
      → x.0.grid r c ≡ (if reaches d row col i n r c && inside r c then cell_sunk else b.grid r c)

module _ (d : Direction) (row col : ℤ) where
  hit_step_other :
      (b : Board) (i j : ℕ) (v : CellState)
      → i < j
      → hit_step d row col (set_cell b (step_row d row i) (step_col d col i) v) j
        ≡ hit_step d row col b j
  hit_step_other b i j v h = ap is_cell_hit (
      get_cell_other b (step_row d row i) (step_col d col i) (step_row d row j) (step_col d col j) v
        (steps_apart d row col i j h))

  IsRun-other :
      (b : Board) (i j n : ℕ) (v : CellState)
      → i < j
      → IsRun d row col b j n
      → IsRun d row col (set_cell b (step_row d row i) (step_col d col i) v) j n
  IsRun-other b i j zero v h r = hit_step_other b i j v h ∙ r
  IsRun-other b i j (suc n) v h r =
      (hit_step_other b i j v h ∙ r.0, IsRun-other b i (suc j) n v (omega arith) r.1)

  pub scan-IsScanned :
      (b : Board) (i n fuel : ℕ)
      → n < fuel
      → IsRun d row col b i n
      → IsScanned d row col i n b (scan d row col i fuel b)
  unfolding scan reaches
  scan-IsScanned b i n zero h r = absurd (omega (arith, h))
  scan-IsScanned b i zero (suc fuel) h r =
      rw (r, scan) (record { counted = refl; ships = refl; marks = λ r c. refl })
  scan-IsScanned b i (suc n) (suc fuel) h r =
      let z = step_row d row i in
      let w = step_col d col i in
      let rest =
        scan-IsScanned (set_cell b z w cell_sunk) (suc i) n fuel (omega (arith, h))
          (IsRun-other b i (suc i) n cell_sunk (omega arith) r.1) in
      rw (r.0, scan)
        (record {
          counted = ap suc rest.counted;
          ships = rest.ships ∙ set_cell-ships b z w cell_sunk;
          marks = λ r c. ground (arith, rest.marks r c, set_cell-grid b z w cell_sunk r c);
        })
