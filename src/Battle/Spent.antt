-- ===== src/Battle/Spent.antt =====
-- How many cells of a board have been shot at.
use networkprogramming_battl.Base.{
  ℕ, zero, suc, ◌+◌, ◌*◌, ◌≤◌, ◌<◌, if◌then◌else◌, true, false, ◌≡◌, eq→≡, inl, inr, Bool-cases,
  ◌==◌, arith,
}
use networkprogramming_battl.Board.{Board, Grid, is_fresh, board_size}

abbrev pub Wears : Grid → Grid → Type 0
Wears g g' = (r c : ℕ) → is_fresh (g r c) ≡ false → is_fresh (g' r c) ≡ false

unfoldable spent_in_row : Grid → ℕ → ℕ → ℕ
spent_in_row g r zero = 0
spent_in_row g r (suc n) = (if is_fresh (g r n) then 0 else 1) + spent_in_row g r n

unfoldable spent_in : Grid → ℕ → ℕ
unfolding spent_in_row
spent_in g zero = 0
spent_in g (suc n) = spent_in_row g n board_size + spent_in g n

unfoldable pub spent : Board → ℕ
unfolding spent_in
spent b = spent_in b.grid board_size

spent_in_row-le : (g : Grid) (r n : ℕ) → spent_in_row g r n ≤ n
unfolding spent_in_row
spent_in_row-le g r zero = omega arith
spent_in_row-le g r (suc n) = ground (arith, spent_in_row-le g r n)

spent_in-le : (g : Grid) (n : ℕ) → spent_in g n ≤ n * 10
unfolding spent_in
spent_in-le g zero = omega arith
spent_in-le g (suc n) = omega (arith, spent_in_row-le g n board_size, spent_in-le g n)

pub spent-le : (b : Board) → spent b ≤ 100
unfolding spent
spent-le b = spent_in-le b.grid board_size

module _ (g g' : Grid) (wears : Wears g g') where
  row_wears : (r n : ℕ) → spent_in_row g r n ≤ spent_in_row g' r n
  unfolding spent_in_row
  row_wears r zero = omega arith
  row_wears r (suc n) = ground (arith, row_wears r n, wears r n)

  rows_wear : (n : ℕ) → spent_in g n ≤ spent_in g' n
  unfolding spent_in
  rows_wear zero = omega arith
  rows_wear (suc n) = omega (arith, row_wears n board_size, rows_wear n)

  module _ (r c : ℕ) (fresh : is_fresh (g r c) ≡ true) (worn : is_fresh (g' r c) ≡ false) where
    row_wears_more : (n : ℕ) → c < n → suc (spent_in_row g r n) ≤ spent_in_row g' r n
    unfolding spent_in_row
    row_wears_more zero h = absurd (omega (arith, h))
    row_wears_more (suc n) h = elim (Bool-cases (c == n)) [
      | inl e ↦ let here = eq→≡ c n e in ground (arith, row_wears r n, fresh, worn, here)
      | inr e ↦ ground (arith, row_wears_more n (ground (arith, e, h)), wears r n)
    ]

    rows_wear_more : (n : ℕ) → c < board_size → r < n → suc (spent_in g n) ≤ spent_in g' n
    unfolding spent_in
    rows_wear_more zero k h = absurd (omega (arith, h))
    rows_wear_more (suc n) k h = elim (Bool-cases (r == n)) [
      | inl e ↦ rw (← eq→≡ r n e) (omega (arith, rows_wear r, row_wears_more board_size k))
      | inr e ↦ omega (arith, row_wears n board_size, rows_wear_more n k (ground (arith, e, h)))
    ]

-- A board on which every cell that was shot at still is has as many of them.
pub spent-Wears : (b b' : Board) → Wears b.grid b'.grid → spent b ≤ spent b'
unfolding spent
spent-Wears b b' w = rows_wear b.grid b'.grid w board_size

-- One more cell that is shot at counts.
pub spent_more :
    (b b' : Board) (r c : ℕ)
    → Wears b.grid b'.grid
    → r < board_size
    → c < board_size
    → is_fresh (b.grid r c) ≡ true
    → is_fresh (b'.grid r c) ≡ false
    → suc (spent b) ≤ spent b'
unfolding spent
spent_more b b' r c w h k fresh worn = rows_wear_more b.grid b'.grid w r c fresh worn board_size k h
