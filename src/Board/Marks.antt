-- ===== src/Board/Marks.antt =====
-- The loops of isValidPlacement and placeShip over the cells of one ship.
use networkprogramming_battl.Base.{
  ℕ, zero, suc, if◌then◌else◌, ℤ, pos, negsuc, int_eq, true, ◌&&◌, ◌≡◌, inl, inr, refl, Option,
  some, Bool-cases, Option-cases, arith,
}
use networkprogramming_battl.Protocol.{Ship}
use networkprogramming_battl.Board.{
  CellState, cell_empty, cell_ship, Grid, update, inside, read, write, cell_row, cell_col, covers,
  is_free, mark_ship,
}
use networkprogramming_battl.Board.Cells.{at, point}

abbrev pub ship_read : Grid → Ship → ℕ → Option CellState
ship_read g s j = read g (cell_row s.position s.orientation j) (cell_col s.position s.orientation j)

-- The n cells from j on lie on the board and are empty.
abbrev pub Fits : Grid → Ship → ℕ → ℕ → Type 0
Fits g s j zero = Unit {0}
Fits g s j (suc n) = (ship_read g s j ≡ some cell_empty) × Fits g s (suc j) n

pub is_free-Fits :
    (g : Grid) (s : Ship) (j n : ℕ)
    → is_free g s.position s.orientation j n ≡ some true
    → Fits g s j n
unfolding is_free
is_free-Fits g s j zero e = tt
is_free-Fits g s j (suc n) e = elim (Option-cases (ship_read g s j)) [
  | inl k ↦ ground arith
  | inr (cell, k) ↦ ground (arith, is_free-Fits g s (suc j) n)
]

pub Fits-is_free :
    (g : Grid) (s : Ship) (j n : ℕ)
    → Fits g s j n
    → is_free g s.position s.orientation j n ≡ some true
unfolding is_free
Fits-is_free g s j zero f = refl
Fits-is_free g s j (suc n) f = rw (f.0, is_free) (Fits-is_free g s (suc j) n f.1)

read_point :
    (g : Grid) (z w : ℤ) {v : CellState}
    → read g z w ≡ some v
    → (r : ℕ) × (c : ℕ) × (z ≡ pos r) × (w ≡ pos c) × (inside r c ≡ true) × (g r c ≡ v)
read_point g (pos r) (pos c) e = (r, c, refl, refl, ground arith, ground arith)
read_point g (pos r) (negsuc c) e = absurd (ground arith)
read_point g (negsuc r) w e = absurd (ground arith)

read_at :
    (g : Grid) (r c : ℕ) (z w : ℤ) {v : CellState}
    → (int_eq z (pos r) && int_eq w (pos c)) ≡ true
    → read g z w ≡ some v
    → g r c ≡ v
read_at g r c (pos a) (pos b) h e = ground arith
read_at g r c (pos a) (negsuc b) h e = ground arith
read_at g r c (negsuc a) w h e = ground arith

pub Fits-covers :
    (g : Grid) (s : Ship) (r c j n : ℕ)
    → Fits g s j n
    → covers s (point r c) j n ≡ true
    → g r c ≡ cell_empty
unfolding covers
Fits-covers g s r c j zero f h = absurd (ground arith)
Fits-covers g s r c j (suc n) f h = elim (Bool-cases (at s (point r c) j)) [
  | inl here ↦
      read_at g r c (cell_row s.position s.orientation j) (cell_col s.position s.orientation j) here
        f.0
  | inr there ↦ ground (arith, there, Fits-covers g s r c (suc j) n f.1)
]

-- Marking writes `cell_ship` to the ship's cells and to no other.
abbrev pub Marks : Grid → Ship → ℕ → ℕ → Grid → Type 0
Marks g s j n g' = (r c : ℕ) → g' r c ≡ (if covers s (point r c) j n then cell_ship else g r c)

write_point :
    (g : Grid) (z w : ℤ) (v x : CellState)
    → read g z w ≡ some x
    → (g' : Grid) × (write g z w v ≡ some g')
      × ((r c : ℕ) → g' r c ≡ (if int_eq z (pos r) && int_eq w (pos c) then v else g r c))
write_point g (pos a) (pos b) v x e = (update g a b v, ground arith, λ r c. ground arith)
write_point g (pos a) (negsuc b) v x e = absurd (ground arith)
write_point g (negsuc a) w v x e = absurd (ground arith)

-- Whether a read falls on the board does not depend on the grid.
read_other :
    (g g' : Grid) (z w : ℤ) {x : CellState}
    → read g z w ≡ some x
    → (y : CellState) × (read g' z w ≡ some y)
read_other g g' (pos a) (pos b) e = (g' a b, ground arith)
read_other g g' (pos a) (negsuc b) e = absurd (ground arith)
read_other g g' (negsuc a) w e = absurd (ground arith)

-- The n cells from j on lie on the board.
abbrev pub OnBoard : Grid → Ship → ℕ → ℕ → Type 0
OnBoard g s j zero = Unit {0}
OnBoard g s j (suc n) = ((x : CellState) × (ship_read g s j ≡ some x)) × OnBoard g s (suc j) n

pub Fits-OnBoard : (g : Grid) (s : Ship) (j n : ℕ) → Fits g s j n → OnBoard g s j n
Fits-OnBoard g s j zero f = tt
Fits-OnBoard g s j (suc n) f = ((cell_empty, f.0), Fits-OnBoard g s (suc j) n f.1)

pub OnBoard-other : (g g' : Grid) (s : Ship) (j n : ℕ) → OnBoard g s j n → OnBoard g' s j n
OnBoard-other g g' s j zero o = tt
OnBoard-other g g' s j (suc n) o = (
  read_other g g' (cell_row s.position s.orientation j) (cell_col s.position s.orientation j) o.0.1,
  OnBoard-other g g' s (suc j) n o.1,
)

pub mark_ship-Marks :
    (g : Grid) (s : Ship) (j n : ℕ)
    → OnBoard g s j n
    → (g' : Grid) × (mark_ship g s.position s.orientation j n ≡ some g') × Marks g s j n g'
unfolding mark_ship covers
mark_ship-Marks g s j zero o = (g, refl, λ r c. refl)
mark_ship-Marks g s j (suc n) o =
    let (g₁, e₁, m₁) =
      write_point g (cell_row s.position s.orientation j) (cell_col s.position s.orientation j)
        cell_ship o.0.0 o.0.1 in
    let (g₂, e₂, m₂) = mark_ship-Marks g₁ s (suc j) n (OnBoard-other g g₁ s (suc j) n o.1) in
    (g₂, rw (e₁, mark_ship) e₂, λ r c. ground (arith, m₁ r c, m₂ r c))

read_on :
    (g : Grid) (r c : ℕ) (z w : ℤ) {x : CellState}
    → (int_eq z (pos r) && int_eq w (pos c)) ≡ true
    → read g z w ≡ some x
    → inside r c ≡ true
read_on g r c (pos a) (pos b) h e = ground arith
read_on g r c (pos a) (negsuc b) h e = ground arith
read_on g r c (negsuc a) w h e = ground arith

-- The cells of a ship on the board are squares of the board.
pub OnBoard-covers :
    (g : Grid) (s : Ship) (r c j n : ℕ)
    → OnBoard g s j n
    → covers s (point r c) j n ≡ true
    → inside r c ≡ true
unfolding covers
OnBoard-covers g s r c j zero o h = absurd (ground arith)
OnBoard-covers g s r c j (suc n) o h = elim (Bool-cases (at s (point r c) j)) [
  | inl here ↦
      read_on g r c (cell_row s.position s.orientation j) (cell_col s.position s.orientation j) here
        o.0.1
  | inr there ↦ OnBoard-covers g s r c (suc j) n o.1 (ground (arith, there))
]
