-- ===== src/Board/Cells.antt =====
-- The cells of one ship on the grid: which of them still float, and what a write to one cell changes.
use networkprogramming_battl.Base.{
  ℕ, zero, suc, ◌+◌, ◌≤◌, ◌<◌, if◌then◌else◌, ℤ, pos, negsuc, shift, int_eq, Bool, true, false,
  ◌&&◌, ◌≡◌, refl, inl, inr, Bool-cases, arith, int_eq_refl,
}
use networkprogramming_battl.Protocol.{Coordinate, Ship}
use networkprogramming_battl.Board.{
  CellState, cell_empty, cell_ship, cell_hit, cell_sunk, is_ship, Grid, update, cell_row, cell_col,
  covers,
}

-- The grid at integer coordinates; outside the quadrant nothing floats.
abbrev pub look : Grid → ℤ → ℤ → CellState
look g (pos r) (pos c) = g r c
look g (pos r) (negsuc c) = cell_empty
look g (negsuc r) c = cell_empty

abbrev pub ship_cell : Grid → Ship → ℕ → CellState
ship_cell g s j = look g (cell_row s.position s.orientation j) (cell_col s.position s.orientation j)

abbrev pub at : Ship → Coordinate → ℕ → Bool
at s p j =
    int_eq (cell_row s.position s.orientation j) p.row
    && int_eq (cell_col s.position s.orientation j) p.col

-- How many of the n cells from j on are not hit yet.
unfoldable pub live : Grid → Ship → ℕ → ℕ → ℕ
live g s j zero = 0
live g s j (suc n) = (if is_ship (ship_cell g s j) then 1 else 0) + live g s (suc j) n

abbrev pub is_marked : CellState → Bool
is_marked cell_ship = true
is_marked cell_hit = true
is_marked cell_sunk = true
is_marked _ = false

-- Each of the n cells from j on is a ship cell, hit or not.
unfoldable pub marked : Grid → Ship → ℕ → ℕ → Bool
marked g s j zero = true
marked g s j (suc n) = is_marked (ship_cell g s j) && marked g s (suc j) n

abbrev pub point : ℕ → ℕ → Coordinate
point r c = record { row = pos r; col = pos c }

look-update_off :
    (g : Grid) (r c : ℕ) (v : CellState) (z w : ℤ)
    → (int_eq z (pos r) && int_eq w (pos c)) ≡ false
    → look (update g r c v) z w ≡ look g z w
look-update_off g r c v (pos a) (pos b) h = ground arith
look-update_off g r c v (pos a) (negsuc b) h = refl
look-update_off g r c v (negsuc a) w h = refl

look-update_on :
    (g : Grid) (r c : ℕ) (v : CellState) (z w : ℤ)
    → (int_eq z (pos r) && int_eq w (pos c)) ≡ true
    → look (update g r c v) z w ≡ v
look-update_on g r c v (pos a) (pos b) h = ground arith
look-update_on g r c v (pos a) (negsuc b) h = ground arith
look-update_on g r c v (negsuc a) w h = ground arith

look_on :
    (g : Grid) (r c : ℕ) (z w : ℤ)
    → (int_eq z (pos r) && int_eq w (pos c)) ≡ true
    → look g z w ≡ g r c
look_on g r c (pos a) (pos b) h = ground arith
look_on g r c (pos a) (negsuc b) h = ground arith
look_on g r c (negsuc a) w h = ground arith

shift_apart :
    (z q : ℤ) (j k : ℕ) → j < k → int_eq (shift z j) q ≡ true → int_eq (shift z k) q ≡ false
shift_apart (pos a) (pos b) j k h e = ground arith
shift_apart (pos a) (negsuc b) j k h e = ground arith
shift_apart (negsuc a) (pos b) j k h e = ground arith
shift_apart (negsuc a) (negsuc b) j k h e = ground arith

-- A ship that lies in one of the two directions has each cell once.
at_apart :
    (s : Ship) (p : Coordinate) (j k : ℕ)
    → s.orientation ≤ 1
    → j < k
    → at s p j ≡ true
    → at s p k ≡ false
at_apart s p j k o h e =
    ground (arith, shift_apart s.position.row p.row j k, shift_apart s.position.col p.col j k)

covers_apart :
    (s : Ship) (p : Coordinate) (j k n : ℕ)
    → s.orientation ≤ 1
    → j < k
    → at s p j ≡ true
    → covers s p k n ≡ false
unfolding covers
covers_apart s p j k zero o h e = refl
covers_apart s p j k (suc n) o h e =
    ground (arith, at_apart s p j k, covers_apart s p j (suc k) n o)

-- A write beside the ship changes none of its cells.
pub live-update_off :
    (g : Grid) (r c : ℕ) (v : CellState) (s : Ship) (j n : ℕ)
    → covers s (point r c) j n ≡ false
    → live (update g r c v) s j n ≡ live g s j n
unfolding live covers
live-update_off g r c v s j zero h = refl
live-update_off g r c v s j (suc n) h = ground (
  arith,
  look-update_off g r c v (cell_row s.position s.orientation j)
      (cell_col s.position s.orientation j),
  live-update_off g r c v s (suc j) n,
)

pub marked-update_off :
    (g : Grid) (r c : ℕ) (v : CellState) (s : Ship) (j n : ℕ)
    → covers s (point r c) j n ≡ false
    → marked (update g r c v) s j n ≡ marked g s j n
unfolding marked covers
marked-update_off g r c v s j zero h = refl
marked-update_off g r c v s j (suc n) h = ground (
  arith,
  look-update_off g r c v (cell_row s.position s.orientation j)
      (cell_col s.position s.orientation j),
  marked-update_off g r c v s (suc j) n,
)

-- A write over a cell that does not float, of a value that does not, changes no floating cell.
pub live-update_quiet :
    (g : Grid) (r c : ℕ) (v : CellState) (s : Ship) (j n : ℕ)
    → is_ship (g r c) ≡ false
    → is_ship v ≡ false
    → live (update g r c v) s j n ≡ live g s j n
unfolding live
live-update_quiet g r c v s j zero h k = refl
live-update_quiet g r c v s j (suc n) h k = elim (Bool-cases (at s (point r c) j)) [
  | inl here ↦ ground (
    arith,
    h,
    k,
    look-update_on g r c v (cell_row s.position s.orientation j)
        (cell_col s.position s.orientation j) here,
    look_on g r c (cell_row s.position s.orientation j) (cell_col s.position s.orientation j) here,
    live-update_quiet g r c v s (suc j) n h k,
  )
  | inr there ↦ ground (
    arith,
    look-update_off g r c v (cell_row s.position s.orientation j)
        (cell_col s.position s.orientation j) there,
    live-update_quiet g r c v s (suc j) n h k,
  )
]

-- A hit on the ship takes one floating cell away.
pub live-update_hit :
    (g : Grid) (r c : ℕ) (s : Ship) (j n : ℕ)
    → s.orientation ≤ 1
    → g r c ≡ cell_ship
    → covers s (point r c) j n ≡ true
    → suc (live (update g r c cell_hit) s j n) ≡ live g s j n
unfolding live covers
live-update_hit g r c s j zero o e h = absurd (ground arith)
live-update_hit g r c s j (suc n) o e h = elim (Bool-cases (at s (point r c) j)) [
  | inl here ↦
      rw
        (
          look-update_on g r c cell_hit (cell_row s.position s.orientation j)
              (cell_col s.position s.orientation j) here,
          look_on g r c (cell_row s.position s.orientation j) (cell_col s.position s.orientation j)
              here,
          e,
          live-update_off g r c cell_hit s (suc j) n
              (covers_apart s (point r c) j (suc j) n o (omega arith) here),
        )
        (omega arith)
  | inr there ↦ ground (
    arith,
    there,
    look-update_off g r c cell_hit (cell_row s.position s.orientation j)
        (cell_col s.position s.orientation j) there,
    live-update_hit g r c s (suc j) n o e,
  )
]

-- A hit or a sunk mark on a drawn ship leaves it drawn.
pub marked-update :
    (g : Grid) (r c : ℕ) (v : CellState) (s : Ship) (j n : ℕ)
    → is_marked v ≡ true
    → marked g s j n ≡ true
    → marked (update g r c v) s j n ≡ true
unfolding marked
marked-update g r c v s j zero m h = refl
marked-update g r c v s j (suc n) m h = elim (Bool-cases (at s (point r c) j)) [
  | inl here ↦ ground (
    arith,
    look-update_on g r c v (cell_row s.position s.orientation j)
        (cell_col s.position s.orientation j) here,
    marked-update g r c v s (suc j) n,
  )
  | inr there ↦ ground (
    arith,
    look-update_off g r c v (cell_row s.position s.orientation j)
        (cell_col s.position s.orientation j) there,
    marked-update g r c v s (suc j) n,
  )
]

-- A covered cell of a marked ship is a ship cell on the grid.
pub marked-covers :
    (g : Grid) (r c : ℕ) (s : Ship) (j n : ℕ)
    → marked g s j n ≡ true
    → covers s (point r c) j n ≡ true
    → is_marked (g r c) ≡ true
unfolding marked covers
marked-covers g r c s j zero m h = absurd (ground arith)
marked-covers g r c s j (suc n) m h = elim (Bool-cases (at s (point r c) j)) [
  | inl here ↦ ground (
    arith,
    look_on g r c (cell_row s.position s.orientation j) (cell_col s.position s.orientation j) here,
  )
  | inr there ↦ ground (arith, there, marked-covers g r c s (suc j) n)
]

-- While a covered cell floats, the ship has a floating cell.
pub live-covers :
    (g : Grid) (r c : ℕ) (s : Ship) (j n : ℕ)
    → g r c ≡ cell_ship
    → covers s (point r c) j n ≡ true
    → 0 < live g s j n
unfolding live covers
live-covers g r c s j zero e h = absurd (ground arith)
live-covers g r c s j (suc n) e h = elim (Bool-cases (at s (point r c) j)) [
  | inl here ↦ ground (
    arith,
    look_on g r c (cell_row s.position s.orientation j) (cell_col s.position s.orientation j) here,
  )
  | inr there ↦ ground (arith, there, live-covers g r c s (suc j) n)
]

look_quiet :
    (g : Grid) (z w : ℤ)
    → ((r c : ℕ) → (int_eq z (pos r) && int_eq w (pos c)) ≡ true → g r c ≡ cell_ship → ⊥)
    → is_ship (look g z w) ≡ false
look_quiet g (pos a) (pos b) h =
    ground (arith, h a b (ground (arith, int_eq_refl (pos a), int_eq_refl (pos b))))
look_quiet g (pos a) (negsuc b) h = refl
look_quiet g (negsuc a) w h = refl

-- A ship none of whose cells floats on the grid has no live cell.
pub live_none :
    (g : Grid) (s : Ship) (j n : ℕ)
    → ((r c : ℕ) → covers s (point r c) j n ≡ true → g r c ≡ cell_ship → ⊥)
    → live g s j n ≡ 0
unfolding live covers
live_none g s j zero h = refl
live_none g s j (suc n) h = ground (
  arith,
  look_quiet g (cell_row s.position s.orientation j) (cell_col s.position s.orientation j)
      (λ r c e. h r c (ground (arith, e))),
  live_none g s (suc j) n (λ r c e. h r c (ground (arith, e))),
)
