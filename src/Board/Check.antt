-- ===== src/Board/Check.antt =====
-- What `isValidPlacement` answers, and that it reads no cell outside the board.
use networkprogramming_battl.Base.{
  ℕ, zero, suc, ◌+◌, ◌-◌, ◌≤◌, ◌<◌, ltb, leb, ◌==◌, if◌then◌else◌, ℤ, pos, negsuc, shift, int_eq,
  int_gt, is_neg, Bool, true, false, ◌&&◌, ◌||◌, ◌≡◌, ◌⊎◌, ◌↔◌, inl, inr, refl, sym, ap, subst, ◌∙◌,
  Option, none, some, List, [], ◌∷◌, ◌++◌, length, All, All-append, length-append, Bool-cases,
  Option-cases, int_eq_refl, arith, eq→≡,
}
use networkprogramming_battl.Protocol.{Coordinate, Ship, get_ship_length, horizontal, vertical}
use networkprogramming_battl.Board.{
  Board, cell_empty, Grid, is_free, new_ship, place_ship, is_valid_placement, board_size,
}
use networkprogramming_battl.Board.Cells.{point}
use networkprogramming_battl.Board.Placement.{Fits-of_valid, Placed, place_ship-Placed}
use networkprogramming_battl.Board.Marks.{Fits, Fits-is_free, OnBoard, ship_read}

module _ (g : Grid) (s : Ship) (r c : ℕ) (at_point : s.position ≡ point r c) where
  -- A ship that starts on the board and ends on it has all its cells on it.
  pub inside-OnBoard :
      (j n : ℕ)
      → r < board_size
      → c < board_size
      → (s.orientation ≡ horizontal → c + j + n ≤ board_size)
      → (s.orientation ≡ vertical → r + j + n ≤ board_size)
      → OnBoard g s j n
  inside-OnBoard j zero h k x y = tt
  inside-OnBoard j (suc n) h k x y = (
    (
      g (if s.orientation == vertical then r + j else r)
          (if s.orientation == horizontal then c + j else c),
      rw at_point (ground (arith, x, y)),
    ),
    inside-OnBoard (suc j) n h k (λ e. omega (arith, x e)) (λ e. omega (arith, y e)),
  )

is_free-decides :
    (g : Grid) (s : Ship) (j n : ℕ)
    → OnBoard g s j n
    → (is_free g s.position s.orientation j n ≡ some true)
      ⊎ (is_free g s.position s.orientation j n ≡ some false)
unfolding is_free
is_free-decides g s j zero o = inl refl
is_free-decides g s j (suc n) o = ground (arith, o.0.1, is_free-decides g s (suc j) n o.1)

-- From a square of the board the check reads only the board, and answers.
pub is_valid_placement-decides :
    (b : Board) (type r c o : ℕ)
    → r < board_size
    → c < board_size
    → (is_valid_placement b type (point r c) o ≡ some true)
      ⊎ (is_valid_placement b type (point r c) o ≡ some false)
unfolding is_valid_placement
is_valid_placement-decides b type r c o h k =
    let s = new_ship type (point r c) o in
    let n = get_ship_length type in
    elim (Bool-cases (o == horizontal && int_gt (shift (pos c) n) board_size)) [
      | inl x ↦ inr (rw x refl)
      | inr x ↦ elim (Bool-cases (o == vertical && int_gt (shift (pos r) n) board_size)) [
        | inl y ↦ inr (rw (x, y) refl)
        | inr y ↦
            rw (x, y)
              (is_free-decides b.grid s 0 n (
                inside-OnBoard b.grid s r c refl 0 n h k (λ e. ground (arith, x, e))
                  (λ e. ground (arith, y, e))))
      ]
    ]

-- From a square of the board, where a slot is left, a placement draws the ship and reports success,
-- or reports failure and leaves the board as it was.
pub place_ship-cases :
    (b : Board) (type r c o : ℕ)
    → r < board_size
    → c < board_size
    → 0 < length b.spare
    → ((b' : Board) × (place_ship b type (point r c) o ≡ some (b', true))
        × Placed b (new_ship type (point r c) o) b')
      ⊎ (place_ship b type (point r c) o ≡ some (b, false))
unfolding place_ship
place_ship-cases b type r c o h k room = elim (is_valid_placement-decides b type r c o h k) [
  | inl e ↦ inl (place_ship-Placed b type (point r c) o room e)
  | inr e ↦ inr (rw (e, place_ship))
]

-- The k-th of the n cells that `Fits` speaks of.
pub Fits-cell :
    (g : Grid) (s : Ship) (j n k : ℕ)
    → Fits g s j n
    → k < n
    → ship_read g s (j + k) ≡ some cell_empty
Fits-cell g s j zero k f h = absurd (omega arith)
Fits-cell g s j (suc n) zero f h = rw (networkprogramming_battl.Base.add-zero) f.0
Fits-cell g s j (suc n) (suc k) f h = ground (arith, Fits-cell g s (suc j) n k f.1)

Fits-of_cells :
    (g : Grid) (s : Ship) (j n : ℕ)
    → ((k : ℕ) → k < n → ship_read g s (j + k) ≡ some cell_empty)
    → Fits g s j n
Fits-of_cells g s j zero f = tt
Fits-of_cells g s j (suc n) f = (
  rw (networkprogramming_battl.Base.add-zero) at (f 0 (omega arith)),
  Fits-of_cells g s (suc j) n (λ k h. ground (arith, f (suc k) (omega arith))),
)

-- The bounds tests pass where the first and the last cell are on the board.
passes :
    (b : Board) (type : ℕ) (z w : ℤ) (o : ℕ)
    → o ≤ 1
    → type < 5
    → ((k : ℕ)
        → k < get_ship_length type
        → ship_read b.grid (new_ship type (record { row = z; col = w }) o) k ≡ some cell_empty)
    → is_valid_placement b type (record { row = z; col = w }) o
      ≡ is_free b.grid (record { row = z; col = w }) o 0 (get_ship_length type)
unfolding is_valid_placement
passes b type (pos r) (pos c) o h k f = ground (arith, f (get_ship_length type - 1) (ground arith))
passes b type (pos r) (negsuc c) o h k f = absurd (ground (arith, f 0 (ground arith)))
passes b type (negsuc r) w o h k f = absurd (ground (arith, f 0 (ground arith)))

-- For a known type and a straight ship: the check accepts exactly where every cell of the ship is
-- on the board and empty.
pub is_valid_placement_iff :
    (b : Board) (type : ℕ) (p : Coordinate) (o : ℕ)
    → o ≤ 1
    → type < 5
    → (is_valid_placement b type p o ≡ some true) ↔ (
        (k : ℕ)
        → k < get_ship_length type
        → ship_read b.grid (new_ship type p o) k ≡ some cell_empty)
is_valid_placement_iff b type p o h k =
    let s = new_ship type p o in
    let n = get_ship_length type in
    (
      λ e j l.
          subst (λ i. ship_read b.grid s i ≡ some cell_empty)
            (networkprogramming_battl.Base.zero-add j)
            (Fits-cell b.grid s 0 n j (Fits-of_valid b type p o e) l),
      λ f.
          passes b type p.row p.col o h k f
          ∙ Fits-is_free b.grid s 0 n (
              Fits-of_cells b.grid s 0 n (λ j l.
                subst (λ i. ship_read b.grid s i ≡ some cell_empty)
                  (sym (networkprogramming_battl.Base.zero-add j)) (f j l))),
    )
