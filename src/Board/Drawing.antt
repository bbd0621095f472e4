-- ===== src/Board/Drawing.antt =====
-- Drawing a new ship on free cells of the grid: the ships already there are not touched.
use networkprogramming_battl.Base.{
  ℕ, zero, suc, ◌+◌, ◌≤◌, ◌<◌, if◌then◌else◌, ℤ, pos, negsuc, int_eq, true, ◌&&◌, ◌||◌, ◌≡◌, inl,
  inr, refl, some, List, [], ◌∷◌, ◌++◌, All, All-append, Bool-cases, int_eq_refl, arith,
}
use networkprogramming_battl.Protocol.{Coordinate, Ship, get_ship_length}
use networkprogramming_battl.Board.{
  Board, CellState, cell_empty, cell_ship, cell_miss, cell_hit, cell_sunk, Grid, inside, cell_row,
  cell_col, covers, is_free, mark_ship, add_ship, new_ship, put_ship, place_ship,
  is_valid_placement, new_board, board_size,
}
use networkprogramming_battl.Board.Cells.{look, live, marked, point, marked-covers}
use networkprogramming_battl.Board.Fleet.{IsAfloat, Apart, Disjoint, sunk_count, owned, IsFleet}
use networkprogramming_battl.Board.Marks.{
  Fits, Fits-covers, Fits-OnBoard, Marks, OnBoard, OnBoard-covers,
}

module _ (g g' : Grid) (s : Ship) where
  look_agree :
      (z w : ℤ)
      → ((r c : ℕ) → (int_eq z (pos r) && int_eq w (pos c)) ≡ true → g' r c ≡ g r c)
      → look g' z w ≡ look g z w
  look_agree (pos a) (pos b) h = h a b (ground (arith, int_eq_refl (pos a), int_eq_refl (pos b)))
  look_agree (pos a) (negsuc b) h = refl
  look_agree (negsuc a) w h = refl

  -- Two grids that agree on the ship's cells count and draw the ship alike.
  live_agree :
      (j n : ℕ)
      → ((r c : ℕ) → covers s (point r c) j n ≡ true → g' r c ≡ g r c)
      → (live g' s j n ≡ live g s j n) × (marked g' s j n ≡ marked g s j n)
  unfolding live marked covers
  live_agree j zero h = (refl, refl)
  live_agree j (suc n) h = ground (
    arith,
    look_agree (cell_row s.position s.orientation j) (cell_col s.position s.orientation j)
        (λ r c e. h r c (ground (arith, e))),
    live_agree (suc j) n (λ r c e. h r c (ground (arith, e))),
  )

-- A ship whose cells are all drawn and not hit floats in full.
live_full :
    (g g' : Grid) (s : Ship) (j n : ℕ)
    → OnBoard g s j n
    → ((r c : ℕ) → covers s (point r c) j n ≡ true → g' r c ≡ cell_ship)
    → (live g' s j n ≡ n) × (marked g' s j n ≡ true)
unfolding live marked covers
live_full g g' s j zero o h = (refl, refl)
live_full g g' s j (suc n) o h = ground (
  arith,
  look_full (cell_row s.position s.orientation j) (cell_col s.position s.orientation j) o.0.1
      (λ r c e. h r c (ground (arith, e))),
  live_full g g' s (suc j) n o.1 (λ r c e. h r c (ground (arith, e))),
)
  where
    look_full :
        (z w : ℤ) {x : CellState}
        → networkprogramming_battl.Board.read g z w ≡ some x
        → ((r c : ℕ) → (int_eq z (pos r) && int_eq w (pos c)) ≡ true → g' r c ≡ cell_ship)
        → look g' z w ≡ cell_ship
    look_full (pos a) (pos b) e k = k a b (ground (arith, int_eq_refl (pos a), int_eq_refl (pos b)))
    look_full (pos a) (negsuc b) e k = absurd (ground arith)
    look_full (negsuc a) w e k = absurd (ground arith)

Disjoint-snoc :
    (ss : List Ship) (t : Ship) → Disjoint ss → All (λ s. Apart s t) ss → Disjoint (ss ++ t ∷ [])
Disjoint-snoc [] t d a = (tt, tt)
Disjoint-snoc (s ∷ ss) t d a =
    (All-append (Apart s) ss (t ∷ []) d.0 (a.0, tt), Disjoint-snoc ss t d.1 a.1)

owned-snoc :
    (ss : List Ship) (t : Ship) (r c : ℕ)
    → owned (ss ++ t ∷ []) r c ≡ (owned ss r c || covers t (point r c) 0 t.length)
owned-snoc [] t r c = ground arith
owned-snoc (s ∷ ss) t r c = ground (arith, owned-snoc ss t r c)

pub sunk_count-snoc :
    (ss : List Ship) (t : Ship)
    → sunk_count (ss ++ t ∷ []) ≡ sunk_count ss + (if t.is_sunk then 1 else 0)
sunk_count-snoc [] t = omega arith
sunk_count-snoc (s ∷ ss) t = omega (arith, sunk_count-snoc ss t)

module _ (g g' : Grid) (t : Ship) (f : Fits g t 0 t.length) (m : Marks g t 0 t.length g') where
  -- A ship that is drawn on the grid has no cell among the empty ones.
  drawn-Apart : (s : Ship) → IsAfloat g s → Apart s t
  drawn-Apart s a r c e = elim (Bool-cases (covers t (point r c) 0 t.length)) [
    | inr h ↦ h
    | inl h ↦
        ground (arith, marked-covers g r c s 0 s.length a.drawn, Fits-covers g t r c 0 t.length f)
  ]

  drawn-IsAfloat : (s : Ship) → IsAfloat g s → IsAfloat g' s
  drawn-IsAfloat s a =
      ground (
        arith,
        live_agree g g' s 0 s.length (λ r c e. ground (arith, m r c, drawn-Apart s a r c e)),
      )

  drawn-All :
      (ss : List Ship) → All (IsAfloat g) ss → All (IsAfloat g') ss × All (λ s. Apart s t) ss
  drawn-All [] a = (tt, tt)
  drawn-All (s ∷ ss) a =
      let (x, y) = drawn-All ss a.1 in ((drawn-IsAfloat s a.0, x), (drawn-Apart s a.0, y))

  pub place-IsFleet : (ss : List Ship) → IsAfloat g' t → IsFleet g ss → IsFleet g' (ss ++ t ∷ [])
  place-IsFleet ss new v = record {
    afloat = All-append (IsAfloat g') ss (t ∷ []) (drawn-All ss v.afloat).0 (new, tt);
    disjoint = Disjoint-snoc ss t v.disjoint (drawn-All ss v.afloat).1;
    aboard = λ r c o. ground (
      arith,
      owned-snoc ss t r c,
      v.aboard r c,
      OnBoard-covers g t r c 0 t.length (Fits-OnBoard g t 0 t.length f),
    );
    manned = λ r c i e. ground (arith, m r c, owned-snoc ss t r c, v.manned r c i, e);
  }

pub new-IsAfloat :
    (g g' : Grid) (type : ℕ) (p : Coordinate) (o : ℕ)
    → o ≤ 1
    → type < 5
    → OnBoard g (new_ship type p o) 0 (get_ship_length type)
    → Marks g (new_ship type p o) 0 (get_ship_length type) g'
    → IsAfloat g' (new_ship type p o)
new-IsAfloat g g' type p o h k b m = ground (
  arith,
  live_full g g' (new_ship type p o) 0 (get_ship_length type) b (λ r c e. ground (arith, m r c, e)),
)
