-- ===== src/Board/Shots.antt =====
-- What `processShot` does to a valid board.
use networkprogramming_battl.Base.{
  ℕ, zero, suc, ◌+◌, ◌≤◌, ◌<◌, if◌then◌else◌, ℤ, pos, negsuc, true, false, ◌≡◌, refl, sym, ◌∙◌,
  List, [], ◌∷◌, length, All, inl, inr, Bool-cases, arith, ℤ,
}
use networkprogramming_battl.Protocol.{Coordinate, Ship}
use networkprogramming_battl.Board.{
  Board, Grid, CellState, cell_empty, cell_ship, cell_miss, cell_hit, cell_sunk, covers, strike,
  strike_fleet, update, inside, shoot_cell, shoot_at, process_shot,
}
use networkprogramming_battl.Board.Cells.{
  live, marked, point, live-update_off, live-update_hit, marked-update_off, marked-update,
  marked-covers, live-covers,
}
use networkprogramming_battl.Board.Fleet.{IsAfloat, Apart, Disjoint, sunk_count, owned, IsValid}

-- `strike` moves no ship.
pub covers-strike : (s : Ship) (p : Coordinate) (j n : ℕ) → covers (strike s) p j n ≡ covers s p j n
unfolding covers
covers-strike s p j zero = refl
covers-strike s p j (suc n) = rw (covers-strike s p (suc j) n)

live-strike : (g : Grid) (s : Ship) (j n : ℕ) → live g (strike s) j n ≡ live g s j n
unfolding live
live-strike g s j zero = refl
live-strike g s j (suc n) = rw (live-strike g s (suc j) n)

marked-strike : (g : Grid) (s : Ship) (j n : ℕ) → marked g (strike s) j n ≡ marked g s j n
unfolding marked
marked-strike g s j zero = refl
marked-strike g s j (suc n) = rw (marked-strike g s (suc j) n)

abbrev Off : ℕ → ℕ → Ship → Type 0
Off r c s = covers s (point r c) 0 s.length ≡ false

module _ (g : Grid) (r c : ℕ) where
  update-IsAfloat :
      (v : CellState) (s : Ship) → Off r c s → IsAfloat g s → IsAfloat (update g r c v) s
  update-IsAfloat v s o a =
      ground
        (arith, live-update_off g r c v s 0 s.length o, marked-update_off g r c v s 0 s.length o)

  update-All :
      (v : CellState) (ss : List Ship)
      → All (Off r c) ss
      → All (IsAfloat g) ss
      → All (IsAfloat (update g r c v)) ss
  update-All v [] o a = tt
  update-All v (s ∷ ss) o a = (update-IsAfloat v s o.0 a.0, update-All v ss o.1 a.1)

  Apart-Off :
      (s : Ship) (ss : List Ship)
      → covers s (point r c) 0 s.length ≡ true
      → All (Apart s) ss
      → All (Off r c) ss
  Apart-Off s [] e a = tt
  Apart-Off s (t ∷ ss) e a = (a.0 r c e, Apart-Off s ss e a.1)

  module _ (e : g r c ≡ cell_ship) where
    hits-lt : (s : Ship) → covers s (point r c) 0 s.length ≡ true → IsAfloat g s → s.hits < s.length
    hits-lt s h a = omega (arith, a.counted, live-covers g r c s 0 s.length e h)

    strike-IsAfloat :
        (s : Ship)
        → covers s (point r c) 0 s.length ≡ true
        → IsAfloat g s
        → IsAfloat (update g r c cell_hit) (strike s)
    strike-IsAfloat s h a = record {
      straight = a.straight;
      small = a.small;
      solid = a.solid;
      counted = omega (
        arith,
        a.counted,
        a.small,
        hits-lt s h a,
        live-strike (update g r c cell_hit) s 0 s.length,
        live-update_hit g r c s 0 s.length a.straight e h,
      );
      drawn =
          marked-strike (update g r c cell_hit) s 0 s.length
          ∙ marked-update g r c cell_hit s 0 s.length refl a.drawn;
      flagged = ground (arith, a.flagged, hits-lt s h a);
    }

    strike_fleet-All :
        (ss : List Ship)
        → All (IsAfloat g) ss
        → Disjoint ss
        → All (IsAfloat (update g r c cell_hit)) (strike_fleet ss (point r c)).0
    unfolding strike_fleet
    strike_fleet-All [] a d = tt
    strike_fleet-All (s ∷ ss) a d = elim (Bool-cases (covers s (point r c) 0 s.length)) [
      | inl h ↦ rw h (strike-IsAfloat s h a.0, update-All cell_hit ss (Apart-Off s ss h d.0) a.1)
      | inr h ↦ rw h (update-IsAfloat cell_hit s h a.0, strike_fleet-All ss a.1 d.1)
    ]

    -- The flag of `strike_fleet` tells whether one more ship has sunk.
    pub sunk_count-strike_fleet :
        (ss : List Ship)
        → All (IsAfloat g) ss
        → sunk_count (strike_fleet ss (point r c)).0
          ≡ (if (strike_fleet ss (point r c)).1 then 1 else 0) + sunk_count ss
    unfolding strike_fleet
    sunk_count-strike_fleet [] a = refl
    sunk_count-strike_fleet (s ∷ ss) a = elim (Bool-cases (covers s (point r c) 0 s.length)) [
      | inl h ↦ rw h (ground (arith, a.0.flagged, hits-lt s h a.0))
      | inr h ↦ rw h (omega (arith, sunk_count-strike_fleet ss a.1))
    ]

module _ (p : Coordinate) where
  pub length-strike_fleet : (ss : List Ship) → length (strike_fleet ss p).0 ≡ length ss
  unfolding strike_fleet
  length-strike_fleet [] = refl
  length-strike_fleet (s ∷ ss) = ground (arith, length-strike_fleet ss)

  pub owned-strike_fleet :
      (ss : List Ship) (r c : ℕ) → owned (strike_fleet ss p).0 r c ≡ owned ss r c
  unfolding strike_fleet
  owned-strike_fleet [] r c = refl
  owned-strike_fleet (s ∷ ss) r c =
      ground (arith, covers-strike s (point r c) 0 s.length, owned-strike_fleet ss r c)

  Apart-strike_fleet :
      (s : Ship) (ss : List Ship) → All (Apart s) ss → All (Apart s) (strike_fleet ss p).0
  unfolding strike_fleet
  Apart-strike_fleet s [] a = tt
  Apart-strike_fleet s (t ∷ ss) a = elim (Bool-cases (covers t p 0 t.length)) [
    | inl h ↦ rw h (λ r c e. covers-strike t (point r c) 0 t.length ∙ a.0 r c e, a.1)
    | inr h ↦ rw h (a.0, Apart-strike_fleet s ss a.1)
  ]

  Apart-strike : (s : Ship) (ss : List Ship) → All (Apart s) ss → All (Apart (strike s)) ss
  Apart-strike s [] a = tt
  Apart-strike s (t ∷ ss) a =
      (λ r c e. a.0 r c (sym (covers-strike s (point r c) 0 s.length) ∙ e), Apart-strike s ss a.1)

  Disjoint-strike_fleet : (ss : List Ship) → Disjoint ss → Disjoint (strike_fleet ss p).0
  unfolding strike_fleet
  Disjoint-strike_fleet [] d = tt
  Disjoint-strike_fleet (s ∷ ss) d = elim (Bool-cases (covers s p 0 s.length)) [
    | inl h ↦ rw h (Apart-strike s ss d.0, d.1)
    | inr h ↦ rw h (Apart-strike_fleet s ss d.0, Disjoint-strike_fleet ss d.1)
  ]

sunk_count-le : (ss : List Ship) → sunk_count ss ≤ length ss
sunk_count-le [] = omega arith
sunk_count-le (s ∷ ss) = ground (arith, sunk_count-le ss)

-- An empty cell belongs to no ship.
empty-Off :
    (g : Grid) (r c : ℕ) (ss : List Ship)
    → g r c ≡ cell_empty
    → All (IsAfloat g) ss
    → All (Off r c) ss
empty-Off g r c [] e a = tt
empty-Off g r c (s ∷ ss) e a =
    (ground (arith, marked-covers g r c s 0 s.length a.0.drawn), empty-Off g r c ss e a.1)

manned-update :
    (g : Grid) (r c : ℕ) (v : CellState) (ss : List Ship) (r' c' : ℕ)
    → (v ≡ cell_ship → ⊥)
    → ((a b : ℕ) → inside a b ≡ true → g a b ≡ cell_ship → owned ss a b ≡ true)
    → inside r' c' ≡ true
    → update g r c v r' c' ≡ cell_ship
    → owned ss r' c' ≡ true
manned-update g r c v ss r' c' n m i e = ground (arith, m r' c' i, n)

module _ (b : Board) (v : IsValid b) (r c : ℕ) where
  shot_ship-IsValid : b.grid r c ≡ cell_ship → IsValid (shoot_cell b r c cell_ship).0
  unfolding shoot_cell
  shot_ship-IsValid e = record {
    fleet = record {
      afloat = strike_fleet-All b.grid r c e b.ships v.fleet.afloat v.fleet.disjoint;
      disjoint = Disjoint-strike_fleet (point r c) b.ships v.fleet.disjoint;
      aboard =
          λ r' c' o. v.fleet.aboard r' c' (sym (owned-strike_fleet (point r c) b.ships r' c') ∙ o);
      manned = λ r' c' i k.
          owned-strike_fleet (point r c) b.ships r' c'
          ∙ manned-update b.grid r c cell_hit b.ships r' c' (λ x. cc) v.fleet.manned i k;
    };
    slots = omega (arith, v.slots, length-strike_fleet (point r c) b.ships);
    remaining = ground (
      arith,
      v.remaining,
      sunk_count-strike_fleet b.grid r c e b.ships v.fleet.afloat,
      sunk_count-le (strike_fleet b.ships (point r c)).0,
      length-strike_fleet (point r c) b.ships,
      v.slots,
    );
  }

  shot_empty-IsValid : b.grid r c ≡ cell_empty → IsValid (shoot_cell b r c cell_empty).0
  unfolding shoot_cell
  shot_empty-IsValid e = record {
    fleet = record {
      afloat =
          update-All b.grid r c cell_miss b.ships (empty-Off b.grid r c b.ships e v.fleet.afloat)
            v.fleet.afloat;
      disjoint = v.fleet.disjoint;
      aboard = v.fleet.aboard;
      manned = λ r' c' i k.
          manned-update b.grid r c cell_miss b.ships r' c' (λ x. cc) v.fleet.manned i k;
    };
    slots = v.slots;
    remaining = v.remaining;
  }

  shoot_cell-IsValid : (s : CellState) → b.grid r c ≡ s → IsValid (shoot_cell b r c s).0
  unfolding shoot_cell
  shoot_cell-IsValid cell_ship e = shot_ship-IsValid e
  shoot_cell-IsValid cell_empty e = shot_empty-IsValid e
  shoot_cell-IsValid cell_miss e = v
  shoot_cell-IsValid cell_hit e = v
  shoot_cell-IsValid cell_sunk e = v

shoot_at-IsValid : (b : Board) (z w : ℤ) → IsValid b → IsValid (shoot_at b z w).0
unfolding shoot_at
shoot_at-IsValid b (pos r) (pos c) v = elim (Bool-cases (inside r c)) [
  | inl i ↦ rw i (shoot_cell-IsValid b v r c (b.grid r c) refl)
  | inr o ↦ rw o v
]
shoot_at-IsValid b (pos r) (negsuc c) v = v
shoot_at-IsValid b (negsuc r) w v = v

-- Any shot, inside or outside the board, at any cell, keeps a valid board valid.
pub process_shot-IsValid : (b : Board) (p : Coordinate) → IsValid b → IsValid (process_shot b p).0
unfolding process_shot
process_shot-IsValid b p v = shoot_at-IsValid b p.row p.col v
