-- ===== src/Placements/Validated.antt =====
-- What a placement that passes validateShipPlacement is, and is not.
use networkprogramming_battl.Base.{
  ℕ, ◌+◌, ◌≤◌, ◌<◌, ltb, ◌==◌, if◌then◌else◌, pos, shift, is_neg, int_ge, int_gt, true, false, ◌≡◌,
  some, List, [], ◌∷◌, All, length, Option-cases, Bool-cases, inl, inr, arith,
}
use networkprogramming_battl.Protocol.{Ship, horizontal, get_ship_length}
use networkprogramming_battl.Board.{board_size}
use networkprogramming_battl.Placements.{
  Tally, no_ships, count_ship, is_placed, tally_ships, validate_ship_placement,
}

-- The ship has the length of its type, starts on the board, and ends on it: a ship that is not
-- horizontal is taken for a vertical one.
pub record IsPlaced (s : Ship) : Type 0 where
  pub known : s.type < 5
  pub sized : s.length ≡ get_ship_length s.type
  pub row_inside : (is_neg s.position.row ≡ false) × (int_ge s.position.row board_size ≡ false)
  pub col_inside : (is_neg s.position.col ≡ false) × (int_ge s.position.col board_size ≡ false)
  pub ends_inside :
      (if s.orientation == horizontal
        then int_gt (shift s.position.col s.length) board_size
        else int_gt (shift s.position.row s.length) board_size)
      ≡ false

module _ (t u : Tally) (s : Ship) (ss : List Ship) (e : tally_ships t (s ∷ ss) ≡ some u) where
  -- A ship without length is passed over.
  tally_skip : ltb 0 s.length ≡ false → tally_ships t ss ≡ some u
  unfolding tally_ships
  tally_skip h = ground (arith, e, h)

  -- Any other ship has passed its checks and is counted.
  tally_count :
      ltb 0 s.length ≡ true
      → (t' : Tally) × (count_ship t s.type ≡ some t')
        × (is_placed s ≡ true)
        × (tally_ships t' ss ≡ some u)
  unfolding tally_ships
  tally_count h = elim (Option-cases (count_ship t s.type)) [
    | inl n ↦ absurd (ground (arith, e, h, n))
    | inr (t', n) ↦ (t', n, ground (arith, e, h, n), ground (arith, e, h, n))
  ]

count_ship_adds :
    (t t' : Tally) (type : ℕ)
    → count_ship t type ≡ some t'
    → (t'.ship_count ≡ t.ship_count + 1) × (type < 5)
count_ship_adds t t' type e = ground (arith, e)

is_placed-IsPlaced : (s : Ship) → s.type < 5 → is_placed s ≡ true → IsPlaced s
is_placed-IsPlaced s k e = ground (arith, e)

tally-le :
    (t u : Tally) (ss : List Ship)
    → tally_ships t ss ≡ some u
    → u.ship_count ≤ t.ship_count + length ss
tally-le t u [] e = unfold tally_ships in ground (arith, e)
tally-le t u (s ∷ ss) e = elim (Bool-cases (ltb 0 s.length)) [
  | inl h ↦
      let (t', n, _, e') = tally_count t u s ss e h in
      omega (arith, tally-le t' u ss e', count_ship_adds t t' s.type n)
  | inr h ↦ omega (arith, tally-le t u ss (tally_skip t u s ss e h))
]

tally-IsPlaced :
    (t u : Tally) (ss : List Ship)
    → tally_ships t ss ≡ some u
    → t.ship_count + length ss ≤ u.ship_count
    → All IsPlaced ss
tally-IsPlaced t u [] e l = tt
tally-IsPlaced t u (s ∷ ss) e l = elim (Bool-cases (ltb 0 s.length)) [
  | inl h ↦
      let (t', n, p, e') = tally_count t u s ss e h in
      let (k, known) = count_ship_adds t t' s.type n in
      (is_placed-IsPlaced s known p, tally-IsPlaced t' u ss e' (omega arith))
  | inr h ↦ absurd (omega (arith, tally-le t u ss (tally_skip t u s ss e h)))
]

-- A placement of five ships that passes has five ships of known types and lengths that start on the
-- board and end on it.
pub validate-IsPlaced :
    (ships : List Ship)
    → length ships ≡ 5
    → validate_ship_placement ships ≡ true
    → All IsPlaced ships
unfolding validate_ship_placement
validate-IsPlaced ships five e = elim (Option-cases (tally_ships no_ships ships)) [
  | inl n ↦ absurd (ground (arith, n))
  | inr (u, n) ↦ tally-IsPlaced no_ships u ships n (ground (arith, n))
]

-- The five ships, all laid on one square in one orientation.
abbrev pub pile : ℕ → ℕ → ℕ → List Ship
pile r c o = ship 0 5 ∷ ship 1 4 ∷ ship 2 3 ∷ ship 3 3 ∷ ship 4 2 ∷ []
  where
    ship : ℕ → ℕ → Ship
    ship type n = record {
      type = type;
      orientation = o;
      position = record { row = pos r; col = pos c };
      length = n;
      hits = 0;
      is_sunk = false;
    }

-- Overlapping ships, and ships whose orientation is no orientation, pass: five ships on one square
-- are accepted wherever the longest one fits, under any orientation byte.
pub validate_pile : (r c o : ℕ) → r ≤ 5 → c ≤ 5 → validate_ship_placement (pile r c o) ≡ true
unfolding validate_ship_placement
validate_pile r c o h k = ground arith
