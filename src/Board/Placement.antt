-- ===== src/Board/Placement.antt =====
-- What `placeShip` does to a valid board.
use networkprogramming_battl.Base.{
  ℕ, suc, ◌≤◌, ◌<◌, Bool, true, ◌≡◌, inl, inr, refl, ap, sym, subst, ◌∙◌, none, some, List, [], ◌∷◌,
  ◌++◌, length, length-append, Bool-cases, Option-cases, arith,
}
use networkprogramming_battl.Protocol.{Coordinate, Ship, get_ship_length}
use networkprogramming_battl.Board.{
  Board, Grid, is_free, mark_ship, add_ship, new_ship, put_ship, place_ship, is_valid_placement,
}
use networkprogramming_battl.Board.Fleet.{IsValid}
use networkprogramming_battl.Board.Drawing.{place-IsFleet, new-IsAfloat, sunk_count-snoc}
use networkprogramming_battl.Board.Marks.{Fits, Fits-OnBoard, is_free-Fits, Marks, mark_ship-Marks}

free_of_valid :
    (b : Board) (type : ℕ) (p : Coordinate) (o : ℕ)
    → is_valid_placement b type p o ≡ some true
    → is_free b.grid p o 0 (get_ship_length type) ≡ some true
unfolding is_valid_placement
free_of_valid b type p o e = ground arith

pub Fits-of_valid :
    (b : Board) (type : ℕ) (p : Coordinate) (o : ℕ)
    → is_valid_placement b type p o ≡ some true
    → Fits b.grid (new_ship type p o) 0 (get_ship_length type)
Fits-of_valid b type p o e =
    is_free-Fits b.grid (new_ship type p o) 0 (get_ship_length type) (free_of_valid b type p o e)

-- The board that a valid placement gives.
pub record Placed (b : Board) (s : Ship) (b' : Board) : Type 0 where
  pub marks : Marks b.grid s 0 s.length b'.grid
  pub fits : Fits b.grid s 0 s.length
  pub ships : b'.ships ≡ b.ships ++ s ∷ []
  pub spare : suc (length b'.spare) ≡ length b.spare
  pub remaining : b'.ships_remaining ≡ b.ships_remaining

add_ship_lem :
    (b : Board) (g : Grid) (xs : List Ship) (s : Ship)
    → 0 < length xs
    → (b' : Board) × (add_ship b g xs s ≡ some b')
      × (b'.grid ≡ g)
      × (b'.ships ≡ b.ships ++ s ∷ [])
      × (suc (length b'.spare) ≡ length xs)
      × (b'.ships_remaining ≡ b.ships_remaining)
add_ship_lem b g [] s h = absurd (omega arith)
add_ship_lem b g (x ∷ xs) s h =
    (record b { grid = g; ships = b.ships ++ s ∷ []; spare = xs }, refl, refl, refl, refl, refl)

pub place_ship-Placed :
    (b : Board) (type : ℕ) (p : Coordinate) (o : ℕ)
    → 0 < length b.spare
    → is_valid_placement b type p o ≡ some true
    → (b' : Board) × (place_ship b type p o ≡ some (b', true)) × Placed b (new_ship type p o) b'
unfolding place_ship
place_ship-Placed b type p o room e =
    let s = new_ship type p o in
    let f = Fits-of_valid b type p o e in
    let (g, eg, m) =
      mark_ship-Marks b.grid s 0 (get_ship_length type)
        (Fits-OnBoard b.grid s 0 (get_ship_length type) f) in
    let (b', eb, e₁, e₂, e₃, e₄) = add_ship_lem b g b.spare s room in
    (
      b',
      rw (e, place_ship, eg, put_ship, eb),
      record {
        marks = λ r c. ground (arith, m r c, e₁);
        fits = f;
        ships = e₂;
        spare = e₃;
        remaining = e₄;
      },
    )

Placed-IsValid :
    (b b' : Board) (type : ℕ) (p : Coordinate) (o : ℕ)
    → o ≤ 1
    → type < 5
    → IsValid b
    → Placed b (new_ship type p o) b'
    → IsValid b'
Placed-IsValid b b' type p o h k v d =
    let s = new_ship type p o in
    let a =
      new-IsAfloat b.grid b'.grid type p o h k
        (Fits-OnBoard b.grid s 0 (get_ship_length type) d.fits) d.marks in
    record {
      fleet = rw d.ships (place-IsFleet b.grid b'.grid s d.fits d.marks b.ships a v.fleet);
      slots = rw d.ships (omega (arith, v.slots, d.spare, length-append b.ships (s ∷ [])));
      remaining =
          d.remaining ∙ v.remaining ∙ rw (d.ships, sunk_count-snoc b.ships s) (ground arith);
    }

add_ship-room :
    (b : Board) (g : Grid) (xs : List Ship) (s : Ship) {b' : Board}
    → add_ship b g xs s ≡ some b'
    → 0 < length xs
add_ship-room b g [] s e = absurd (ground arith)
add_ship-room b g (x ∷ xs) s e = omega arith

pub put_ship-room :
    (b : Board) (type : ℕ) (p : Coordinate) (o : ℕ) {r : Board × Bool}
    → put_ship b type p o ≡ some r
    → 0 < length b.spare
unfolding put_ship
put_ship-room b type p o e = elim (Option-cases (mark_ship b.grid p o 0 (get_ship_length type))) [
  | inl n ↦ absurd (ground (arith, n))
  | inr (g, n) ↦ elim (Option-cases (add_ship b g b.spare (new_ship type p o))) [
    | inl k ↦ absurd (ground (arith, n, k))
    | inr (c, k) ↦ add_ship-room b g b.spare (new_ship type p o) k
  ]
]

-- Behind the check a placement never reports a failure.
pub put_ship-accepts :
    (b : Board) (type : ℕ) (p : Coordinate) (o : ℕ) {r : Board × Bool}
    → put_ship b type p o ≡ some r
    → r.1 ≡ true
unfolding put_ship
put_ship-accepts b type p o {r} e =
    elim (Option-cases (mark_ship b.grid p o 0 (get_ship_length type))) [
      | inl n ↦ absurd (ground (arith, n, e))
      | inr (g, n) ↦ elim (Option-cases (add_ship b g b.spare (new_ship type p o))) [
        | inl k ↦ absurd (ground (arith, n, k, e))
        | inr (c, k) ↦
            let put : put_ship b type p o ≡ some (c, true) = rw (put_ship, n, k) refl in
            ap (λ x. elim x as (λ _. Bool) [ none ↦ true | some z ↦ z.1 ]) (sym e ∙ put)
      ]
    ]

-- A placement reports success after the check, and where a slot is free.
pub accepted :
    (b b' : Board) (type : ℕ) (p : Coordinate) (o : ℕ)
    → place_ship b type p o ≡ some (b', true)
    → (is_valid_placement b type p o ≡ some true) × (0 < length b.spare)
unfolding place_ship
accepted b b' type p o e = elim (Option-cases (is_valid_placement b type p o)) [
  | inl n ↦ absurd (ground (arith, n))
  | inr (x, n) ↦ elim (Bool-cases x) [
    | inl t ↦ (n ∙ ap some t, put_ship-room b type p o {r = (b', true)} (ground (arith, n, t)))
    | inr f ↦ absurd (ground (arith, n, f))
  ]
]

pub accepted-Placed :
    (b b' : Board) (type : ℕ) (p : Coordinate) (o : ℕ)
    → place_ship b type p o ≡ some (b', true)
    → Placed b (new_ship type p o) b'
accepted-Placed b b' type p o e =
    let (n, room) = accepted b b' type p o e in
    let (c, ec, d) = place_ship-Placed b type p o room n in
    subst (Placed b (new_ship type p o)) (ground (arith, ec, e)) d

-- A placement of a known type, straight, that reports success keeps a valid board valid.
pub place_ship-IsValid :
    (b b' : Board) (type : ℕ) (p : Coordinate) (o : ℕ)
    → IsValid b
    → o ≤ 1
    → type < 5
    → place_ship b type p o ≡ some (b', true)
    → IsValid b'
place_ship-IsValid b b' type p o v h k e =
    Placed-IsValid b b' type p o h k v (accepted-Placed b b' type p o e)
