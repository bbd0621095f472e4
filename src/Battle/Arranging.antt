-- ===== src/Battle/Arranging.antt =====
-- The own board on the placement screen stays valid (client/src/ui_ship_placement.cpp).
use networkprogramming_battl.Base.{
  ℕ, ◌≤◌, ◌<◌, ℤ, Bool, true, false, ◌≡◌, refl, sym, ap, ◌∙◌, subst, Option, none, some, inl, inr,
  Bool-cases, Option-cases, arith,
}
use networkprogramming_battl.Protocol.{Coordinate}
use networkprogramming_battl.Placements.{to_int8}
use networkprogramming_battl.Board.{Board, Draws, place_ship, put_ship, is_valid_placement}
use networkprogramming_battl.Board.Fleet.{IsValid}
use networkprogramming_battl.Board.Placement.{place_ship-IsValid, put_ship-accepts}
use networkprogramming_battl.Board.Random.{random_placement-IsValid}
use networkprogramming_battl.Battle.State.{UiScreen, screen_ship_placement}
use networkprogramming_battl.Planner.{Planner, place_ship_at, random_place_all_ships}

abbrev pub is_placing : UiScreen → Bool
is_placing screen_ship_placement = true
is_placing _ = false

-- Where the selected ship is one of the five, and lies straight.
abbrev pub IsArmed : Planner → Type 0
IsArmed p = (p.selected_ship_type < 5) × (p.current_orientation ≤ 1)

abbrev board_of : Board → Option (Board × Bool) → Board
board_of b none = b
board_of b (some x) = x.0

-- A placement that is refused leaves the board as it was.
place_ship_refused :
    (b b' : Board) (type : ℕ) (p : Coordinate) (o : ℕ)
    → place_ship b type p o ≡ some (b', false)
    → b' ≡ b
unfolding place_ship
place_ship_refused b b' type p o e = elim (Option-cases (is_valid_placement b type p o)) [
  | inl n ↦ absurd (ground (arith, e, n))
  | inr (ok, n) ↦ elim (Bool-cases ok) [
    | inr bad ↦
        let refused : place_ship b type p o ≡ some (b, false) = rw (place_ship, n, bad) refl in
        ap (board_of b) (sym e ∙ refused)
    | inl good ↦
        let put : place_ship b type p o ≡ put_ship b type p o = rw (place_ship, n, good) refl in
        absurd (ground (arith, put_ship-accepts b type p o {r = (b', false)} (sym put ∙ e)))
  ]
]

some_injective : {p q : Planner} → some p ≡ some q → p ≡ q
some_injective {p} e = ap (λ o. elim o [ none ↦ p | some x ↦ x ]) e

-- The board that a click leaves is that of the placement.
placed_board :
    (p p' : Planner) (row col : ℤ) (b : Board) (ok : Bool)
    → place_ship p.player_board p.selected_ship_type
        (record { row = to_int8 row; col = to_int8 col })
        p.current_orientation
      ≡ some (b, ok)
    → place_ship_at p row col ≡ some p'
    → b ≡ p'.player_board
unfolding place_ship_at
placed_board p p' row col b true n e = ground (arith, n, e)
placed_board p p' row col b false n e = ground (arith, n, e)

-- A click that places a ship, or fails to, keeps a valid board valid.
pub place_ship_at-IsValid :
    (p p' : Planner) (row col : ℤ)
    → IsArmed p
    → IsValid p.player_board
    → place_ship_at p row col ≡ some p'
    → IsValid p'.player_board
unfolding place_ship_at
place_ship_at-IsValid p p' row col armed v e =
    let target : Coordinate = record { row = to_int8 row; col = to_int8 col } in
    elim (Option-cases
      (place_ship p.player_board p.selected_ship_type target p.current_orientation)) [
        | inl n ↦ absurd (ground (arith, e, n))
        | inr ((b, ok), n) ↦ elim (Bool-cases ok) [
          | inl good ↦ subst IsValid (placed_board p p' row col b ok n e) (
              place_ship-IsValid p.player_board b p.selected_ship_type target p.current_orientation
                v armed.1 armed.0 (n ∙ ap (λ x. some (b, x)) good))
          | inr bad ↦
              subst IsValid
                (sym (
                    place_ship_refused p.player_board b p.selected_ship_type target
                      p.current_orientation (n ∙ ap (λ x. some (b, x)) bad))
                  ∙ placed_board p p' row col b ok n e)
                v
        ]
      ]

-- The button RANDOM gives a valid board.
pub random_place_all_ships-IsValid :
    (p p' : Planner) (rand : Draws)
    → random_place_all_ships p rand ≡ some p'
    → IsValid p'.player_board
unfolding random_place_all_ships
random_place_all_ships-IsValid p p' rand e =
    let (b, k, n, v) = random_placement-IsValid rand p.player_board in
    subst IsValid (ground (arith, n, e)) v
