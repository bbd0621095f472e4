-- ===== src/Planner/Clicks.antt =====
-- A click on the board: the ship that comes next, and the click after the fifth ship.
use networkprogramming_battl.Base.{
  ℕ, suc, ◌+◌, Option-cases, ℤ, inl, inr, Bool, true, false, ◌⊎◌, ◌≡◌, refl, sym, ap, ◌∙◌, subst,
  none, some, List, [], ◌∷◌, get_elem?, replicate, length, zero-add, arith,
}
use networkprogramming_battl.Protocol.{Coordinate}
use networkprogramming_battl.Placements.{to_int8}
use networkprogramming_battl.Board.{
  Board, Draws, num_ships, is_valid_placement, put_ship, place_ship,
}
use networkprogramming_battl.Board.Fleet.{IsValid}
use networkprogramming_battl.Board.Placement.{put_ship-room}
use networkprogramming_battl.Board.Random.{random_placement-IsValid}
use networkprogramming_battl.Planner.{
  Planner, set_placed, next_unplaced, all_placed, all_ships_placed, place_ship_at,
  random_place_all_ships,
}

no_slot : {A : Type 0} (spare : List A) (n : ℕ) → n + length spare ≡ n → spare ≡ []
no_slot [] n e = refl
no_slot (x ∷ xs) n e = absurd (omega (arith, e))

-- On a valid board that has its five ships, a click where the selected ship fits writes a sixth ship
-- behind the array.
pub sixth_ship :
    (p : Planner) (row col : ℤ)
    → IsValid p.player_board
    → length p.player_board.ships ≡ num_ships
    → is_valid_placement p.player_board p.selected_ship_type
        (record { row = to_int8 row; col = to_int8 col })
        p.current_orientation
      ≡ some true
    → place_ship_at p row col ≡ none
unfolding place_ship_at place_ship
sixth_ship p row col v full fits =
    let spare = no_slot p.player_board.spare (length p.player_board.ships) (v.slots ∙ sym full) in
    let target : Coordinate = record { row = to_int8 row; col = to_int8 col } in
    elim (Option-cases
      (put_ship p.player_board p.selected_ship_type target p.current_orientation)) [
        | inl n ↦ rw (place_ship_at, place_ship, fits, n) refl
        | inr (r, n) ↦ absurd (
            omega (
              arith,
              put_ship-room p.player_board p.selected_ship_type target p.current_orientation {r = r}
                  n,
              ap length spare,
            ))
      ]

next_unplaced_free :
    (i : ℕ) (flags : List Bool) (selected : ℕ)
    → (all_placed flags ≡ true)
      ⊎ ((k : ℕ) × (next_unplaced i flags selected ≡ i + k) × (get_elem? flags k ≡ some false))
unfolding next_unplaced all_placed
next_unplaced_free i [] selected = inl refl
next_unplaced_free i (false ∷ xs) selected = inr (0, omega arith, refl)
next_unplaced_free i (true ∷ xs) selected = elim (next_unplaced_free (i + 1) xs selected) [
  | inl all ↦ inl all
  | inr (k, e, f) ↦ inr (suc k, omega (arith, e), f)
]

-- After a click that places a ship, the ship that is selected is one that is not placed, unless all
-- are.
pub next_ship :
    (p : Planner) (row col : ℤ) (b : Board)
    → place_ship p.player_board p.selected_ship_type
        (record { row = to_int8 row; col = to_int8 col })
        p.current_orientation
      ≡ some (b, true)
    → (p' : Planner) × (place_ship_at p row col ≡ some p')
      × ((all_ships_placed p' ≡ true)
          ⊎ (get_elem? p'.ships_placed p'.selected_ship_type ≡ some false))
unfolding place_ship_at all_ships_placed
next_ship p row col b e =
    let placed = set_placed p.selected_ship_type true p.ships_placed in
    (
      record p {
        player_board = b;
        ships_placed = placed;
        selected_ship_type = next_unplaced 0 placed p.selected_ship_type;
      },
      rw (place_ship_at, e) refl,
      elim (next_unplaced_free 0 placed p.selected_ship_type) [
        | inl all ↦ inl all
        | inr (k, n, f) ↦
            inr (subst (λ j. get_elem? placed j ≡ some false) (sym (n ∙ zero-add k)) f)
      ],
    )

-- Whatever is drawn, the random placement gives a valid board, and all ships count as placed.
pub random_ready :
    (p : Planner) (rand : Draws)
    → (p' : Planner) × (random_place_all_ships p rand ≡ some p')
      × IsValid p'.player_board
      × (all_ships_placed p' ≡ true)
unfolding random_place_all_ships all_ships_placed all_placed
random_ready p rand =
    let r = random_placement-IsValid rand p.player_board in
    (
      record p { player_board = r.0; ships_placed = replicate num_ships true },
      rw (random_place_all_ships, r.2) refl,
      r.3,
      refl,
    )
