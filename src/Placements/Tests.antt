-- ===== src/Placements/Tests.antt =====
-- The theorems on placements at concrete ships, and the text of a placement read back.
use networkprogramming_battl.Base.{ℕ, pos, true, false, ◌≡◌, refl, List, [], ◌∷◌, All, ◌<◌, arith}
use networkprogramming_battl.Protocol.{Ship, horizontal}
use networkprogramming_battl.Board.{new_board, clear_board}
use networkprogramming_battl.Placements.{validate_ship_placement, ship_data, load_ships}
use networkprogramming_battl.Placements.Stored.{IsStored, place_each, load_ships-ship_data}
use networkprogramming_battl.Placements.Validated.{IsPlaced, validate-IsPlaced, validate_pile, pile}

abbrev at_row : ℕ → ℕ → ℕ → Ship
at_row row type n = record {
  type = type;
  orientation = horizontal;
  position = record { row = pos row; col = pos 0 };
  length = n;
  hits = 0;
  is_sunk = false;
}

-- One ship on each of the first five rows.
abbrev rows : List Ship
rows = at_row 0 0 5 ∷ at_row 1 1 4 ∷ at_row 2 2 3 ∷ at_row 3 3 3 ∷ at_row 4 4 2 ∷ []

validate-IsPlaced_test : All IsPlaced rows
unfolding validate_ship_placement
validate-IsPlaced_test = validate-IsPlaced rows refl refl

validate_pile_test : validate_ship_placement (pile 0 0 7) ≡ true
validate_pile_test = validate_pile 0 0 7 (omega arith) (omega arith)

at_row-IsStored : (row type n : ℕ) → type < 5 → row < 10 → IsStored (at_row row type n)
at_row-IsStored row type n h k = record {
  type = omega (arith, h);
  orientation = omega arith;
  row = ground (arith, k);
  col = refl;
}

load_ships-ship_data_example :
    load_ships new_board (ship_data (at_row 1 1 4 ∷ at_row 4 4 2 ∷ []))
    ≡ place_each (clear_board new_board) (at_row 1 1 4 ∷ at_row 4 4 2 ∷ [])
load_ships-ship_data_example = load_ships-ship_data new_board (at_row 1 1 4) (at_row 4 4 2 ∷ []) (
  at_row-IsStored 1 1 4 (omega arith) (omega arith),
  (at_row-IsStored 4 4 2 (omega arith) (omega arith), tt),
)
