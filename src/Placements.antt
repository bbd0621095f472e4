-- ===== src/Placements.antt =====
-- validateShipPlacement, the text of a placement and loadShips (server/src/gameplay_handler.cpp).
-- Bytes print as at most three digits, which is what std::to_string does with them. std::stoi fails
-- (`none`) without a digit; that it also throws above 2^31 is not modelled, as no byte prints so.
pub mod Validated
pub mod Stored
mod Tests
use networkprogramming_battl.Base.{
  ℕ, zero, suc, ◌+◌, ◌-◌, ◌*◌, ◌/◌, ◌%◌, ◌^◌, ltb, leb, ◌==◌, if◌then◌else◌, ℤ, pos, negsuc, shift,
  is_neg, int_ge, int_gt, Bool, true, false, not, ◌&&◌, ◌||◌, Option, none, some, List, [], ◌∷◌,
  ◌++◌,
}
use networkprogramming_battl.Protocol.{
  Coordinate, Ship, carrier, battleship, cruiser, submarine, destroyer, horizontal, get_ship_length,
}
use networkprogramming_battl.Board.{Board, board_size, clear_board, place_ship}

-- ship_count and the five flags of validateShipPlacement
pub record Tally : Type 0 where
  pub ship_count : ℕ
  pub has_carrier : Bool
  pub has_battleship : Bool
  pub has_cruiser : Bool
  pub has_submarine : Bool
  pub has_destroyer : Bool

abbrev pub no_ships : Tally
no_ships = record {
  ship_count = 0;
  has_carrier = false;
  has_battleship = false;
  has_cruiser = false;
  has_submarine = false;
  has_destroyer = false;
}

-- the switch on the type; `none` is its default
abbrev pub count_ship : Tally → ℕ → Option Tally
count_ship t type =
    let t' : Tally = record t { ship_count = t.ship_count + 1 } in
    if type == carrier
    then some (record t' { has_carrier = true })
    else if type == battleship
    then some (record t' { has_battleship = true })
    else if type == cruiser
    then some (record t' { has_cruiser = true })
    else if type == submarine
    then some (record t' { has_submarine = true })
    else if type == destroyer
    then some (record t' { has_destroyer = true })
    else none

-- the checks of one ship that follow the switch
abbrev pub is_placed : Ship → Bool
is_placed s =
    s.length == get_ship_length s.type
    && (not (
          is_neg s.position.row
          || int_ge s.position.row board_size
          || is_neg s.position.col
          || int_ge s.position.col board_size)
        && not (
            if s.orientation == horizontal
            then int_gt (shift s.position.col s.length) board_size
            else int_gt (shift s.position.row s.length) board_size))

-- the loop of validateShipPlacement; `none` is a return of false
pub tally_ships : Tally → List Ship → Option Tally
tally_ships t [] = some t
tally_ships t (s ∷ ss) =
    let next = λ (u : Tally). tally_ships u ss in
    if ltb 0 s.length
    then elim (count_ship t s.type) [ none ↦ none | some u ↦ if is_placed s then next u else none ]
    else next t

abbrev pub is_complete : Tally → Bool
is_complete t =
    t.ship_count == 5
    && (t.has_carrier
        && (t.has_battleship && (t.has_cruiser && (t.has_submarine && t.has_destroyer))))

unfoldable pub validate_ship_placement : List Ship → Bool
unfolding tally_ships
validate_ship_placement ships = elim (tally_ships no_ships ships) [
  | none ↦ false
  | some t ↦ is_complete t
]

abbrev pub digit : ℕ → ℕ
digit n = b'0' + n % 10

-- std::to_string of a byte
abbrev pub print_byte : ℕ → List ℕ
print_byte n =
    if ltb n 10
    then digit n ∷ []
    else if ltb n 100
    then digit (n / 10) ∷ digit n ∷ []
    else digit (n / 100) ∷ digit (n / 10) ∷ digit n ∷ []

-- std::to_string of a signed byte
abbrev pub print_int : ℤ → List ℕ
print_int (pos n) = print_byte n
print_int (negsuc n) = b'-' ∷ print_byte (n + 1)

abbrev pub print_ship : Ship → List ℕ → List ℕ
print_ship s rest =
    print_byte s.type
    ++ (b','
        ∷ (print_byte s.orientation
            ++ (b','
                ∷ (print_int s.position.row
                    ++ (b',' ∷ (print_int s.position.col ++ (b';' ∷ rest)))))))

-- the loop of handleShipPlacement that makes `ship_data`
unfoldable pub ship_data : List Ship → List ℕ
ship_data [] = []
ship_data (s ∷ ss) = print_ship s (ship_data ss)

abbrev pub attach : ℕ → List (List ℕ) → List (List ℕ)
attach b [] = (b ∷ []) ∷ []
attach b (t ∷ ts) = (b ∷ t) ∷ ts

-- the tokens that std::getline reads one after the other
unfoldable pub split : ℕ → List ℕ → List (List ℕ)
split d [] = []
split d (b ∷ s) = if b == d then [] ∷ split d s else attach b (split d s)

abbrev pub is_digit : ℕ → Bool
is_digit b = leb b'0' b && leb b b'9'

unfoldable pub read_digits : ℕ → List ℕ → ℕ
read_digits acc [] = acc
read_digits acc (b ∷ s) = if is_digit b then read_digits (acc * 10 + (b - b'0')) s else acc

abbrev pub read_number : List ℕ → Option ℕ
read_number [] = none
read_number (b ∷ s) = if is_digit b then some (read_digits 0 (b ∷ s)) else none

abbrev pub negate : ℕ → ℤ
negate zero = pos 0
negate (suc n) = negsuc n

-- std::stoi of a field
abbrev pub stoi : List ℕ → Option ℤ
stoi [] = none
stoi (b ∷ s) =
    if b == b'-'
    then elim (read_number s) [ none ↦ none | some n ↦ some (negate n) ]
    else elim (read_number (b ∷ s)) [ none ↦ none | some n ↦ some (pos n) ]

-- a number of the enums, which a cast leaves as it is
abbrev pub enum_of : ℤ → ℕ
enum_of (pos n) = n
enum_of (negsuc n) = 2 ^ 32 - suc n

-- an int stored in an int8_t
abbrev pub to_int8 : ℤ → ℤ
to_int8 (pos n) = if ltb (n % 256) 128 then pos (n % 256) else negsuc (255 - n % 256)
to_int8 (negsuc n) = if ltb (n % 256) 128 then negsuc (n % 256) else pos (255 - n % 256)

-- placeShip with the numbers that were read; its answer is ignored
abbrev pub place_read : Board → ℤ → ℤ → ℤ → ℤ → Option Board
place_read b type orientation row col =
    elim (place_ship b (enum_of type) (record { row = to_int8 row; col = to_int8 col })
      (enum_of orientation)) [ none ↦ none | some (b', _) ↦ some b' ]

-- a field that is read before the `continue`
abbrev pub partial {ℓ} : {A : Type ℓ} → Option ℤ → Option A → Option A
partial none r = none
partial (some _) r = r

-- the numbers of the four fields; `some none` is a `continue`, `none` an exception
abbrev pub read_fields : List (List ℕ) → Option (Option (ℤ × ℤ × ℤ × ℤ))
read_fields (t ∷ o ∷ r ∷ c ∷ _) = elim (stoi t) [
  | none ↦ none
  | some type ↦ elim (stoi o) [
    | none ↦ none
    | some orientation ↦ elim (stoi r) [
      | none ↦ none
      | some row ↦ elim (stoi c) [
        | none ↦ none
        | some col ↦ some (some (type, orientation, row, col))
      ]
    ]
  ]
]
read_fields (t ∷ o ∷ r ∷ []) = partial (stoi t) (partial (stoi o) (partial (stoi r) (some none)))
read_fields (t ∷ o ∷ []) = partial (stoi t) (partial (stoi o) (some none))
read_fields (t ∷ []) = partial (stoi t) (some none)
read_fields [] = some none

-- the body of the loop of loadShips
pub load_token : Board → List ℕ → Option Board
load_token b [] = some b
load_token b (x ∷ token) = elim (read_fields (split b',' (x ∷ token))) [
  | none ↦ none
  | some none ↦ some b
  | some (some (type, orientation, row, col)) ↦ place_read b type orientation row col
]

pub load_tokens : Board → List (List ℕ) → Option Board
load_tokens b [] = some b
load_tokens b (t ∷ ts) = elim (load_token b t) [ none ↦ none | some b' ↦ load_tokens b' ts ]

-- the lambda loadShips
unfoldable pub load_ships : Board → List ℕ → Option Board
load_ships b [] = some b
load_ships b (x ∷ text) = load_tokens (clear_board b) (split b';' (x ∷ text))
