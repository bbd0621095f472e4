-- ===== src/Placements/Stored.antt =====
-- The text that is stored for a fleet gives the fleet back.
use mathlib.Core.List.{append_assoc}
use networkprogramming_battl.Base.{
  ℕ, ◌+◌, ◌/◌, ◌<◌, ltb, ◌==◌, if◌then◌else◌, ℤ, pos, negsuc, Bool, true, false, ◌≡◌, refl, ap, sym,
  ◌∙◌, Option, none, some, List, [], ◌∷◌, ◌++◌, All, inl, inr, Bool-cases, Option-cases, subst,
  arith,
}
use networkprogramming_battl.Protocol.{Coordinate, Ship}
use networkprogramming_battl.Board.{Board, clear_board, place_ship}
use networkprogramming_battl.Placements.{
  digit, print_byte, print_int, print_ship, ship_data, split, read_digits, stoi, to_int8,
  place_read, read_fields, load_token, load_tokens, load_ships,
}

-- The bytes of a ship fit into its struct.
pub record IsStored (s : Ship) : Type 0 where
  pub type : s.type < 256
  pub orientation : s.orientation < 256
  pub row : to_int8 s.position.row ≡ s.position.row
  pub col : to_int8 s.position.col ≡ s.position.col

-- The loader's effect without the text: every ship is placed, and an answer is ignored.
unfoldable pub place_each : Board → List Ship → Option Board
place_each b [] = some b
place_each b (s ∷ ss) = elim (place_ship b s.type s.position s.orientation) [
  | none ↦ none
  | some (b', _) ↦ place_each b' ss
]

abbrev Without : ℕ → List ℕ → Type 0
Without d s = All (λ b. (b == d) ≡ false) s

split-append :
    (d : ℕ) (s rest : List ℕ) → Without d s → split d (s ++ (d ∷ rest)) ≡ s ∷ split d rest
unfolding split
split-append d [] rest h = ground arith
split-append d (b ∷ s) rest h = ground (arith, h.0, split-append d s rest h.1)

split_last : (d b : ℕ) (s : List ℕ) → Without d (b ∷ s) → split d (b ∷ s) ≡ (b ∷ s) ∷ []
unfolding split
split_last d b [] h = ground (arith, h.0)
split_last d b (c ∷ s) h = ground (arith, h.0, split_last d c s h.1)

abbrev is_separator : ℕ → Bool
is_separator d = if d == b';' then true else d == b','

print_byte-Without : (d n : ℕ) → is_separator d ≡ true → Without d (print_byte n)
print_byte-Without d n h = elim (Bool-cases (ltb n 10)) [
  | inl e ↦ rw e (ground (arith, h))
  | inr e ↦ rw e (elim (Bool-cases (ltb n 100)) [
    | inl k ↦ rw k (ground (arith, h))
    | inr k ↦ rw k (ground (arith, h))
  ])
]

stoi-print_byte : (n : ℕ) → n < 1000 → stoi (print_byte n) ≡ some (pos n)
unfolding read_digits
stoi-print_byte n h = ground (arith, h)

print_int-Without : (d : ℕ) (z : ℤ) → is_separator d ≡ true → Without d (print_int z)
print_int-Without d (pos n) h = print_byte-Without d n h
print_int-Without d (negsuc n) h = (ground (arith, h), print_byte-Without d (n + 1) h)

abbrev magnitude : ℤ → ℕ
magnitude (pos n) = n
magnitude (negsuc n) = n + 1

stoi-print_int : (z : ℤ) → magnitude z < 1000 → stoi (print_int z) ≡ some z
unfolding read_digits
stoi-print_int (pos n) h = stoi-print_byte n h
stoi-print_int (negsuc n) h = ground (arith, h)

to_int8_small : (z : ℤ) → to_int8 z ≡ z → magnitude z < 1000
to_int8_small (pos n) h = ground (arith, h)
to_int8_small (negsuc n) h = ground (arith, h)

-- The four numbers of a ship, with their commas.
abbrev fields : Ship → List ℕ
fields s =
    print_byte s.type
    ++ (b','
        ∷ (print_byte s.orientation
            ++ (b',' ∷ (print_int s.position.row ++ (b',' ∷ print_int s.position.col)))))

Without-append : (d : ℕ) (xs ys : List ℕ) → Without d xs → Without d ys → Without d (xs ++ ys)
Without-append d [] ys h k = k
Without-append d (x ∷ xs) ys h k = (h.0, Without-append d xs ys h.1 k)

fields-Without : (s : Ship) → Without b';' (fields s)
fields-Without s = Without-append b';' (print_byte s.type) _ (print_byte-Without b';' s.type refl) (
  refl,
  Without-append b';' (print_byte s.orientation) _ (print_byte-Without b';' s.orientation refl) (
    refl,
    Without-append b';' (print_int s.position.row) _ (print_int-Without b';' s.position.row refl)
        (refl, print_int-Without b';' s.position.col refl),
  ),
)

join_last : (a : ℕ) (xs ys tail : List ℕ) → xs ++ (a ∷ (ys ++ tail)) ≡ (xs ++ (a ∷ ys)) ++ tail
join_last a xs ys tail = sym (append_assoc xs (a ∷ ys) tail)

print_ship-fields : (s : Ship) (rest : List ℕ) → print_ship s rest ≡ fields s ++ (b';' ∷ rest)
print_ship-fields s rest =
    let t = print_byte s.type in
    let o = print_byte s.orientation in
    let r = print_int s.position.row in
    let c = print_int s.position.col in
    let tail = b';' ∷ rest in
    ap (λ x. t ++ (b',' ∷ (o ++ (b',' ∷ x)))) (join_last b',' r c tail)
    ∙ ap (λ x. t ++ (b',' ∷ x)) (join_last b',' o (r ++ (b',' ∷ c)) tail)
    ∙ join_last b',' t (o ++ (b',' ∷ (r ++ (b',' ∷ c)))) tail

byte_shown : (n : ℕ) → (b : ℕ) × (s : List ℕ) × (print_byte n ≡ b ∷ s)
byte_shown n = elim (Bool-cases (ltb n 10)) [
  | inl e ↦ (digit n, [], rw e refl)
  | inr e ↦ elim (Bool-cases (ltb n 100)) [
    | inl k ↦ (digit (n / 10), digit n ∷ [], rw (e, k) refl)
    | inr k ↦ (digit (n / 100), digit (n / 10) ∷ digit n ∷ [], rw (e, k) refl)
  ]
]

int_shown : (z : ℤ) → (b : ℕ) × (s : List ℕ) × (print_int z ≡ b ∷ s)
int_shown (pos n) = byte_shown n
int_shown (negsuc n) = (b'-', print_byte (n + 1), refl)

split_number : (z : ℤ) → split b',' (print_int z) ≡ print_int z ∷ []
split_number z =
    let (b, s, e) = int_shown z in
    rw e (split_last b',' b s (subst (Without b',') e (print_int-Without b',' z refl)))

split-fields :
    (s : Ship)
    → split b',' (fields s)
      ≡ print_byte s.type
        ∷ print_byte s.orientation
        ∷ print_int s.position.row
        ∷ print_int s.position.col
        ∷ []
split-fields s =
    split-append b',' (print_byte s.type) _ (print_byte-Without b',' s.type refl)
    ∙ ap (◌∷◌ (print_byte s.type)) (
        split-append b',' (print_byte s.orientation) _ (print_byte-Without b',' s.orientation refl)
        ∙ ap (◌∷◌ (print_byte s.orientation)) (
            split-append b',' (print_int s.position.row) _
              (print_int-Without b',' s.position.row refl)
            ∙ ap (◌∷◌ (print_int s.position.row)) (split_number s.position.col)))

read_fields-fields :
    (s : Ship)
    → IsStored s
    → read_fields (split b',' (fields s))
      ≡ some (some (pos s.type, pos s.orientation, s.position.row, s.position.col))
read_fields-fields s h =
    ap read_fields (split-fields s)
    ∙ rw
        (
          read_fields,
          stoi-print_byte s.type (omega (arith, h.type)),
          stoi-print_byte s.orientation (omega (arith, h.orientation)),
          stoi-print_int s.position.row (to_int8_small s.position.row h.row),
          stoi-print_int s.position.col (to_int8_small s.position.col h.col),
        )
        refl

load_read :
    (b : Board) (x : ℕ) (token : List ℕ) (t o r c : ℤ)
    → read_fields (split b',' (x ∷ token)) ≡ some (some (t, o, r, c))
    → load_token b (x ∷ token) ≡ place_read b t o r c
unfolding load_token
load_read b x token t o r c h =
    ap
      (λ f. elim f [
        | none ↦ none
        | some none ↦ some b
        | some (some (type, orientation, row, col)) ↦ place_read b type orientation row col
      ])
      h

fields_shown : (s : Ship) → (x : ℕ) × (token : List ℕ) × (fields s ≡ x ∷ token)
fields_shown s =
    let (x, xs, e) = byte_shown s.type in
    (
      x,
      _,
      ap
          (λ l.
            l
            ++ (b','
                ∷ (print_byte s.orientation
                    ++ (b',' ∷ (print_int s.position.row ++ (b',' ∷ print_int s.position.col))))))
          e,
    )

abbrev cast_point : Coordinate → Coordinate
cast_point p = record { row = to_int8 p.row; col = to_int8 p.col }

abbrev placed_board : Option (Board × Bool) → Option Board
placed_board none = none
placed_board (some (b, _)) = some b

load_token-fields :
    (b : Board) (s : Ship)
    → IsStored s
    → load_token b (fields s) ≡ placed_board (place_ship b s.type s.position s.orientation)
load_token-fields b s h =
    let (x, token, e) = fields_shown s in
    let read =
      load_read b x token (pos s.type) (pos s.orientation) s.position.row s.position.col
        (ap (λ l. read_fields (split b',' l)) (sym e) ∙ read_fields-fields s h) in
    let cast : cast_point s.position ≡ s.position = λ i. record { row = h.row i; col = h.col i } in
    ap (load_token b) e
    ∙ read
    ∙ placed_cases (place_ship b s.type (cast_point s.position) s.orientation)
    ∙ ap (λ p. placed_board (place_ship b s.type p s.orientation)) cast
  where
    placed_cases :
        (o : Option (Board × Bool))
        → (elim o [ none ↦ none | some (b', _) ↦ some b' ]) ≡ placed_board o
    placed_cases none = refl
    placed_cases (some _) = refl

load_next :
    (b : Board) (t : List ℕ) (ts : List (List ℕ)) (o : Option Board)
    → load_token b t ≡ o
    → load_tokens b (t ∷ ts) ≡ (elim o [ none ↦ none | some b' ↦ load_tokens b' ts ])
unfolding load_tokens
load_next b t ts o h = ap (λ x. elim x [ none ↦ none | some b' ↦ load_tokens b' ts ]) h

load_tokens-ship_data :
    (b : Board) (ss : List Ship)
    → All IsStored ss
    → load_tokens b (split b';' (ship_data ss)) ≡ place_each b ss
unfolding place_each ship_data split
load_tokens-ship_data b [] h = unfold load_tokens in refl
load_tokens-ship_data b (s ∷ ss) h =
    ap (λ x. load_tokens b (split b';' x)) (print_ship-fields s (ship_data ss))
    ∙ ap (load_tokens b) (split-append b';' (fields s) (ship_data ss) (fields-Without s))
    ∙ load_next b (fields s) (split b';' (ship_data ss)) _ (load_token-fields b s h.0)
    ∙ elim (Option-cases (place_ship b s.type s.position s.orientation)) [
      | inl n ↦ rw (n, place_each) refl
      | inr ((b', ok), n) ↦ rw (n, place_each) (load_tokens-ship_data b' ss h.1)
    ]

load_shown :
    (b : Board) (x : ℕ) (text : List ℕ)
    → load_ships b (x ∷ text) ≡ load_tokens (clear_board b) (split b';' (x ∷ text))
unfolding load_ships
load_shown b x text = refl

-- The fleet that is stored as text and loaded again is the one that placing the ships in their order on
-- the cleared board gives, faults and refusals included.
pub load_ships-ship_data :
    (b : Board) (s : Ship) (ss : List Ship)
    → All IsStored (s ∷ ss)
    → load_ships b (ship_data (s ∷ ss)) ≡ place_each (clear_board b) (s ∷ ss)
unfolding ship_data
load_ships-ship_data b s ss h =
    let (x, token, e) = fields_shown s in
    let tail = b';' ∷ ship_data ss in
    let text : ship_data (s ∷ ss) ≡ x ∷ (token ++ tail) =
      print_ship-fields s (ship_data ss) ∙ ap (λ l. l ++ tail) e in
    ap (load_ships b) text
    ∙ load_shown b x (token ++ tail)
    ∙ ap (λ l. load_tokens (clear_board b) (split b';' l)) (sym text)
    ∙ load_tokens-ship_data (clear_board b) (s ∷ ss) h
