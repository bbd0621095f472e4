-- ===== src/SessionStorage.antt =====
-- The file that keeps a login for the next start of the client (client/src/session_storage.cpp). The file
-- is its bytes, or `none` where there is none; whether it can be opened for writing is an argument. The
-- path, the directory and the permissions are left out.
pub mod Lines
pub mod RoundTrip
mod Tests
use networkprogramming_battl.Base.{
  ℕ, zero, suc, ◌+◌, ◌-◌, ◌/◌, ◌^◌, ltb, leb, ◌==◌, if◌then◌else◌, ℤ, pos, negsuc, Bool, true,
  false, ◌&&◌, ◌||◌, Option, none, some, List, [], ◌∷◌, ◌++◌,
}
use networkprogramming_battl.Placements.{digit, read_number, negate}

pub record Session : Type 0 where
  pub user_id : ℕ
  pub session_token : List ℕ
  pub username : List ℕ
  pub display_name : List ℕ
  pub elo_rating : ℤ

-- the digits of a number in front of `rest`; a 32-bit number has at most ten
unfoldable pub print_digits : ℕ → ℕ → List ℕ → List ℕ
print_digits zero n rest = rest
print_digits (suc f) n rest =
    let more = print_digits f (n / 10) (digit n ∷ rest) in if ltb n 10 then digit n ∷ rest else more

abbrev pub max_digits : ℕ
max_digits = 10

abbrev pub print_number : ℤ → List ℕ
print_number (pos n) = print_digits max_digits n []
print_number (negsuc n) = b'-' ∷ print_digits max_digits (suc n) []

-- file << s << std::endl, in front of what is written later
abbrev pub write_line : List ℕ → List ℕ → List ℕ
write_line s later = s ++ (b'\n' ∷ later)

abbrev pub session_file : Session → List ℕ
session_file s = write_line (print_number (pos s.user_id)) (
    write_line s.session_token (
      write_line s.username
        (write_line s.display_name (write_line (print_number s.elo_rating) []))))

-- saveSession; the result is the file and the answer
unfoldable pub save_session : Option (List ℕ) → Session → Bool → Option (List ℕ) × Bool
unfolding print_digits
save_session file s opens = if opens then (some (session_file s), true) else (file, false)

-- the bytes up to the end of the line, and those behind it
unfoldable pub cut_line : List ℕ → List ℕ × List ℕ
cut_line [] = ([], [])
cut_line (b ∷ s) = let rest = cut_line s in if b == b'\n' then ([], s) else (b ∷ rest.0, rest.1)

-- std::getline, which fails where nothing is left
unfoldable pub get_line : List ℕ → Option (List ℕ × List ℕ)
unfolding cut_line
get_line [] = none
get_line (b ∷ s) = some (cut_line (b ∷ s))

abbrev pub is_blank : ℕ → Bool
is_blank b = b == 32 || (leb 9 b && leb b 13)

unfoldable pub skip_blanks : List ℕ → List ℕ
skip_blanks [] = []
skip_blanks (b ∷ s) = let rest = skip_blanks s in if is_blank b then rest else b ∷ s

-- a sign and a number
abbrev pub read_signed : List ℕ → Option ℤ
read_signed [] = none
read_signed (b ∷ s) =
    if b == b'-'
    then elim (read_number s) [ none ↦ none | some n ↦ some (negate n) ]
    else elim (read_number (if b == b'+' then s else b ∷ s)) [ none ↦ none | some n ↦ some (pos n) ]

abbrev pub in_int : ℤ → Bool
in_int (pos n) = ltb n (2 ^ 31)
in_int (negsuc n) = ltb n (2 ^ 31)

-- std::stoi: `none` is an exception, as there is no number or it is out of range
unfoldable pub stoi_line : List ℕ → Option ℤ
unfolding skip_blanks
stoi_line s = elim (read_signed (skip_blanks s)) [
  | none ↦ none
  | some z ↦ if in_int z then some z else none
]

-- an int stored in a uint32_t
abbrev pub to_uint32 : ℤ → ℕ
to_uint32 (pos n) = n
to_uint32 (negsuc n) = 2 ^ 32 - suc n

-- What loadSession does: it throws, or answers false, or answers true with what it has read.
pub data Loaded : Type 0 where
  throws refused : Loaded
  loaded : Session → Loaded

-- the lines behind the number of the user
abbrev pub load_rest : ℕ → List ℕ → Loaded
load_rest user_id s = elim (get_line s) [
  | none ↦ refused
  | some (token, s₁) ↦ elim (get_line s₁) [
    | none ↦ refused
    | some (username, s₂) ↦ elim (get_line s₂) [
      | none ↦ refused
      | some (display_name, s₃) ↦ elim (get_line s₃) [
        | none ↦ refused
        | some (line, _) ↦ elim (stoi_line line) [
          | none ↦ throws
          | some elo ↦ loaded (record {
            user_id = user_id;
            session_token = token;
            username = username;
            display_name = display_name;
            elo_rating = elo;
          })
        ]
      ]
    ]
  ]
]

unfoldable pub load_session : Option (List ℕ) → Loaded
unfolding get_line stoi_line
load_session none = refused
load_session (some s) = elim (get_line s) [
  | none ↦ refused
  | some (line, rest) ↦ elim (stoi_line line) [
    | none ↦ throws
    | some id ↦ load_rest (to_uint32 id) rest
  ]
]

unfoldable pub clear_session : Option (List ℕ) → Option (List ℕ)
clear_session file = none

unfoldable pub has_stored_session : Option (List ℕ) → Bool
has_stored_session none = false
has_stored_session (some _) = true
