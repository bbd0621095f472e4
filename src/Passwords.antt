-- ===== src/Passwords.antt =====
-- PasswordHash (common/include/password_hash.h, common/src/password_hash.cpp).
-- SHA256 of OpenSSL is the parameter `digest`, from bytes to bytes; what RAND_bytes fills in, `none`
-- where it fails, and the draws of rand() are arguments. A byte of a text is a number below 256.
pub mod Compare
pub mod Verified
pub mod Tests
use Prim.Native.Nat.{bit_or, bit_xor}
use networkprogramming_battl.Base.{
  ℕ, zero, suc, ◌+◌, ◌-◌, ◌/◌, ◌%◌, ltb, ◌==◌, if◌then◌else◌, Bool, true, false, Option, none, some,
  List, [], ◌∷◌, ◌++◌, length,
}

-- a digit as std::hex prints it
abbrev pub hex_digit : ℕ → ℕ
hex_digit n = if ltb n 10 then b'0' + n else b'a' + (n - 10)

-- the bytes in two digits each
abbrev pub to_hex : List ℕ → List ℕ
to_hex [] = []
to_hex (b ∷ bs) = hex_digit (b / 16) ∷ hex_digit (b % 16) ∷ to_hex bs

-- the array `salt_bytes` from its i-th entry on, n entries
abbrev pub salt_bytes : Option (ℕ → ℕ) → (ℕ → ℕ) → ℕ → ℕ → List ℕ
salt_bytes random rand i zero = []
salt_bytes random rand i (suc n) =
    elim random [ none ↦ rand i % 256 | some filled ↦ filled i % 256 ]
    ∷ salt_bytes random rand (i + 1) n

unfoldable pub generate_salt : Option (ℕ → ℕ) → (ℕ → ℕ) → List ℕ
generate_salt random rand = to_hex (salt_bytes random rand 0 16)

-- stored_hash.find('$') with both calls of substr
unfoldable pub find_dollar : List ℕ → Option (List ℕ × List ℕ)
find_dollar [] = none
find_dollar (b ∷ s) =
    if b == b'$'
    then some ([], s)
    else elim (find_dollar s) [ none ↦ none | some (salt, hash) ↦ some (b ∷ salt, hash) ]

-- the loop of the constant-time comparison
unfoldable pub differences : ℕ → List ℕ → List ℕ → ℕ
differences result [] ys = result
differences result (x ∷ xs) [] = result
differences result (x ∷ xs) (y ∷ ys) = differences (bit_or result (bit_xor x y)) xs ys

unfoldable pub same_hash : List ℕ → List ℕ → Bool
same_hash computed expected =
    if length computed == length expected then differences 0 computed expected == 0 else false

module _ (digest : List ℕ → List ℕ) where
  abbrev pub sha256 : List ℕ → List ℕ
  sha256 s = to_hex (digest s)

  unfoldable pub hash_password : Option (ℕ → ℕ) → (ℕ → ℕ) → List ℕ → List ℕ
  hash_password random rand password =
      let salt = generate_salt random rand in salt ++ b'$' ∷ sha256 (salt ++ password)

  unfoldable pub verify_password : List ℕ → List ℕ → Bool
  verify_password password stored = elim (find_dollar stored) [
    | none ↦ false
    | some ([], hash) ↦ false
    | some (b ∷ salt, hash) ↦ same_hash (sha256 (b ∷ salt ++ password)) hash
  ]
