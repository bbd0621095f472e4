-- ===== src/Accounts/Token.antt =====
-- The token of a session fits into the array of the response that carries it to the client.
use networkprogramming_battl.Base.{
  ℕ, zero, suc, ◌+◌, ◌/◌, ◌%◌, ◌<◌, ◌≤◌, ltb, Bool-cases, inl, inr, ◌≡◌, ◌≢◌, refl, List, [], ◌∷◌,
  length, length-append, All, All-append, arith,
}
use networkprogramming_battl.Base.Text.{bytes, copy_text, safe_str_copy, safe_str_copy_whole}
use networkprogramming_battl.Accounts.{print_decimal, random_digits, generate_session_token}

-- No byte ends the text as a C string.
abbrev HasNoZero : List ℕ → Type 0
HasNoZero = All (λ b. b ≢ 0)

copy_text-HasNoZero : (s : List ℕ) → HasNoZero s → copy_text (length s) s ≡ s
unfolding copy_text
copy_text-HasNoZero [] v = refl
copy_text-HasNoZero (b ∷ s) v = ground (arith, v.0, copy_text-HasNoZero s v.1)

length-print_decimal : (k n : ℕ) → length (print_decimal k n) ≤ suc k
unfolding print_decimal
length-print_decimal zero n = omega arith
length-print_decimal (suc k) n = elim (Bool-cases (ltb n 10)) [
  | inl small ↦ rw small (omega arith)
  | inr large ↦ rw large (
      omega (
        arith,
        length-append (print_decimal k (n / 10)) ((b'0' + n % 10) ∷ []),
        length-print_decimal k (n / 10),
      ))
]

print_decimal-HasNoZero : (k n : ℕ) → HasNoZero (print_decimal k n)
unfolding print_decimal
print_decimal-HasNoZero zero n = (λ e. absurd (omega (arith, e)), tt)
print_decimal-HasNoZero (suc k) n = elim (Bool-cases (ltb n 10)) [
  | inl small ↦ rw small (λ e. absurd (omega (arith, e)), tt)
  | inr large ↦ rw large (
      All-append _ (print_decimal k (n / 10)) _ (print_decimal-HasNoZero k (n / 10))
        (λ e. absurd (omega (arith, e)), tt))
]

length-random_digits : (draws : ℕ → ℕ) (i n : ℕ) → length (random_digits draws i n) ≡ n
unfolding random_digits
length-random_digits draws i zero = refl
length-random_digits draws i (suc n) = omega (arith, length-random_digits draws (i + 1) n)

random_digits-HasNoZero : (draws : ℕ → ℕ) (i n : ℕ) → HasNoZero (random_digits draws i n)
unfolding random_digits
random_digits-HasNoZero draws i zero = tt
random_digits-HasNoZero draws i (suc n) = (ground arith, random_digits-HasNoZero draws (i + 1) n)

length-generate_session_token :
    (user : ℕ) (draws : ℕ → ℕ) → length (generate_session_token user draws) < 64
unfolding generate_session_token
length-generate_session_token user draws = omega (
  arith,
  length-append (print_decimal 9 user) (b'_' ∷ random_digits draws 0 32),
  length-print_decimal 9 user,
  length-random_digits draws 0 32,
)

generate_session_token-HasNoZero :
    (user : ℕ) (draws : ℕ → ℕ) → HasNoZero (generate_session_token user draws)
unfolding generate_session_token
generate_session_token-HasNoZero user draws = All-append _ (bytes "token_") _ (ground arith) (
    All-append _ (print_decimal 9 user) _ (print_decimal-HasNoZero 9 user)
      (omega arith, random_digits-HasNoZero draws 0 32))

-- The client gets the token as it is stored.
pub generate_session_token_whole :
    (user : ℕ) (draws : ℕ → ℕ)
    → safe_str_copy 64 (generate_session_token user draws) ≡ generate_session_token user draws
generate_session_token_whole user draws =
    let token = generate_session_token user draws in
    safe_str_copy_whole 64 token (length-generate_session_token user draws)
      (copy_text-HasNoZero token (generate_session_token-HasNoZero user draws))
