-- ===== src/Passwords/Compare.antt =====
-- The comparison of verifyPassword: it accepts exactly equal hashes.
use Prim.Native.Nat.{bit_or, bit_xor, bit_or-bitwise, bit_xor-bitwise, digits, differ, max}
use networkprogramming_battl.Base.{
  ℕ, zero, suc, ◌/◌, ◌%◌, ◌≤◌, ◌==◌, eq→≡, Bool-cases, inl, inr, subst, true, ◌≡◌, ◌↔◌, refl, sym,
  ap, List, [], ◌∷◌, length, arith,
}
use networkprogramming_battl.Passwords.{differences, same_hash}

differ-zero : (a b : ℕ) → differ a b ≡ 0 → a ≡ b
differ-zero zero b e = omega arith
differ-zero (suc a) zero e = absurd (omega arith)
differ-zero (suc a) (suc b) e = ap suc (differ-zero a b e)

differ_self : (a : ℕ) → differ a a ≡ 0
differ_self zero = refl
differ_self (suc a) = differ_self a

-- Digits that all agree make equal numbers.
digits-zero : (n a b : ℕ) → a ≤ n → digits (λ c. c) differ n a b ≡ 0 → a ≡ b
digits-zero zero zero b h e = sym e
digits-zero zero (suc a) b h e = absurd (omega arith)
digits-zero (suc n) zero b h e = sym e
digits-zero (suc n) (suc a) b h e = omega (
  arith,
  e,
  digits-zero n (suc a / 2) (b / 2) (omega arith) (omega (arith, e)),
  differ-zero (suc a % 2) (b % 2) (omega (arith, e)),
)

digits_self : (n a : ℕ) → a ≤ n → digits (λ c. c) differ n a a ≡ 0
digits_self zero zero h = refl
digits_self zero (suc a) h = absurd (omega arith)
digits_self (suc n) zero h = refl
digits_self (suc n) (suc a) h =
    omega (arith, digits_self n (suc a / 2) (omega arith), differ_self (suc a % 2))

pub bit_xor-zero : (a b : ℕ) → (bit_xor a b ≡ 0) ↔ (a ≡ b)
bit_xor-zero a b = (
  λ e. digits-zero a a b (omega arith) (omega (arith, e, bit_xor-bitwise a b)),
  λ e.
      subst (λ c. bit_xor a c ≡ 0) e
        (omega (arith, bit_xor-bitwise a a, digits_self a a (omega arith))),
)

max-digits-zero : (n a b : ℕ) → a ≤ n → digits (λ c. c) max n a b ≡ 0 → (a ≡ 0) × (b ≡ 0)
max-digits-zero zero zero b h e = (refl, e)
max-digits-zero zero (suc a) b h e = absurd (omega arith)
max-digits-zero (suc n) zero b h e = (refl, e)
max-digits-zero (suc n) (suc a) b h e =
    omega (arith, e, max-digits-zero n (suc a / 2) (b / 2) (omega arith) (omega (arith, e)))

pub bit_or-zero : (a b : ℕ) → bit_or a b ≡ 0 → (a ≡ 0) × (b ≡ 0)
bit_or-zero a b e = max-digits-zero a a b (omega arith) (omega (arith, e, bit_or-bitwise a b))

differences-zero :
    (r : ℕ) (xs ys : List ℕ) → length xs ≡ length ys → differences r xs ys ≡ 0 → (r ≡ 0) × (xs ≡ ys)
unfolding differences
differences-zero r [] [] h e = (e, refl)
differences-zero r [] (y ∷ ys) h e = absurd (omega arith)
differences-zero r (x ∷ xs) [] h e = absurd (omega arith)
differences-zero r (x ∷ xs) (y ∷ ys) h e =
    let rest = differences-zero (bit_or r (bit_xor x y)) xs ys (omega (arith, h)) e in
    let bits = bit_or-zero r (bit_xor x y) rest.0 in
    (bits.0, rw ((bit_xor-zero x y).0 bits.1, rest.1) refl)

differences_self : (xs : List ℕ) → differences 0 xs xs ≡ 0
unfolding differences
differences_self [] = refl
differences_self (x ∷ xs) = rw ((bit_xor-zero x x).1 refl) (differences_self xs)

pub same_hash_iff : (xs ys : List ℕ) → (same_hash xs ys ≡ true) ↔ (xs ≡ ys)
unfolding same_hash
same_hash_iff xs ys = (
  λ e. elim (Bool-cases (length xs == length ys)) [
    | inl same ↦ (differences-zero 0 xs ys (eq→≡ _ _ same) (ground (arith, e, same))).1
    | inr other ↦ absurd (ground (arith, e, other))
  ],
  λ e. subst (λ zs. same_hash xs zs ≡ true) e (ground (arith, differences_self xs)),
)
