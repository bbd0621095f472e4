-- ===== src/Base/Int.antt =====
-- Signed integers over the native numbers: `negsuc n` is -(n + 1).
use Prim.Native.Nat.{ℕ, suc, ◌+◌, ◌-◌}
use mathlib.Core.Path.{◌≡◌}
use mathlib.Core.Bool.{Bool, true, false}
use native.Mathlib.Omega.{arith}
use networkprogramming_battl.Base.Tests.{ltb, leb, ◌==◌, if◌then◌else◌}

pub data ℤ : Type 0 where
  pos : ℕ → ℤ
  negsuc : ℕ → ℤ

abbrev pub is_neg : ℤ → Bool
is_neg (pos n) = false
is_neg (negsuc n) = true

-- z + n
abbrev pub shift : ℤ → ℕ → ℤ
shift (pos m) n = pos (m + n)
shift (negsuc m) n = if ltb m n then pos (n - m - 1) else negsuc (m - n)

-- z - 1
abbrev pub pred : ℤ → ℤ
pred (pos n) = if n == 0 then negsuc 0 else pos (n - 1)
pred (negsuc n) = negsuc (suc n)

-- z ≥ n and z > n, for a number n
abbrev pub int_ge : ℤ → ℕ → Bool
int_ge (pos m) n = leb n m
int_ge (negsuc m) n = false

abbrev pub int_gt : ℤ → ℕ → Bool
int_gt (pos m) n = ltb n m
int_gt (negsuc m) n = false

abbrev pub int_eq : ℤ → ℤ → Bool
int_eq (pos m) (pos n) = m == n
int_eq (negsuc m) (negsuc n) = m == n
int_eq (pos m) (negsuc n) = false
int_eq (negsuc m) (pos n) = false

pub int_eq→≡ : (a b : ℤ) → int_eq a b ≡ true → a ≡ b
int_eq→≡ (pos m) (pos n) h = ground arith
int_eq→≡ (negsuc m) (negsuc n) h = ground arith
int_eq→≡ (pos m) (negsuc n) h = ground arith
int_eq→≡ (negsuc m) (pos n) h = ground arith

pub int_eq_refl : (a : ℤ) → int_eq a a ≡ true
int_eq_refl (pos m) = ground arith
int_eq_refl (negsuc m) = ground arith
