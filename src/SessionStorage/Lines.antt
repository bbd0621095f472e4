-- ===== src/SessionStorage/Lines.antt =====
-- Numbers and lines are read back as they were printed.
use networkprogramming_battl.Base.{
  ℕ, zero, suc, ◌*◌, ◌/◌, ◌^◌, ◌<◌, ltb, ◌==◌, if◌then◌else◌, ℤ, pos, negsuc, true, false, ◌≡◌,
  refl, ap, sym, ◌∙◌, none, some, List, [], ◌∷◌, ◌++◌, All, inl, inr, Bool-cases, arith, subst,
}
use networkprogramming_battl.Placements.{digit, is_digit, read_digits}
use networkprogramming_battl.SessionStorage.{
  print_digits, max_digits, print_number, cut_line, get_line, skip_blanks, in_int, stoi_line,
}

abbrev pub tens : ℕ → ℕ
tens zero = 1
tens (suc f) = 10 * tens f

digit_reads : (n : ℕ) → is_digit (digit n) ≡ true
digit_reads n = ground arith

pub read_digits-print_digits :
    (f n : ℕ) (rest : List ℕ)
    → n < tens f
    → 0 < f
    → read_digits 0 (print_digits f n rest) ≡ read_digits n rest
unfolding print_digits read_digits
read_digits-print_digits zero n rest h k = absurd (omega (arith, k))
read_digits-print_digits (suc zero) n rest h k = ground (arith, h)
read_digits-print_digits (suc (suc f)) n rest h k = ground (
  arith,
  read_digits-print_digits (suc f) (n / 10) (digit n ∷ rest) (omega (arith, h)) (omega arith),
)

-- The print of a number starts with a digit and holds digits only.
pub print_digits-digits :
    (f n : ℕ) (rest : List ℕ)
    → All (λ b. is_digit b ≡ true) rest
    → All (λ b. is_digit b ≡ true) (print_digits f n rest)
unfolding print_digits
print_digits-digits zero n rest h = h
print_digits-digits (suc f) n rest h = elim (Bool-cases (ltb n 10)) [
  | inl e ↦ rw (e, print_digits) (digit_reads n, h)
  | inr e ↦
      rw (e, print_digits) (print_digits-digits f (n / 10) (digit n ∷ rest) (digit_reads n, h))
]

pub print_digits-ne-nil :
    (f n : ℕ) (b : ℕ) (rest : List ℕ)
    → (c : ℕ) × (s : List ℕ) × (print_digits f n (b ∷ rest) ≡ c ∷ s)
unfolding print_digits
print_digits-ne-nil zero n b rest = (b, rest, refl)
print_digits-ne-nil (suc f) n b rest = elim (Bool-cases (ltb n 10)) [
  | inl e ↦ (digit n, b ∷ rest, rw (e, print_digits) refl)
  | inr e ↦
      let (c, s, k) = print_digits-ne-nil f (n / 10) (digit n) (b ∷ rest) in
      (c, s, rw (e, print_digits) k)
]

-- Text without a line break is one line.
abbrev pub OneLine : List ℕ → Type 0
OneLine s = All (λ b. (b == b'\n') ≡ false) s

cut_line-append : (s rest : List ℕ) → OneLine s → cut_line (s ++ (b'\n' ∷ rest)) ≡ (s, rest)
unfolding cut_line
cut_line-append [] rest h = refl
cut_line-append (b ∷ s) rest h = ground (arith, h.0, cut_line-append s rest h.1)

pub get_line-append :
    (s rest : List ℕ) → OneLine s → get_line (s ++ (b'\n' ∷ rest)) ≡ some (s, rest)
unfolding get_line
get_line-append [] rest h = ap some (cut_line-append [] rest h)
get_line-append (b ∷ s) rest h = ap some (cut_line-append (b ∷ s) rest h)

digits-OneLine : (s : List ℕ) → All (λ b. is_digit b ≡ true) s → OneLine s
digits-OneLine [] h = tt
digits-OneLine (b ∷ s) h = (ground (arith, h.0), digits-OneLine s h.1)

pub print_number-OneLine : (z : ℤ) → OneLine (print_number z)
print_number-OneLine (pos n) =
    digits-OneLine (print_digits max_digits n []) (print_digits-digits max_digits n [] tt)
print_number-OneLine (negsuc n) = (
  refl,
  digits-OneLine (print_digits max_digits (suc n) [])
      (print_digits-digits max_digits (suc n) [] tt),
)

-- The print of a number below 10^10 is a digit and what follows it, and reads as the number.
record IsDecimal (n : ℕ) : Type 0 where
  first : ℕ
  others : List ℕ
  printed : print_digits max_digits n [] ≡ first ∷ others
  starts : is_digit first ≡ true
  reads : read_digits 0 (first ∷ others) ≡ n

print_digits-IsDecimal : (n : ℕ) → n < 2 ^ 33 → IsDecimal n
unfolding print_digits read_digits
print_digits-IsDecimal n h =
    let (c, s, e) = shown in
    record {
      first = c;
      others = s;
      printed = e;
      starts = (subst (All (λ b. is_digit b ≡ true)) e (print_digits-digits max_digits n [] tt)).0;
      reads =
          ap (read_digits 0) (sym e)
          ∙ read_digits-print_digits max_digits n [] (omega (arith, h)) (omega arith);
    }
  where
    shown : (c : ℕ) × (s : List ℕ) × (print_digits max_digits n [] ≡ c ∷ s)
    shown = elim (Bool-cases (ltb n 10)) [
      | inl e ↦ (digit n, [], rw (e, print_digits) refl)
      | inr e ↦
          let (c, s, k) = print_digits-ne-nil 9 (n / 10) (digit n) [] in
          (c, s, rw (e, print_digits) k)
    ]

abbrev pub magnitude : ℤ → ℕ
magnitude (pos n) = n
magnitude (negsuc n) = suc n

-- What `stoi` makes of a printed number: the number, where an int can hold it, and an exception where
-- not.
pub stoi_line-print_number :
    (z : ℤ)
    → magnitude z < 2 ^ 33
    → stoi_line (print_number z) ≡ (if in_int z then some z else none)
unfolding stoi_line skip_blanks
stoi_line-print_number (pos n) h =
    let p = print_digits-IsDecimal n h in rw (p.printed) (ground (arith, p.starts, p.reads))
stoi_line-print_number (negsuc n) h =
    let p = print_digits-IsDecimal (suc n) h in rw (p.printed) (ground (arith, p.starts, p.reads))
