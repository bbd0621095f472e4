-- ===== src/Base/Map.antt =====
-- std::map with unsigned keys, as an association list in the order of its keys.
use Prim.Native.Nat.{ℕ}
use mathlib.Core.Path.{◌≡◌, refl, sym, subst}
use mathlib.Core.Bool.{Bool, true, false}
use mathlib.Core.List.{List, [], ◌∷◌}
use mathlib.Core.Option.{Option, none, some, some-injective}
use mathlib.Core.Logic.{inl, inr}
use native.Mathlib.Omega.{arith}
use networkprogramming_battl.Base.Tests.{◌==◌, ltb, eq→≡, Bool-cases, if◌then◌else◌}
use networkprogramming_battl.Base.Lists.{All}

abbrev pub Map {ℓ} : Type ℓ → Type ℓ
Map V = List (ℕ × V)

abbrev pub member : ℕ → List ℕ → Bool
member k [] = false
member k (j ∷ js) = if k == j then true else member k js

module _ {ℓ} {V : Type ℓ} where
  unfoldable pub find : ℕ → Map V → Option V
  find k [] = none
  find k ((j, v) ∷ m) = if j == k then some v else find k m

  -- m[k] = v
  unfoldable pub insert : ℕ → V → Map V → Map V
  insert k v [] = (k, v) ∷ []
  insert k v ((j, w) ∷ m) =
      if j == k then (k, v) ∷ m else if ltb k j then (k, v) ∷ (j, w) ∷ m else (j, w) ∷ insert k v m

  unfoldable pub erase : ℕ → Map V → Map V
  erase k [] = []
  erase k ((j, v) ∷ m) = if j == k then erase k m else (j, v) ∷ erase k m

  -- it->second = f(it->second), where the key is there
  unfoldable pub modify : ℕ → (V → V) → Map V → Map V
  modify k f [] = []
  modify k f ((j, v) ∷ m) = if j == k then (j, f v) ∷ m else (j, v) ∷ modify k f m

  -- the entries that a test keeps, in order
  unfoldable pub keep : (ℕ → V → Bool) → Map V → Map V
  keep p [] = []
  keep p ((j, v) ∷ m) = if p j v then (j, v) ∷ keep p m else keep p m

  pub find-insert :
      (k j : ℕ) (v : V) (m : Map V) → find j (insert k v m) ≡ (if k == j then some v else find j m)
  unfolding find insert
  find-insert k j v [] = refl
  find-insert k j v ((i, w) ∷ m) = ground (arith, find-insert k j v m)

  pub find-erase : (k j : ℕ) (m : Map V) → find j (erase k m) ≡ (if k == j then none else find j m)
  unfolding find erase
  find-erase k j [] = ground arith
  find-erase k j ((i, w) ∷ m) = ground (arith, find-erase k j m)

  pub find-modify_self :
      (k : ℕ) (f : V → V) (m : Map V) (v : V)
      → find k m ≡ some v
      → find k (modify k f m) ≡ some (f v)
  unfolding find modify
  find-modify_self k f [] v e = absurd (ground arith)
  find-modify_self k f ((i, w) ∷ m) v e = ground (arith, find-modify_self k f m v)

  pub find-modify_other :
      (k j : ℕ) (f : V → V) (m : Map V) → (k == j) ≡ false → find j (modify k f m) ≡ find j m
  unfolding find modify
  find-modify_other k j f [] e = refl
  find-modify_other k j f ((i, w) ∷ m) e = ground (arith, find-modify_other k j f m)

  -- A property of all values, by key.
  abbrev pub AllEntries {κ} : (ℕ → V → Type κ) → Map V → Type κ
  AllEntries P = All (λ e. P e.0 e.1)

  pub AllEntries-find {κ} :
      (P : ℕ → V → Type κ) (k : ℕ) (m : Map V) {v : V} → AllEntries P m → find k m ≡ some v → P k v
  unfolding find
  AllEntries-find P k [] h e = absurd (ground arith)
  AllEntries-find P k ((j, w) ∷ m) {v} h e = elim (Bool-cases (j == k)) [
    | inl here ↦
        subst (λ x. P x v) (eq→≡ j k here)
          (subst (λ x. P j x) (some-injective w v (ground (arith, here))) h.0)
    | inr there ↦ AllEntries-find P k m h.1 (ground (arith, there))
  ]

  pub AllEntries-insert {κ} :
      (P : ℕ → V → Type κ) (k : ℕ) (v : V) (m : Map V)
      → P k v
      → AllEntries P m
      → AllEntries P (insert k v m)
  unfolding insert
  AllEntries-insert P k v [] x h = (x, tt)
  AllEntries-insert P k v ((j, w) ∷ m) x h = ground (arith, x, AllEntries-insert P k v m x h.1)

  pub AllEntries-erase {κ} :
      (P : ℕ → V → Type κ) (k : ℕ) (m : Map V) → AllEntries P m → AllEntries P (erase k m)
  unfolding erase
  AllEntries-erase P k [] h = tt
  AllEntries-erase P k ((j, w) ∷ m) h = ground (arith, AllEntries-erase P k m h.1)

  pub AllEntries-modify {κ} :
      (P : ℕ → V → Type κ) (k : ℕ) (f : V → V) (m : Map V)
      → ((j : ℕ) (v : V) → P j v → P j (f v))
      → AllEntries P m
      → AllEntries P (modify k f m)
  unfolding modify
  AllEntries-modify P k f [] t h = tt
  AllEntries-modify P k f ((j, w) ∷ m) t h =
      ground (arith, t j w h.0, AllEntries-modify P k f m t h.1)

  pub AllEntries-keep {κ} :
      (P : ℕ → V → Type κ) (p : ℕ → V → Bool) (m : Map V) → AllEntries P m → AllEntries P (keep p m)
  unfolding keep
  AllEntries-keep P p [] h = tt
  AllEntries-keep P p ((j, w) ∷ m) h = ground (arith, AllEntries-keep P p m h.1)

  -- What `keep` leaves passes its test.
  pub keep-passes : (p : ℕ → V → Bool) (m : Map V) → AllEntries (λ k v. p k v ≡ true) (keep p m)
  unfolding keep
  keep-passes p [] = tt
  keep-passes p ((j, w) ∷ m) = ground (arith, keep-passes p m)

  -- An entry that passes the test is kept.
  pub find-keep :
      (p : ℕ → V → Bool) (k : ℕ) (m : Map V) (v : V)
      → find k m ≡ some v
      → p k v ≡ true
      → find k (keep p m) ≡ some v
  unfolding find keep
  find-keep p k [] v e t = absurd (ground arith)
  find-keep p k ((j, w) ∷ m) v e t = elim (Bool-cases (j == k)) [
    | inl here ↦
        let w≡v = some-injective w v (ground (arith, here)) in
        let t' =
          subst (λ x. p x w ≡ true) (sym (eq→≡ j k here)) (subst (λ x. p k x ≡ true) (sym w≡v) t) in
        rw (t', here, w≡v)
    | inr there ↦ ground (arith, there, find-keep p k m v)
  ]

  pub AllEntries-map {κ ι} :
      {P : ℕ → V → Type κ} {Q : ℕ → V → Type ι} (m : Map V)
      → ((k : ℕ) (v : V) → P k v → Q k v)
      → AllEntries P m
      → AllEntries Q m
  AllEntries-map [] f h = tt
  AllEntries-map ((k, v) ∷ m) f h = (f k v h.0, AllEntries-map m f h.1)

  -- The map without the entries of a list of keys.
  unfoldable pub erase_all : List ℕ → Map V → Map V
  erase_all [] m = m
  erase_all (k ∷ ks) m = erase_all ks (erase k m)

  pub erase_absent : (k : ℕ) (m : Map V) → find k m ≡ none → erase k m ≡ m
  unfolding find erase
  erase_absent k [] e = refl
  erase_absent k ((j, v) ∷ m) e = ground (arith, e, erase_absent k m)

  -- What an entry has, or its key is among those that go, holds of all that stay.
  pub AllEntries-erase_all {κ} :
      (P : ℕ → V → Type κ) (ks : List ℕ) (m : Map V)
      → AllEntries (λ k v. member k ks ≡ false → P k v) m
      → AllEntries P (erase_all ks m)
  unfolding erase_all erase
  AllEntries-erase_all P [] m h = AllEntries-map m (λ k v f. f refl) h
  AllEntries-erase_all P (k ∷ ks) m h = AllEntries-erase_all P ks (erase k m) (drop m h)
    where
      drop :
          (n : Map V)
          → AllEntries (λ j v. member j (k ∷ ks) ≡ false → P j v) n
          → AllEntries (λ j v. member j ks ≡ false → P j v) (erase k n)
      drop [] g = tt
      drop ((j, v) ∷ n) g = elim (Bool-cases (j == k)) [
        | inl same ↦ rw (same, erase) (drop n g.1)
        | inr other ↦ rw (other, erase) ((λ x. g.0 (rw (other) x)), drop n g.1)
      ]

  pub erase-insert : (k : ℕ) (v : V) (m : Map V) → erase k (insert k v m) ≡ erase k m
  unfolding erase insert
  erase-insert k v [] = ground arith
  erase-insert k v ((j, w) ∷ m) = ground (arith, erase-insert k v m)
