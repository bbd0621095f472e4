-- ===== src/Store/Queries.antt =====
-- Laws of the queries: what an INSERT, UPDATE or DELETE does to a later SELECT.
use networkprogramming_battl.Base.{
  ℕ, ◌+◌, ◌<◌, Bool-cases, inl, inr, Bool, true, false, ◌||◌, ◌≡◌, ◌≢◌, refl, sym, ap, ◌∙◌, List,
  [], ◌∷◌, ◌++◌, All, arith,
}
use networkprogramming_battl.Store.Tables.{text_eq, exists, select, update_where, delete_where}

pub text_eq→≡ : (s t : List ℕ) → text_eq s t ≡ true → s ≡ t
unfolding text_eq
text_eq→≡ [] [] e = refl
text_eq→≡ [] (b ∷ t) e = absurd (ground (arith, e))
text_eq→≡ (a ∷ s) [] e = absurd (ground (arith, e))
text_eq→≡ (a ∷ s) (b ∷ t) e = ground (arith, e, text_eq→≡ s t)

pub text_eq_self : (s : List ℕ) → text_eq s s ≡ true
unfolding text_eq
text_eq_self [] = refl
text_eq_self (a ∷ s) = ground (arith, text_eq_self s)

module _ {ℓ} {A : Type ℓ} where
  -- No two rows have the same key.
  abbrev pub Distinct {κ} : {K : Type κ} → (A → K) → List A → Type κ
  Distinct key [] = Unit
  Distinct key (x ∷ xs) = All (λ y. key y ≢ key x) xs × Distinct key xs

  pub exists-append :
      (p : A → Bool) (xs : List A) (x : A) → exists p (xs ++ x ∷ []) ≡ (exists p xs || p x)
  unfolding exists
  exists-append p [] x = ground arith
  exists-append p (y ∷ xs) x = ground (arith, exists-append p xs x)

  pub select-append_new :
      (p : A → Bool) (d : A) (xs : List A) (x : A)
      → exists p xs ≡ false
      → p x ≡ true
      → select p d (xs ++ x ∷ []) ≡ x
  unfolding exists select
  select-append_new p d [] x e h = ground (arith, h)
  select-append_new p d (y ∷ xs) x e h = ground (arith, e, select-append_new p d xs x)

  pub select-append_old :
      (p : A → Bool) (d : A) (xs : List A) (x : A)
      → exists p xs ≡ true
      → select p d (xs ++ x ∷ []) ≡ select p d xs
  unfolding exists select
  select-append_old p d [] x e = absurd (ground (arith, e))
  select-append_old p d (y ∷ xs) x e = ground (arith, e, select-append_old p d xs x)

  pub select_none : (p : A → Bool) (d : A) (xs : List A) → exists p xs ≡ false → select p d xs ≡ d
  unfolding exists select
  select_none p d [] e = refl
  select_none p d (y ∷ xs) e = ground (arith, e, select_none p d xs)

  pub select_meets :
      (p : A → Bool) (d : A) (xs : List A) → exists p xs ≡ true → p (select p d xs) ≡ true
  unfolding exists select
  select_meets p d [] e = absurd (ground (arith, e))
  select_meets p d (y ∷ xs) e = elim (Bool-cases (p y)) [
    | inl h ↦ rw h h
    | inr h ↦ rw h (select_meets p d xs (ground (arith, e, h)))
  ]

  pub All-select {κ} :
      (P : A → Type κ) (p : A → Bool) (d : A) (xs : List A)
      → All P xs
      → exists p xs ≡ true
      → P (select p d xs)
  unfolding exists select
  All-select P p d [] v e = absurd (ground (arith, e))
  All-select P p d (y ∷ xs) v e = elim (Bool-cases (p y)) [
    | inl h ↦ rw h v.0
    | inr h ↦ rw h (All-select P p d xs v.1 (ground (arith, e, h)))
  ]

  pub exists-update_where :
      (q p : A → Bool) (f : A → A) (xs : List A)
      → ((x : A) → q (f x) ≡ q x)
      → exists q (update_where p f xs) ≡ exists q xs
  unfolding exists update_where
  exists-update_where q p f [] h = refl
  exists-update_where q p f (x ∷ xs) h = ground (arith, h x, exists-update_where q p f xs h)

  pub All-update_where {κ} :
      (P : A → Type κ) (p : A → Bool) (f : A → A) (xs : List A)
      → ((x : A) → P x → P (f x))
      → All P xs
      → All P (update_where p f xs)
  unfolding update_where
  All-update_where P p f [] h v = tt
  All-update_where P p f (x ∷ xs) h v = elim (Bool-cases (p x)) [
    | inl e ↦ rw e (h x v.0, All-update_where P p f xs h v.1)
    | inr e ↦ rw e (v.0, All-update_where P p f xs h v.1)
  ]

  pub update_where_none :
      (p : A → Bool) (f : A → A) (xs : List A) → exists p xs ≡ false → update_where p f xs ≡ xs
  unfolding exists update_where
  update_where_none p f [] e = refl
  update_where_none p f (x ∷ xs) e = ground (arith, e, update_where_none p f xs)

  pub All-delete_where {κ} :
      (P : A → Type κ) (p : A → Bool) (xs : List A) → All P xs → All P (delete_where p xs)
  unfolding delete_where
  All-delete_where P p [] v = tt
  All-delete_where P p (x ∷ xs) v = elim (Bool-cases (p x)) [
    | inl e ↦ rw e (All-delete_where P p xs v.1)
    | inr e ↦ rw e (v.0, All-delete_where P p xs v.1)
  ]

  pub exists_none-All {κ} :
      (P : A → Type κ) (p : A → Bool) (xs : List A)
      → ((x : A) → P x → p x ≡ false)
      → All P xs
      → exists p xs ≡ false
  unfolding exists
  exists_none-All P p [] h v = refl
  exists_none-All P p (x ∷ xs) h v = ground (arith, h x v.0, exists_none-All P p xs h v.1)

  pub exists-delete_where : (p : A → Bool) (xs : List A) → exists p (delete_where p xs) ≡ false
  unfolding exists delete_where
  exists-delete_where p [] = refl
  exists-delete_where p (x ∷ xs) = ground (arith, exists-delete_where p xs)

  pub All-map {κ κ'} :
      (P : A → Type κ) (Q : A → Type κ') (xs : List A) → ((x : A) → P x → Q x) → All P xs → All Q xs
  All-map P Q [] h v = tt
  All-map P Q (x ∷ xs) h v = (h x v.0, All-map P Q xs h v.1)

  All-exists_none {κ} :
      (Q : A → Type κ) (p : A → Bool) (xs : List A)
      → ((y : A) → p y ≡ false → Q y)
      → exists p xs ≡ false
      → All Q xs
  unfolding exists
  All-exists_none Q p [] h e = tt
  All-exists_none Q p (y ∷ xs) h e =
      (h y (ground (arith, e)), All-exists_none Q p xs h (ground (arith, e)))

  pub All-append_one {κ} :
      (P : A → Type κ) (xs : List A) (x : A) → All P xs → P x → All P (xs ++ x ∷ [])
  All-append_one P [] x v h = (h, tt)
  All-append_one P (y ∷ xs) x v h = (v.0, All-append_one P xs x v.1 h)

  -- The test of a UNIQUE column: with no row of the key, the new row keeps the keys distinct.
  pub Distinct-append :
      (key : A → List ℕ) (xs : List A) (x : A)
      → Distinct key xs
      → exists (λ y. text_eq (key y) (key x)) xs ≡ false
      → Distinct key (xs ++ x ∷ [])
  unfolding exists
  Distinct-append key [] x v e = (tt, tt)
  Distinct-append key (y ∷ xs) x v e = (
    All-append_one (λ z. key z ≢ key y) xs x v.0
        (λ q. absurd (ground (arith, e, ap (λ s. text_eq s (key x)) q, text_eq_self (key x)))),
    Distinct-append key xs x v.1 (ground (arith, e)),
  )

  pub Distinct-update_where {κ} :
      {K : Type κ} (key : A → K) (p : A → Bool) (f : A → A) (xs : List A)
      → ((x : A) → key (f x) ≡ key x)
      → Distinct key xs
      → Distinct key (update_where p f xs)
  unfolding update_where
  Distinct-update_where key p f [] h v = tt
  Distinct-update_where key p f (x ∷ xs) h v =
      let rest = All-update_where (λ y. key y ≢ key x) p f xs (λ y n e. n (sym (h y) ∙ e)) v.0 in
      elim (Bool-cases (p x)) [
        | inl e ↦ rw e (rw (h x) rest, Distinct-update_where key p f xs h v.1)
        | inr e ↦ rw e (rest, Distinct-update_where key p f xs h v.1)
      ]

  pub Distinct-delete_where {κ} :
      {K : Type κ} (key : A → K) (p : A → Bool) (xs : List A)
      → Distinct key xs
      → Distinct key (delete_where p xs)
  unfolding delete_where
  Distinct-delete_where key p [] v = tt
  Distinct-delete_where key p (x ∷ xs) v = elim (Bool-cases (p x)) [
    | inl e ↦ rw e (Distinct-delete_where key p xs v.1)
    | inr e ↦
        rw e (All-delete_where (λ y. key y ≢ key x) p xs v.0, Distinct-delete_where key p xs v.1)
  ]

  Distinct-append_new {κ} :
      {K : Type κ} (key : A → K) (xs : List A) (x : A)
      → Distinct key xs
      → All (λ y. key y ≢ key x) xs
      → Distinct key (xs ++ x ∷ [])
  Distinct-append_new key [] x v n = (tt, tt)
  Distinct-append_new key (y ∷ xs) x v n = (
    All-append_one (λ z. key z ≢ key y) xs x v.0 (λ q. n.0 (sym q)),
    Distinct-append_new key xs x v.1 n.1,
  )

  -- A column of AUTOINCREMENT: the numbers are positive, below the next one, and distinct.
  abbrev pub Issued : (A → ℕ) → ℕ → List A → Type 0
  Issued key next xs = All (λ x. (0 < key x) × (key x < next)) xs × Distinct key xs

  pub Issued-append :
      (key : A → ℕ) (next : ℕ) (xs : List A) (x : A)
      → 0 < next
      → key x ≡ next
      → Issued key next xs
      → Issued key (next + 1) (xs ++ x ∷ [])
  Issued-append key next xs x n e v = (
    All-append_one _ xs x (All-map _ _ xs (λ y h. omega (arith, h)) v.0)
        (omega (arith, n, e), omega (arith, e)),
    Distinct-append_new key xs x v.1
        (All-map _ _ xs (λ y h q. absurd (omega (arith, h, q, e))) v.0),
  )

  pub Issued-update_where :
      (key : A → ℕ) (next : ℕ) (p : A → Bool) (f : A → A) (xs : List A)
      → ((x : A) → key (f x) ≡ key x)
      → Issued key next xs
      → Issued key next (update_where p f xs)
  Issued-update_where key next p f xs h v = (
    All-update_where _ p f xs (λ x g. omega (arith, g, h x)) v.0,
    Distinct-update_where key p f xs h v.1,
  )

  pub Issued-delete_where :
      (key : A → ℕ) (next : ℕ) (p : A → Bool) (xs : List A)
      → Issued key next xs
      → Issued key next (delete_where p xs)
  Issued-delete_where key next p xs v =
      (All-delete_where _ p xs v.0, Distinct-delete_where key p xs v.1)
