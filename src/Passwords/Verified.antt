-- ===== src/Passwords/Verified.antt =====
-- What verifyPassword accepts, and what hashPassword stores.
use networkprogramming_battl.Base.{
  ℕ, ◌*◌, ◌==◌, eq→≡, ≢→eq, Bool-cases, inl, inr, subst, true, ◌≡◌, ◌≢◌, ◌↔◌, refl, sym, ap, ◌∙◌,
  Option, none, some, Option-cases, List, [], ◌∷◌, ◌++◌, length, length-append, All, arith,
}
use networkprogramming_battl.Passwords.{
  to_hex, salt_bytes, generate_salt, find_dollar, sha256, hash_password, verify_password, same_hash,
}
use networkprogramming_battl.Passwords.Compare.{same_hash_iff}

abbrev pub HasNoDollar : List ℕ → Type 0
HasNoDollar = All (λ b. b ≢ b'$')

-- What a search answers: the parts around the first dollar sign.
abbrev Parts : List ℕ → Option (List ℕ × List ℕ) → Type 0
Parts s none = Unit
Parts s (some (salt, hash)) = HasNoDollar salt × (s ≡ salt ++ b'$' ∷ hash)

find_dollar-Parts : (s : List ℕ) → Parts s (find_dollar s)
unfolding find_dollar
find_dollar-Parts [] = tt
find_dollar-Parts (b ∷ s) = elim (Bool-cases (b == b'$')) [
  | inl dollar ↦ rw (dollar, find_dollar) (tt, rw (eq→≡ b b'$' dollar) refl)
  | inr other ↦ elim (Option-cases (find_dollar s)) [
    | inl nothing ↦ rw (other, find_dollar, nothing) tt
    | inr ((salt, hash), found) ↦
        let rest = subst (Parts s) found (find_dollar-Parts s) in
        rw (other, find_dollar, found) ((ground (arith, other), rest.0), rw rest.1 refl)
  ]
]

find_dollar-append :
    (salt hash : List ℕ) → HasNoDollar salt → find_dollar (salt ++ b'$' ∷ hash) ≡ some (salt, hash)
unfolding find_dollar
find_dollar-append [] hash v = refl
find_dollar-append (b ∷ salt) hash v = rw (≢→eq b b'$' v.0, find_dollar-append salt hash v.1) refl

-- Printed hexadecimal digits are no dollar signs, two for each byte.
to_hex-HasNoDollar : (bs : List ℕ) → HasNoDollar (to_hex bs)
to_hex-HasNoDollar [] = tt
to_hex-HasNoDollar (b ∷ bs) = (ground arith, (ground arith, to_hex-HasNoDollar bs))

length-to_hex : (bs : List ℕ) → length (to_hex bs) ≡ 2 * length bs
length-to_hex [] = refl
length-to_hex (b ∷ bs) = omega (arith, length-to_hex bs)

length-generate_salt :
    (random : Option (ℕ → ℕ)) (rand : ℕ → ℕ) → length (generate_salt random rand) ≡ 32
unfolding generate_salt
length-generate_salt random rand = refl

generate_salt_some : (random : Option (ℕ → ℕ)) (rand : ℕ → ℕ) → generate_salt random rand ≢ []
generate_salt_some random rand e =
    absurd (omega (arith, length-generate_salt random rand, ap length e))

generate_salt-HasNoDollar :
    (random : Option (ℕ → ℕ)) (rand : ℕ → ℕ) → HasNoDollar (generate_salt random rand)
unfolding generate_salt
generate_salt-HasNoDollar random rand = to_hex-HasNoDollar (salt_bytes random rand 0 16)

module _ (digest : List ℕ → List ℕ) where
  -- The answer on a stored text of the right form.
  verify_password_at :
      (password salt hash : List ℕ)
      → salt ≢ []
      → HasNoDollar salt
      → verify_password digest password (salt ++ b'$' ∷ hash)
        ≡ same_hash (sha256 digest (salt ++ password)) hash
  unfolding verify_password
  verify_password_at password [] hash d v = absurd (d refl)
  verify_password_at password (b ∷ salt) hash d v =
      rw (find_dollar-append (b ∷ salt) hash v, verify_password) refl

  -- A password is accepted exactly if the stored text is a salt, not empty and without dollar
  -- signs, a dollar sign, and the hash of the salt and this password.
  pub verify_password_iff :
      (password stored : List ℕ)
      → (verify_password digest password stored ≡ true) ↔ (
          (salt : List ℕ) × (salt ≢ [])
          × HasNoDollar salt
          × (stored ≡ salt ++ b'$' ∷ sha256 digest (salt ++ password)))
  unfolding verify_password
  verify_password_iff password stored = (
    λ e. elim (Option-cases (find_dollar stored)) [
      | inl nothing ↦ absurd (ground (arith, e, nothing))
      | inr (([], hash), found) ↦ absurd (ground (arith, e, found))
      | inr ((b ∷ salt, hash), found) ↦
          let parts = subst (Parts stored) found (find_dollar-Parts stored) in
          let same =
            (same_hash_iff (sha256 digest (b ∷ salt ++ password)) hash).0
              (ground (arith, e, found, verify_password)) in
          (
            b ∷ salt,
            λ q. absurd (ground (arith, q)),
            parts.0,
            subst (λ h. stored ≡ (b ∷ salt) ++ b'$' ∷ h) (sym same) parts.1,
          )
    ],
    λ (salt, d, v, e).
        subst (λ t. verify_password digest password t ≡ true) (sym e)
          (verify_password_at password salt (sha256 digest (salt ++ password)) d v
            ∙ (same_hash_iff _ _).1 refl),
  )

  -- A password is accepted against what hashPassword stored for another exactly if both have the
  -- same salted hash; so a password is accepted against its own.
  pub verify-hash :
      (random : Option (ℕ → ℕ)) (rand : ℕ → ℕ) (password other : List ℕ)
      → let salt = generate_salt random rand in
        ((verify_password digest password (hash_password digest random rand other) ≡ true)
          ↔ (sha256 digest (salt ++ password) ≡ sha256 digest (salt ++ other)))
        × (verify_password digest other (hash_password digest random rand other) ≡ true)
  unfolding hash_password
  verify-hash random rand password other =
      let salt = generate_salt random rand in
      let answer = λ (p : List ℕ).
        verify_password_at p salt (sha256 digest (salt ++ other)) (generate_salt_some random rand)
          (generate_salt-HasNoDollar random rand) in
      let same =
        λ (p : List ℕ). same_hash_iff (sha256 digest (salt ++ p)) (sha256 digest (salt ++ other)) in
      (
        (
          λ e. (same password).0 (sym (answer password) ∙ e),
          λ e. answer password ∙ (same password).1 e,
        ),
        answer other ∙ (same other).1 refl,
      )

  -- With digests of 32 bytes a stored text has 97 characters.
  pub length-hash_password :
      (random : Option (ℕ → ℕ)) (rand : ℕ → ℕ) (password : List ℕ)
      → ((s : List ℕ) → length (digest s) ≡ 32)
      → length (hash_password digest random rand password) ≡ 97
  unfolding hash_password
  length-hash_password random rand password h =
      let salt = generate_salt random rand in
      omega (
        arith,
        length-append salt (b'$' ∷ sha256 digest (salt ++ password)),
        length-generate_salt random rand,
        length-to_hex (digest (salt ++ password)),
        h (salt ++ password),
      )
