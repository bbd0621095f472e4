-- ===== src/Passwords/Tests.antt =====
-- The theorems on passwords at concrete texts, with a digest that tells texts by their length.
use networkprogramming_battl.Base.{
  ℕ, ◌%◌, true, false, ◌≡◌, ◌≢◌, ◌↔◌, refl, Option, none, some, List, [], ◌∷◌, ◌++◌, length,
  replicate,
}
use networkprogramming_battl.Base.Text.{bytes}
use networkprogramming_battl.Passwords.{
  generate_salt, sha256, hash_password, verify_password, find_dollar, same_hash, differences,
}
use networkprogramming_battl.Passwords.Verified.{
  HasNoDollar, verify_password_iff, verify-hash, length-hash_password,
}

abbrev pub length_digest : List ℕ → List ℕ
length_digest s = replicate 32 (length s % 256)

abbrev pub filled : Option (ℕ → ℕ)
filled = some (λ i. i)

abbrev pub draws : ℕ → ℕ
draws i = 7

verify_password_iff_example :
    (verify_password length_digest (bytes "fleet") (bytes "aa$00") ≡ true) ↔ (
      (salt : List ℕ) × (salt ≢ [])
      × HasNoDollar salt
      × (bytes "aa$00" ≡ salt ++ b'$' ∷ sha256 length_digest (salt ++ bytes "fleet")))
verify_password_iff_example = verify_password_iff length_digest (bytes "fleet") (bytes "aa$00")

verify-hash_test :
    let salt = generate_salt filled draws in
    ((verify_password length_digest
          (bytes "boats")
          (hash_password length_digest filled draws (bytes "fleet"))
        ≡ true)
      ↔ (sha256 length_digest (salt ++ bytes "boats")
          ≡ sha256 length_digest (salt ++ bytes "fleet")))
    × (verify_password length_digest
          (bytes "fleet")
          (hash_password length_digest filled draws (bytes "fleet"))
        ≡ true)
verify-hash_test = verify-hash length_digest filled draws (bytes "boats") (bytes "fleet")

length-hash_password_test : length (hash_password length_digest none draws (bytes "fleet")) ≡ 97
length-hash_password_test =
    length-hash_password length_digest none draws (bytes "fleet") (λ s. refl)

wrong_length :
    verify_password length_digest
      (bytes "ship")
      (hash_password length_digest filled draws (bytes "fleet"))
    ≡ false
unfolding verify_password hash_password generate_salt find_dollar same_hash differences
wrong_length = refl

no_salt : verify_password length_digest (bytes "ship") (bytes "$00") ≡ false
unfolding verify_password find_dollar
no_salt = refl
