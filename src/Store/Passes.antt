-- ===== src/Store/Passes.antt =====
-- The sessions as their callers see them: a book of tokens, each with its user and its end. The order
-- of the rows, their numbers and the times of creation are not in it.
use networkprogramming_battl.Base.{
  ℕ, ◌+◌, ◌*◌, ltb, ◌==◌, if◌then◌else◌, Bool-cases, inl, inr, true, false, ◌≡◌, refl, sym, ap, ◌∙◌,
  Option, none, some, List, [], ◌∷◌, ◌++◌, arith,
}
use networkprogramming_battl.Store.{
  Store, Session, usable, text_eq, exists, select, is_user, has_token, is_expired, default_session,
  create_session, validate_session, delete_session, get_session_by_token, new_session, delete_where,
}
use networkprogramming_battl.Store.Queries.{text_eq→≡, text_eq_self, All-select, select_none}
use networkprogramming_battl.Store.Integrity.{IsConsistent}

-- A token leads to a user and to the time at which it runs out.
abbrev pub Book : Type 0
Book = List ℕ → Option (ℕ × ℕ)

abbrev pub issue : Book → List ℕ → ℕ → ℕ → Book
issue b token user ends t = if text_eq token t then some (user, ends) else b t

abbrev pub revoke : Book → List ℕ → Book
revoke b token t = if text_eq token t then none else b t

abbrev pub present : Book → ℕ → List ℕ → Book × ℕ
present b now token = elim (b token) [
  | none ↦ (b, 0)
  | some (user, ends) ↦ if ltb ends now then (revoke b token, 0) else (b, user)
]

-- the book of a table of sessions
unfoldable pub lookup : List Session → Book
lookup [] t = none
lookup (s ∷ ss) t = if has_token t s then some (s.user_id, s.expires_at) else lookup ss t

abbrev pub book : Store → Book
book d = lookup d.sessions

text_eq_apart : (a b t : List ℕ) → text_eq a t ≡ true → text_eq a b ≡ false → text_eq b t ≡ false
text_eq_apart a b t at_a apart = elim (Bool-cases (text_eq b t)) [
  | inr f ↦ f
  | inl at_b ↦
      let same : a ≡ b = text_eq→≡ a t at_a ∙ sym (text_eq→≡ b t at_b) in
      absurd (ground (arith, apart, ap (text_eq a) (sym same) ∙ text_eq_self a))
]

lookup-append :
    (xs : List Session) (s : Session) (t : List ℕ)
    → exists (has_token s.session_token) xs ≡ false
    → lookup (xs ++ s ∷ []) t ≡ issue (lookup xs) s.session_token s.user_id s.expires_at t
unfolding lookup exists
lookup-append [] s t free = refl
lookup-append (x ∷ xs) s t free = elim (Bool-cases (text_eq x.session_token t)) [
  | inr other ↦ rw (other, lookup) (lookup-append xs s t (ground (arith, free)))
  | inl own ↦
      let apart = text_eq_apart x.session_token s.session_token t own (ground (arith, free)) in
      rw (own, lookup, apart) refl
]

lookup-delete_where :
    (xs : List Session) (token t : List ℕ)
    → lookup (delete_where (has_token token) xs) t ≡ revoke (lookup xs) token t
unfolding lookup delete_where
lookup-delete_where [] token t = ground arith
lookup-delete_where (x ∷ xs) token t =
    let rest = lookup-delete_where xs token t in
    elim (Bool-cases (text_eq x.session_token token)) [
      | inr kept ↦ elim (Bool-cases (text_eq x.session_token t)) [
        | inr other ↦ ground (arith, kept, other, rest)
        | inl own ↦ ground (arith, kept, own, rest, text_eq_apart x.session_token token t own kept)
      ]
      | inl gone ↦
          ground (arith, gone, rest, ap (λ k. text_eq k t) (text_eq→≡ x.session_token token gone))
    ]

lookup-select :
    (xs : List Session) (t : List ℕ)
    → lookup xs t ≡ (
        if exists (has_token t) xs
        then some (
          (select (has_token t) default_session xs).user_id,
          (select (has_token t) default_session xs).expires_at,
        )
        else none)
unfolding lookup exists select
lookup-select [] t = refl
lookup-select (x ∷ xs) t = ground (arith, lookup-select xs t)

presented :
    (d : Store) (now : ℕ) (token t : List ℕ)
    → IsConsistent d
    → usable d ≡ true
    → let used = validate_session d now token in
      (book used.0 t ≡ (present (book d) now token).0 t) × (used.1 ≡ (present (book d) now token).1)
unfolding delete_session validate_session get_session_by_token
presented d now token t v ok =
    let row = select (has_token token) default_session d.sessions in
    let gone = lookup-delete_where d.sessions token t in
    elim (Bool-cases (exists (has_token token) d.sessions)) [
      | inr n ↦
          let found : lookup d.sessions token ≡ none =
            lookup-select d.sessions token ∙ ground (arith, n) in
          rw
            (
              ok,
              validate_session,
              select_none (has_token token) default_session d.sessions n,
              present,
              found,
            )
            (refl, refl)
      | inl n ↦
          let found : lookup d.sessions token ≡ some (row.user_id, row.expires_at) =
            lookup-select d.sessions token ∙ ground (arith, n) in
          let numbered : (row.session_id == 0) ≡ false =
            ground (
              arith,
              All-select _ (has_token token) default_session d.sessions v.session_ids.0 n,
            ) in
          elim (Bool-cases (is_expired now row)) [
            | inl late ↦ rw (ok, validate_session, numbered, present, found, late) (gone, refl)
            | inr early ↦ rw (ok, validate_session, numbered, present, found, early) (refl, refl)
          ]
    ]

-- With a consistent database that runs its statements, the methods on sessions do to the book of
-- tokens what their names say: a session that is created is issued, and where it is refused the book
-- stays; a deletion revokes; and the check of a token gives its user until it runs out, nobody for an
-- unknown or outdated one, and revokes an outdated one.
pub sessions_refine :
    (d : Store) (now user hours : ℕ) (token t : List ℕ)
    → IsConsistent d
    → usable d ≡ true
    → let made = create_session d now user token hours in
      let used = validate_session d now token in
      (book made.0 t
        ≡ (if made.1 == 0 then book d t else issue (book d) token user (now + hours * 3600) t))
      × (book (delete_session d token).0 t ≡ revoke (book d) token t)
      × (book used.0 t ≡ (present (book d) now token).0 t)
      × (used.1 ≡ (present (book d) now token).1)
unfolding create_session delete_session validate_session get_session_by_token
sessions_refine d now user hours token t v ok = (
  elim (Bool-cases (is_user d user)) [
    | inr n ↦ ground (arith, ok, n)
    | inl u ↦ elim (Bool-cases (exists (has_token token) d.sessions)) [
      | inl taken ↦ ground (arith, ok, u, taken)
      | inr free ↦ ground (
        arith,
        ok,
        u,
        free,
        v.session_next,
        lookup-append d.sessions (new_session d now user token hours) t free,
      )
    ]
  ],
  ground (arith, ok, lookup-delete_where d.sessions token t),
  (presented d now token t v ok).0,
  (presented d now token t v ok).1,
)
