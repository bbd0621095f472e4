-- ===== src/Store/Integrity.antt =====
-- What the constraints of the schema keep: keys are distinct, and references lead somewhere.
use networkprogramming_battl.Base.{
  ℕ, ◌+◌, ◌<◌, ◌==◌, Bool-cases, ℤ, ◌⊎◌, inl, inr, Bool, true, false, ◌≡◌, refl, ap, ◌∙◌, List, [],
  ◌∷◌, ◌++◌, All, arith,
}
use networkprogramming_battl.Accounts.{User}
use networkprogramming_battl.Store.{
  Store, Session, usable, exists, is_user, is_match, has_user_id, has_username, has_token,
  update_where, logged_in, rated, is_expired, create_user, update_last_login, update_elo_rating,
  create_session, validate_session, delete_session, cleanup_expired_sessions, delete_user_sessions,
  get_session_by_token, delete_where, new_user, new_session,
}
use networkprogramming_battl.Store.Queries.{
  Distinct, Issued, Issued-append, Issued-update_where, Issued-delete_where, exists-append,
  exists-update_where, All-map, All-append_one, All-delete_where, Distinct-append,
  Distinct-update_where, Distinct-delete_where,
}

-- The winner of a match is a user, or there is none.
abbrev pub IsWinner : Store → ℕ → Type 0
IsWinner d w = (w ≡ 0) ⊎ (is_user d w ≡ true)

pub record IsConsistent (d : Store) : Type 0 where
  pub user_next : 0 < d.next_user_id
  pub session_next : 0 < d.next_session_id
  pub match_next : 0 < d.next_match_id
  pub user_ids : Issued (λ u. u.user_id) d.next_user_id d.users
  pub session_ids : Issued (λ s. s.session_id) d.next_session_id d.sessions
  pub match_ids : Issued (λ m. m.match_id) d.next_match_id d.matches
  pub usernames : Distinct (λ u. u.username) d.users
  pub tokens : Distinct (λ s. s.session_token) d.sessions
  pub session_users : All (λ s. is_user d s.user_id ≡ true) d.sessions
  pub match_users :
      All
        (λ m.
          (is_user d m.player1_id ≡ true)
          × (is_user d m.player2_id ≡ true)
          × IsWinner d m.winner_id)
        d.matches
  pub board_rows : All (λ b. (is_match d b.match_id ≡ true) × (is_user d b.user_id ≡ true)) d.boards
  pub move_rows : All (λ m. (is_match d m.match_id ≡ true) × (is_user d m.player_id ≡ true)) d.moves

module _ (d : Store) (v : IsConsistent d) where
  pub create_user-IsConsistent :
      (now : ℕ) (username password_hash display_name : List ℕ)
      → IsConsistent (create_user d now username password_hash display_name).0
  unfolding create_user
  create_user-IsConsistent now username hash display = elim (Bool-cases (usable d)) [
    | inr e ↦ rw (e, create_user) v
    | inl e ↦ elim (Bool-cases (exists (has_username username) d.users)) [
      | inl taken ↦ rw (e, create_user, taken) v
      | inr free ↦ rw (e, create_user, free) (added free)
    ]
  ]
    where
      kept :
          (id : ℕ)
          → is_user d id ≡ true
          → exists (has_user_id id) (d.users ++ new_user d now username hash display ∷ []) ≡ true
      kept id e =
          ground (
            arith,
            e,
            exists-append (has_user_id id) d.users (new_user d now username hash display),
          )

      added :
          exists (has_username username) d.users ≡ false
          → IsConsistent (record d {
            users = d.users ++ new_user d now username hash display ∷ [];
            next_user_id = d.next_user_id + 1;
          })
      added free = record {
        user_next = omega (arith, v.user_next);
        session_next = v.session_next;
        match_next = v.match_next;
        user_ids =
            Issued-append (λ u. u.user_id) d.next_user_id d.users
              (new_user d now username hash display) v.user_next refl v.user_ids;
        session_ids = v.session_ids;
        match_ids = v.match_ids;
        usernames =
            Distinct-append (λ u. u.username) d.users (new_user d now username hash display)
              v.usernames free;
        tokens = v.tokens;
        session_users = All-map _ _ d.sessions (λ s h. kept s.user_id h) v.session_users;
        match_users =
            All-map _ _ d.matches
              (λ m (h1, h2, h3). (
                kept m.player1_id h1,
                kept m.player2_id h2,
                elim h3 [ inl z ↦ inl z | inr u ↦ inr (kept m.winner_id u) ],
              ))
              v.match_users;
        board_rows = All-map _ _ d.boards (λ b h. (h.0, kept b.user_id h.1)) v.board_rows;
        move_rows = All-map _ _ d.moves (λ b h. (h.0, kept b.player_id h.1)) v.move_rows;
      }

  -- A change of the sessions alone.
  sessions-IsConsistent :
      (ss : List Session) (next : ℕ)
      → 0 < next
      → Issued (λ s. s.session_id) next ss
      → Distinct (λ s. s.session_token) ss
      → All (λ s. is_user d s.user_id ≡ true) ss
      → IsConsistent (record d { sessions = ss; next_session_id = next })
  sessions-IsConsistent ss next n ids tokens known = record {
    user_next = v.user_next;
    session_next = n;
    match_next = v.match_next;
    user_ids = v.user_ids;
    session_ids = ids;
    match_ids = v.match_ids;
    usernames = v.usernames;
    tokens = tokens;
    session_users = known;
    match_users = v.match_users;
    board_rows = v.board_rows;
    move_rows = v.move_rows;
  }

  deleted-IsConsistent :
      (p : Session → Bool) → IsConsistent (record d { sessions = delete_where p d.sessions })
  deleted-IsConsistent p =
      sessions-IsConsistent (delete_where p d.sessions) d.next_session_id v.session_next
        (Issued-delete_where (λ s. s.session_id) d.next_session_id p d.sessions v.session_ids)
        (Distinct-delete_where (λ s. s.session_token) p d.sessions v.tokens)
        (All-delete_where _ p d.sessions v.session_users)

  pub delete_session-IsConsistent : (token : List ℕ) → IsConsistent (delete_session d token).0
  unfolding delete_session
  delete_session-IsConsistent token = elim (Bool-cases (usable d)) [
    | inr e ↦ rw (e, delete_session) v
    | inl e ↦ rw (e, delete_session) (deleted-IsConsistent (has_token token))
  ]

  pub validate_session-IsConsistent :
      (now : ℕ) (token : List ℕ) → IsConsistent (validate_session d now token).0
  unfolding validate_session
  validate_session-IsConsistent now token =
      let s = get_session_by_token d token in
      elim (Bool-cases (s.session_id == 0)) [
        | inl none ↦ rw (none, validate_session) v
        | inr some ↦ elim (Bool-cases (is_expired now s)) [
          | inl late ↦ rw (some, validate_session, late) (delete_session-IsConsistent token)
          | inr fine ↦ rw (some, validate_session, fine) v
        ]
      ]

  pub cleanup-IsConsistent :
      (now user : ℕ)
      → IsConsistent (cleanup_expired_sessions d now).0
        × IsConsistent (delete_user_sessions d user).0
  unfolding cleanup_expired_sessions delete_user_sessions
  cleanup-IsConsistent now user = elim (Bool-cases (usable d)) [
    | inr e ↦ rw (e, cleanup_expired_sessions, delete_user_sessions) (v, v)
    | inl e ↦
        rw (e, cleanup_expired_sessions, delete_user_sessions)
          (deleted-IsConsistent (is_expired now), deleted-IsConsistent (λ s. s.user_id == user))
  ]

  pub create_session-IsConsistent :
      (now user : ℕ) (token : List ℕ) (hours : ℕ)
      → IsConsistent (create_session d now user token hours).0
  unfolding create_session
  create_session-IsConsistent now user token hours =
      let s = new_session d now user token hours in
      elim (Bool-cases (usable d)) [
        | inr e ↦ rw (e, create_session) v
        | inl e ↦ elim (Bool-cases (is_user d user)) [
          | inr n ↦ rw (e, create_session, n) v
          | inl u ↦ elim (Bool-cases (exists (has_token token) d.sessions)) [
            | inl taken ↦ rw (e, create_session, u, taken) v
            | inr free ↦
                rw (e, create_session, u, free)
                  (sessions-IsConsistent (d.sessions ++ s ∷ []) (d.next_session_id + 1)
                    (omega arith)
                    (Issued-append (λ t. t.session_id) d.next_session_id d.sessions s v.session_next
                      refl v.session_ids)
                    (Distinct-append (λ t. t.session_token) d.sessions s v.tokens free)
                    (All-append_one _ d.sessions s v.session_users u))
          ]
        ]
      ]

  -- An UPDATE that leaves ids and usernames alone.
  users-IsConsistent :
      (p : User → Bool) (f : User → User)
      → ((u : User) → (f u).user_id ≡ u.user_id)
      → ((u : User) → (f u).username ≡ u.username)
      → IsConsistent (record d { users = update_where p f d.users })
  users-IsConsistent p f same named =
      let kept = λ (id : ℕ).
        exists-update_where (has_user_id id) p f d.users (λ u. ap (λ k. k == id) (same u)) in
      record {
        user_next = v.user_next;
        session_next = v.session_next;
        match_next = v.match_next;
        session_ids = v.session_ids;
        match_ids = v.match_ids;
        tokens = v.tokens;
        user_ids = Issued-update_where (λ u. u.user_id) d.next_user_id p f d.users same v.user_ids;
        usernames = Distinct-update_where (λ u. u.username) p f d.users named v.usernames;
        session_users = All-map _ _ d.sessions (λ s h. kept s.user_id ∙ h) v.session_users;
        match_users =
            All-map _ _ d.matches
              (λ m (h1, h2, h3). (
                kept m.player1_id ∙ h1,
                kept m.player2_id ∙ h2,
                elim h3 [ inl z ↦ inl z | inr u ↦ inr (kept m.winner_id ∙ u) ],
              ))
              v.match_users;
        board_rows = All-map _ _ d.boards (λ b h. (h.0, kept b.user_id ∙ h.1)) v.board_rows;
        move_rows = All-map _ _ d.moves (λ b h. (h.0, kept b.player_id ∙ h.1)) v.move_rows;
      }

  pub update_user-IsConsistent :
      (now id : ℕ) (elo : ℤ)
      → IsConsistent (update_last_login d now id).0 × IsConsistent (update_elo_rating d id elo).0
  unfolding update_last_login update_elo_rating
  update_user-IsConsistent now id elo = elim (Bool-cases (usable d)) [
    | inr e ↦ rw (e, update_last_login, update_elo_rating) (v, v)
    | inl e ↦
        rw (e, update_last_login, update_elo_rating)
          (
            users-IsConsistent (has_user_id id) (logged_in now) (λ u. refl) (λ u. refl),
            users-IsConsistent (has_user_id id) (rated elo) (λ u. refl) (λ u. refl),
          )
  ]
