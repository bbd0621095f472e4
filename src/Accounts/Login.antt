-- ===== src/Accounts/Login.antt =====
-- Who gets in, and what the server knows of the client then.
use networkprogramming_battl.Base.{
  ℕ, ◌==◌, ◌<◌, subst, if◌then◌else◌, Bool-cases, inl, inr, true, false, ◌≡◌, ◌≢◌, ◌↔◌, refl, sym,
  ap, Option, List, [], ◌∷◌, arith,
}
use networkprogramming_battl.Protocol.{offline, available}
use networkprogramming_battl.Messages.{
  RegisterRequest, LoginRequest, LoginResponse, login_response, Event,
}
use networkprogramming_battl.Players.{get_player_status, add_player}
use networkprogramming_battl.Players.Roster.{add_player-Announces, remove_player_statuses}
use networkprogramming_battl.Passwords.{hash_password, verify_password}
use networkprogramming_battl.Passwords.Verified.{verify-hash}
use networkprogramming_battl.Accounts.{
  UserDatabase, Desk, set_authenticated, generate_session_token, reply, open_session, login,
  handle_register, handle_login, handle_logout,
}
use networkprogramming_battl.Accounts.Token.{generate_session_token_whole}

module _ (database : UserDatabase) (digest : List ℕ → List ℕ) where
  open database use {
    Db, is_open, username_exists, create_user, get_user_by_username, create_session,
    validate_session, delete_session,
  }

  -- The conditions of a login.
  pub record MayLogin (s : Desk Db) (req : LoginRequest) (draws : ℕ → ℕ) : Type 0 where
    pub opened : is_open s.db ≡ true
    pub known : (get_user_by_username s.db req.username).user_id ≢ 0
    pub password :
        verify_password digest req.password (get_user_by_username s.db req.username).password_hash
        ≡ true
    pub session :
        let user = (get_user_by_username s.db req.username).user_id in
        0 < (create_session s.db user (generate_session_token user draws) 24).1

  -- What a login leaves: the client is the user, with the token of the response, and the user is
  -- online.
  abbrev pub IsIn : Desk Db → LoginResponse → ℕ → List ℕ → Type 0
  IsIn s resp user token =
      (resp.session_token ≡ token)
      × (s.client.authenticated ≡ true)
      × (s.client.user_id ≡ user)
      × (s.client.session_token ≡ token)
      × (get_player_status s.players user ≡ available)

  pub login_iff :
      (s : Desk Db) (req : LoginRequest) (draws : ℕ → ℕ)
      → ((login database digest s req draws).1.success ≡ true) ↔ MayLogin s req draws
  unfolding login open_session
  login_iff s req draws = (
    λ e. record {
      opened = ground (arith, e);
      known = ground (arith, e);
      password = ground (arith, e);
      session = ground (arith, e);
    },
    λ v. ground (arith, v.opened, v.known, v.password, v.session),
  )

  login_refused :
      (s : Desk Db) (req : LoginRequest) (draws : ℕ → ℕ)
      → (login database digest s req draws).1.success ≡ false
      → let s' = (login database digest s req draws).0 in
        (s'.players ≡ s.players) × (s'.client ≡ s.client)
  unfolding login open_session
  login_refused s req draws e = ground (arith, e)

  pub login_granted :
      (s : Desk Db) (req : LoginRequest) (draws : ℕ → ℕ)
      → (login database digest s req draws).1.success ≡ true
      → let user = (get_user_by_username s.db req.username).user_id in
        let token = generate_session_token user draws in
        let x = login database digest s req draws in
        (x.1.user_id ≡ user)
        × (x.1.session_token ≡ token)
        × (x.0.client ≡ set_authenticated s.client user token)
  unfolding login open_session
  login_granted s req draws e =
      let user = (get_user_by_username s.db req.username).user_id in
      ground (arith, e, generate_session_token_whole user draws)

  -- The database after a login.
  pub login_granted_db :
      (s : Desk Db) (req : LoginRequest) (draws : ℕ → ℕ)
      → (login database digest s req draws).1.success ≡ true
      → let user = (get_user_by_username s.db req.username).user_id in
        let made = create_session s.db user (generate_session_token user draws) 24 in
        (login database digest s req draws).0.db ≡ database.update_last_login made.0 user
  unfolding login open_session
  login_granted_db s req draws e = ground (arith, e)

  -- The response to a login reports success exactly if the database is open, knows the user, the
  -- password verifies and the session could be stored. Then the token of the response is the one
  -- that was stored, the client is that user, and the user is online and available; otherwise the
  -- players and the client are as before.
  pub handle_login_lem :
      (s : Desk Db) (req : LoginRequest) (draws : ℕ → ℕ)
      → let user = (get_user_by_username s.db req.username).user_id in
        let x = handle_login database digest s req draws in
        (resp : LoginResponse) × (rest : List Event) × (x.1
          ≡ reply s.client (login_response resp) ∷ rest)
        × ((resp.success ≡ true) ↔ MayLogin s req draws)
        × (resp.success ≡ true → IsIn x.0 resp user (generate_session_token user draws))
        × (resp.success ≡ false → (x.0.players ≡ s.players) × (x.0.client ≡ s.client))
  unfolding handle_login
  handle_login_lem s req draws =
      let x = login database digest s req draws in
      let user = get_user_by_username s.db req.username in
      let added =
        add_player x.0.players x.0.client.connection x.1.user_id user.username user.display_name
          x.1.elo_rating in
      elim (Bool-cases x.1.success) [
        | inl e ↦
            let (same, token, client) = login_granted s req draws e in
            rw (e, handle_login)
              (
                x.1,
                added.1,
                refl,
                login_iff s req draws,
                λ _. (
                  token,
                  ap (λ c. c.authenticated) client,
                  ap (λ c. c.user_id) client,
                  ap (λ c. c.session_token) client,
                  subst (λ u. get_player_status added.0 u ≡ available) same
                      (add_player-Announces x.0.players x.1.user_id x.0.client.connection
                        user.username user.display_name x.1.elo_rating).0,
                ),
                λ f. absurd (ground (arith, e, f)),
              )
        | inr e ↦
            rw (e, handle_login)
              (
                x.1,
                [],
                refl,
                login_iff s req draws,
                λ f. absurd (ground (arith, e, f)),
                λ _. login_refused s req draws e,
              )
      ]

  -- After a logout with an open database the user of the session, or without one the user whom the
  -- connection is known for, is offline where there is such a user, and every other player has the
  -- status as before.
  pub handle_logout_lem :
      (s : Desk Db) (token : List ℕ) (other : ℕ)
      → is_open s.db ≡ true
      → let found = (validate_session s.db token).1 in
        let user = if found == 0 then s.client.user_id else found in
        let s' = (handle_logout database digest s token).0 in
        (user ≢ 0 → get_player_status s'.players user ≡ offline)
        × (user ≢ other → get_player_status s'.players other ≡ get_player_status s.players other)
  unfolding handle_logout
  handle_logout_lem s token other o =
      let found = (validate_session s.db token).1 in
      let user : ℕ = if found == 0 then s.client.user_id else found in
      let (gone, kept) = remove_player_statuses s.players user other in
      (λ d. ground (arith, o, d, gone), λ d. ground (arith, o, kept d))

  -- Where the database is open, the name is new, and the database, open after creating the user, finds
  -- under the name a user with the stored hash and stores the session: who registered gets in with the
  -- password of the registration.
  pub register-login :
      (s : Desk Db) (req : RegisterRequest) (random : Option (ℕ → ℕ)) (rand draws : ℕ → ℕ)
      → is_open s.db ≡ true
      → username_exists s.db req.username ≡ false
      → let hash = hash_password digest random rand req.password in
        let made = create_user s.db req.username hash req.display_name in
        let user = get_user_by_username made.0 req.username in
        is_open made.0 ≡ true
        → user.user_id ≢ 0
        → user.password_hash ≡ hash
        → 0 < (create_session made.0 user.user_id (generate_session_token user.user_id draws) 24).1
        → let s' = (handle_register database digest s req random rand).0 in
          (login database digest s'
            (record { username = req.username; password = req.password })
            draws).1.success
          ≡ true
  unfolding handle_register
  register-login s req random rand draws o n o' known hashed session =
      let hash = hash_password digest random rand req.password in
      let made = create_user s.db req.username hash req.display_name in
      let s' = (handle_register database digest s req random rand).0 in
      let same : s' ≡ record s { db = made.0 } = ground (arith, o, n) in
      subst
        (λ t.
          (login database digest t (record { username = req.username; password = req.password })
            draws).1.success
          ≡ true)
        (sym same)
        ((login_iff (record s { db = made.0 })
            (record { username = req.username; password = req.password }) draws).1
          (record {
            opened = o';
            known = known;
            password =
                subst (λ h. verify_password digest req.password h ≡ true) (sym hashed)
                  (verify-hash digest random rand req.password req.password).1;
            session = session;
          }))
