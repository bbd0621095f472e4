-- ===== src/Routing/Desks.antt =====
-- What every statement of the database and every change of the roster keeps, the handlers of accounts
-- keep, and they leave the descriptor of the connection.
use networkprogramming_battl.Base.{ℕ, ltb, ◌==◌, if◌then◌else◌, ℤ, not, ◌≡◌, Option, List}
use networkprogramming_battl.Messages.{
  RegisterRequest, LoginRequest, Event, LoginResponse, SessionValidateResponse,
}
use networkprogramming_battl.Passwords.{hash_password, verify_password}
use networkprogramming_battl.Players.{PlayerManager, add_player, remove_player}
use networkprogramming_battl.Accounts.{
  Desk, login, open_session, restore, sign_off, generate_session_token, handle_register,
  handle_login, handle_logout, handle_validate_session,
}
use networkprogramming_battl.Store
use networkprogramming_battl.Store.{Store}
use networkprogramming_battl.Store.Handlers.{user_database}
use networkprogramming_battl.Store.References.{
  creates_user, updates_last_login, creates_session, validates_session, deletes_session, execute,
}
use networkprogramming_battl.Routing.Kept.{Keeps, pick}

pub record IsGoodDesk (P : Store → Type 0) (Q : PlayerManager → Type 0) (fd : ℕ) (s : Desk Store)
    : Type 0 where
  pub db : P s.db
  pub players : Q s.players
  pub connection : s.client.connection ≡ fd

-- A property of the roster that a login and a removal keep.
pub record KeepsRoster (Q : PlayerManager → Type 0) : Type 0 where
  pub added :
      (pm : PlayerManager) (client u : ℕ) (username display : List ℕ) (elo : ℤ)
      → Q pm
      → Q (add_player pm client u username display elo).0
  pub removed : (pm : PlayerManager) (u : ℕ) → Q pm → Q (remove_player pm u).0

module _ {P : Store → Type 0} {Q : PlayerManager → Type 0} (keeps : Keeps P Q)
    (roster : KeepsRoster Q) (digest : List ℕ → List ℕ) (now fd : ℕ) where
  abbrev pub GoodDesk : Desk Store → Type 0
  GoodDesk s = IsGoodDesk P Q fd s

  pub handle_register-Good :
      (s : Desk Store) (req : RegisterRequest) (random : Option (ℕ → ℕ)) (rand : ℕ → ℕ)
      → GoodDesk s
      → GoodDesk (handle_register (user_database now) digest s req random rand).0
  unfolding handle_register execute
  handle_register-Good s req random rand g =
      let R = λ (x : Desk Store × List Event). GoodDesk x.0 in
      let hash = hash_password digest random rand req.password in
      let p = keeps.statement s.db now (creates_user req.username hash req.display_name) g.db in
      let made = Store.create_user s.db now req.username hash req.display_name in
      pick R (not s.db.is_open) _ _ g (
        pick R (Store.username_exists s.db req.username) _ _ g (
          pick R (ltb 0 made.1) _ _
            (record { db = p; players = g.players; connection = g.connection })
            (record { db = p; players = g.players; connection = g.connection })))

  login-Good :
      (s : Desk Store) (req : LoginRequest) (draws : ℕ → ℕ)
      → GoodDesk s
      → GoodDesk (login (user_database now) digest s req draws).0
  unfolding login open_session execute
  login-Good s req draws g =
      let R = λ (x : Desk Store × LoginResponse). GoodDesk x.0 in
      let user = Store.get_user_by_username s.db req.username in
      let token = generate_session_token user.user_id draws in
      let made = Store.create_session s.db now user.user_id token 24 in
      let p = keeps.statement s.db now (creates_session user.user_id token 24) g.db in
      pick R (not s.db.is_open) _ _ g (
        pick R (user.user_id == 0) _ _ g (
          pick R (not (verify_password digest req.password user.password_hash)) _ _ g (
            pick R (ltb 0 made.1) _ _
              (record {
                db = keeps.statement made.0 now (updates_last_login user.user_id) p;
                players = g.players;
                connection = g.connection;
              })
              (record { db = p; players = g.players; connection = g.connection }))))

  pub handle_login-Good :
      (s : Desk Store) (req : LoginRequest) (draws : ℕ → ℕ)
      → GoodDesk s
      → GoodDesk (handle_login (user_database now) digest s req draws).0
  unfolding handle_login
  handle_login-Good s req draws g =
      let R = λ (x : Desk Store × List Event). GoodDesk x.0 in
      let x = login (user_database now) digest s req draws in
      let g' = login-Good s req draws g in
      pick R x.1.success _ _
        (record {
          db = g'.db;
          players = roster.added x.0.players _ _ _ _ _ g'.players;
          connection = g'.connection;
        })
        g'

  sign_off-Good :
      (s : Desk Store) (user : ℕ)
      → GoodDesk s
      → GoodDesk (sign_off (user_database now) digest s user).0
  sign_off-Good s user g =
      let R = λ (x : Desk Store × List Event). GoodDesk x.0 in
      pick R (ltb 0 user) _ _
        (record {
          db = g.db;
          players = roster.removed s.players user g.players;
          connection = g.connection;
        })
        g

  pub handle_logout-Good :
      (s : Desk Store) (token : List ℕ)
      → GoodDesk s
      → GoodDesk (handle_logout (user_database now) digest s token).0
  unfolding handle_logout execute
  handle_logout-Good s token g =
      let R = λ (x : Desk Store × List Event). GoodDesk x.0 in
      let found = Store.validate_session s.db now token in
      let deleted = Store.delete_session found.0 token in
      let p =
        keeps.statement found.0 now (deletes_session token)
          (keeps.statement s.db now (validates_session token) g.db) in
      let user = if found.1 == 0 then s.client.user_id else found.1 in
      let off =
        sign_off-Good (record s { db = deleted.0 }) user
          (record { db = p; players = g.players; connection = g.connection }) in
      pick R (not s.db.is_open) _ _ g (pick R deleted.1 _ _ off off)

  pub handle_validate_session-Good :
      (s : Desk Store) (token : List ℕ)
      → GoodDesk s
      → GoodDesk (handle_validate_session (user_database now) digest s token).0
  unfolding handle_validate_session restore execute
  handle_validate_session-Good s token g =
      let R = λ (x : Desk Store × List Event). GoodDesk x.0 in
      let S = λ (x : Desk Store × SessionValidateResponse). GoodDesk x.0 in
      let x = restore (user_database now) digest s token in
      let found = Store.validate_session s.db now token in
      let p = keeps.statement s.db now (validates_session token) g.db in
      let user = Store.get_user_by_id found.0 found.1 in
      let g' : GoodDesk x.0 = pick S (not s.db.is_open) _ _ g (
        pick S (found.1 == 0) _ _
          (record { db = p; players = g.players; connection = g.connection })
          (pick S (user.user_id == 0) _ _
            (record { db = p; players = g.players; connection = g.connection })
            (record { db = p; players = g.players; connection = g.connection }))) in
      pick R x.1.valid _ _
        (record {
          db = g'.db;
          players = roster.added x.0.players _ _ _ _ _ g'.players;
          connection = g'.connection;
        })
        g'
