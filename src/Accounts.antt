-- ===== src/Accounts.antt =====
-- AuthHandler (server/include/auth_handler.h, server/src/auth_handler.cpp).
-- The user store behind DatabaseManager is the record `UserDatabase` of its operations, the digest
-- that of SHA256; the random numbers are arguments. The texts of a request are the C strings in its
-- arrays. A payload that does not deserialize is answered by nothing and is left out.
pub mod Token
pub mod Login
mod Tests
use networkprogramming_battl.Base.{
  ℕ, zero, suc, ◌+◌, ◌/◌, ◌%◌, ltb, ◌==◌, if◌then◌else◌, ℤ, not, Bool, true, false, Option, List,
  [], ◌∷◌, ◌++◌,
}
use networkprogramming_battl.Base.Text.{bytes, safe_str_copy}
use networkprogramming_battl.Messages.{
  RegisterRequest, RegisterResponse, LoginRequest, LoginResponse, default_login,
  SessionValidateResponse, default_session, Payload, register_response, login_response,
  logout_response, session_response, Event, send,
}
use networkprogramming_battl.Players.{PlayerManager, add_player, remove_player}
use networkprogramming_battl.Placements.{digit}
use networkprogramming_battl.Passwords.{hex_digit, hash_password, verify_password}

pub record User : Type 0 where
  pub user_id : ℕ
  pub username : List ℕ
  pub password_hash : List ℕ
  pub display_name : List ℕ
  pub elo_rating : ℤ
  pub created_at : ℕ
  pub last_login : ℕ

-- What the handler asks of the database. A user or a session with the id 0 is none.
pub record UserDatabase : Type 1 where
  pub Db : Type 0
  pub is_open : Db → Bool
  pub username_exists : Db → List ℕ → Bool
  pub create_user : Db → List ℕ → List ℕ → List ℕ → Db × ℕ
  pub get_user_by_username : Db → List ℕ → User
  pub get_user_by_id : Db → ℕ → User
  pub create_session : Db → ℕ → List ℕ → ℕ → Db × ℕ
  pub update_last_login : Db → ℕ → Db
  -- it deletes a session that has expired
  pub validate_session : Db → List ℕ → Db × ℕ
  pub delete_session : Db → List ℕ → Db × Bool

-- the part of ClientConnection that says who the client is
pub record Client : Type 0 where
  pub connection : ℕ
  pub authenticated : Bool
  pub user_id : ℕ
  pub session_token : List ℕ

abbrev pub set_authenticated : Client → ℕ → List ℕ → Client
set_authenticated c user token = record c {
  authenticated = true;
  user_id = user;
  session_token = token;
}

-- The database, the players, and the client who sent the message.
pub record Desk (Db : Type 0) : Type 0 where
  pub db : Db
  pub players : PlayerManager
  pub client : Client

-- a uint32_t as a stream prints it, which has ten digits at most
unfoldable pub print_decimal : ℕ → ℕ → List ℕ
print_decimal zero n = digit n ∷ []
print_decimal (suc k) n =
    let front = print_decimal k (n / 10) in if ltb n 10 then digit n ∷ [] else front ++ digit n ∷ []

-- the loop over the hexadecimal digits from the i-th on; the distribution draws below 16
unfoldable pub random_digits : (ℕ → ℕ) → ℕ → ℕ → List ℕ
random_digits draws i zero = []
random_digits draws i (suc n) = hex_digit (draws i % 16) ∷ random_digits draws (i + 1) n

unfoldable pub generate_session_token : ℕ → (ℕ → ℕ) → List ℕ
generate_session_token user draws =
    bytes "token_" ++ (print_decimal 9 user ++ b'_' ∷ random_digits draws 0 32)

abbrev pub not_registered : List ℕ → RegisterResponse
not_registered text = record {
  success = false;
  user_id = 0;
  error_message = safe_str_copy 128 text;
}

abbrev pub not_logged_in : List ℕ → LoginResponse
not_logged_in text = record default_login { error_message = safe_str_copy 128 text }

abbrev pub not_valid : List ℕ → SessionValidateResponse
not_valid text = record default_session { error_message = safe_str_copy 128 text }

abbrev pub reply : Client → Payload → Event
reply c payload = send c.connection true payload

module _ (database : UserDatabase) (digest : List ℕ → List ℕ) where
  open database use {
    Db, is_open, username_exists, create_user, get_user_by_username, get_user_by_id, create_session,
    update_last_login, validate_session, delete_session,
  }

  unfoldable pub handle_register :
      Desk Db → RegisterRequest → Option (ℕ → ℕ) → (ℕ → ℕ) → Desk Db × List Event
  handle_register s req random rand =
      let answer = λ (resp : RegisterResponse). reply s.client (register_response resp) ∷ [] in
      let made =
        create_user s.db req.username (hash_password digest random rand req.password)
          req.display_name in
      if not (is_open s.db)
      then (s, answer (not_registered (bytes "Database error")))
      else if username_exists s.db req.username
      then (s, answer (not_registered (bytes "Username already exists")))
      else if ltb 0 made.1
      then (
        record s { db = made.0 },
        answer (record { success = true; user_id = made.1; error_message = [] }),
      )
      else (record s { db = made.0 }, answer (not_registered (bytes "Failed to create user")))

  -- the branch of handleLogin for the right password
  unfoldable pub open_session : Desk Db → User → (ℕ → ℕ) → Desk Db × LoginResponse
  open_session s user draws =
      let token = generate_session_token user.user_id draws in
      let made = create_session s.db user.user_id token 24 in
      let resp : LoginResponse = record {
        success = true;
        user_id = user.user_id;
        session_token = safe_str_copy 64 token;
        display_name = safe_str_copy 64 user.display_name;
        elo_rating = user.elo_rating;
        error_message = [];
      } in
      if ltb 0 made.1
      then (
        record s {
          db = update_last_login made.0 user.user_id;
          client = set_authenticated s.client user.user_id token;
        },
        resp,
      )
      else (
        record s { db = made.0 },
        record resp {
          success = false;
          error_message = safe_str_copy 128 (bytes "Failed to create session");
        },
      )

  -- handleLogin up to the response
  unfoldable pub login : Desk Db → LoginRequest → (ℕ → ℕ) → Desk Db × LoginResponse
  unfolding open_session
  login s req draws =
      let user = get_user_by_username s.db req.username in
      if not (is_open s.db)
      then (s, not_logged_in (bytes "Database error"))
      else if user.user_id == 0
      then (s, not_logged_in (bytes "User not found"))
      else if not (verify_password digest req.password user.password_hash)
      then (s, not_logged_in (bytes "Invalid password"))
      else open_session s user draws

  unfoldable pub handle_login : Desk Db → LoginRequest → (ℕ → ℕ) → Desk Db × List Event
  unfolding login
  handle_login s req draws =
      let user = get_user_by_username s.db req.username in
      let x = login s req draws in
      let added =
        add_player x.0.players x.0.client.connection x.1.user_id user.username user.display_name
          x.1.elo_rating in
      if x.1.success
      then (record x.0 { players = added.0 }, reply s.client (login_response x.1) ∷ added.1)
      else (x.0, reply s.client (login_response x.1) ∷ [])

  -- both branches of handleLogout remove the player
  abbrev pub sign_off : Desk Db → ℕ → Desk Db × List Event
  sign_off s user =
      if ltb 0 user
      then (
        record s { players = (remove_player s.players user).0 },
        (remove_player s.players user).1 ++ reply s.client (logout_response true) ∷ [],
      )
      else (s, reply s.client (logout_response true) ∷ [])

  unfoldable pub handle_logout : Desk Db → List ℕ → Desk Db × List Event
  handle_logout s token =
      let found = validate_session s.db token in
      let user = if found.1 == 0 then s.client.user_id else found.1 in
      let deleted = delete_session found.0 token in
      let s' : Desk Db = record s { db = deleted.0 } in
      if not (is_open s.db)
      then (s, reply s.client (logout_response false) ∷ [])
      else if deleted.1
      then sign_off s' user
      else sign_off s' user

  -- handleValidateSession up to the response
  unfoldable pub restore : Desk Db → List ℕ → Desk Db × SessionValidateResponse
  restore s token =
      let found = validate_session s.db token in
      let s' : Desk Db = record s { db = found.0 } in
      let user = get_user_by_id found.0 found.1 in
      if not (is_open s.db)
      then (s, not_valid (bytes "Database error"))
      else if found.1 == 0
      then (s', not_valid (bytes "Session expired or invalid"))
      else if user.user_id == 0
      then (s', not_valid (bytes "User not found"))
      else (
        record s' { client = set_authenticated s.client found.1 token },
        record {
          valid = true;
          user_id = user.user_id;
          username = safe_str_copy 32 user.username;
          display_name = safe_str_copy 64 user.display_name;
          elo_rating = user.elo_rating;
          error_message = [];
        },
      )

  unfoldable pub handle_validate_session : Desk Db → List ℕ → Desk Db × List Event
  unfolding restore
  handle_validate_session s token =
      let x = restore s token in
      let added =
        add_player x.0.players x.0.client.connection x.1.user_id x.1.username x.1.display_name
          x.1.elo_rating in
      if x.1.valid
      then (record x.0 { players = added.0 }, reply s.client (session_response x.1) ∷ added.1)
      else (x.0, reply s.client (session_response x.1) ∷ [])
