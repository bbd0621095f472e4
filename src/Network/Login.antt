-- ===== src/Network/Login.antt =====
-- The token from the login response to the next request, and to the session that it names.
use networkprogramming_battl.Base.{
  ℕ, ◌+◌, ◌*◌, ◌<◌, ltb, if◌then◌else◌, ℤ, true, ◌≡◌, refl, ap, ◌∙◌, some, List, [], ◌∷◌, arith,
}
use networkprogramming_battl.Base.Text.{safe_str_copy}
use networkprogramming_battl.Placements.{to_int8}
use networkprogramming_battl.Messages.{
  LoginRequest, SessionValidateResponse, login_response, session_response,
}
use networkprogramming_battl.Accounts.{Desk, login, generate_session_token}
use networkprogramming_battl.Accounts.Login.{login_iff, login_granted, login_granted_db}
use networkprogramming_battl.Accounts.Token.{generate_session_token_whole}
use networkprogramming_battl.Store
use networkprogramming_battl.Store.{Store, update_last_login, create_session, get_session_by_token}
use networkprogramming_battl.Store.Integrity.{IsConsistent}
use networkprogramming_battl.Store.Lifetime.{session_lifetime}
use networkprogramming_battl.Store.Handlers.{user_database}
use networkprogramming_battl.Network.{
  Network, PendingRequest, Request, Notice, told_login, told_session, error_of, moves, receive,
  send_move,
}
use networkprogramming_battl.Network

-- The time of the last login is no part of a session.
validate_after_login :
    (d : Store) (now user later : ℕ) (token : List ℕ)
    → (Store.validate_session (update_last_login d now user).0 later token).1
      ≡ (Store.validate_session d later token).1
unfolding Store.validate_session update_last_login
validate_after_login d now user later token = ground arith

-- A login through to the next move, where the client waits for the login on an open connection, the
-- server's database is consistent and the login succeeds: the move carries the token of the session,
-- and the server takes it for the user's until the session runs out after 24 hours.
pub login-send_move :
    (n : Network) (digest : List ℕ → List ℕ) (now later : ℕ) (s : Desk Store) (req : LoginRequest)
    (draws : ℕ → ℕ) (match_id : ℕ) (row col : ℤ)
    → n.pending_request ≡ Network.login
    → n.socket_open ≡ true
    → IsConsistent s.db
    → let x = login (user_database now) digest s req draws in
      x.1.success ≡ true
      → let user = (Store.get_user_by_username s.db req.username).user_id in
        (n' : Network) × (notices : List Notice) × (r : Request) × (receive n (login_response x.1)
          ≡ some (n', notices))
        × (send_move n' match_id row col true ≡ (n', r ∷ [], []))
        × ((Store.validate_session x.0.db later r.token).1
            ≡ (if ltb (now + 24 * 3600) later then 0 else user))
unfolding receive send_move Network.send_message
login-send_move n digest now later s req draws match_id row col p o v e =
    let x = login (user_database now) digest s req draws in
    let user = (Store.get_user_by_username s.db req.username).user_id in
    let token = generate_session_token user draws in
    let granted = login_granted (user_database now) digest s req draws e in
    let made = create_session s.db now user token 24 in
    let session : 0 < made.1 = ((login_iff (user_database now) digest s req draws).0 e).session in
    let n' : Network = record n {
      pending_request = Network.no_request;
      user_id = x.1.user_id;
      session_token = x.1.session_token;
      display_name = x.1.display_name;
      elo_rating = x.1.elo_rating;
      status = Network.authenticated;
    } in
    let r : Request = record {
      token = safe_str_copy 64 x.1.session_token;
      query = moves match_id (record { row = to_int8 row; col = to_int8 col });
    } in
    let whole : r.token ≡ token =
      ap (safe_str_copy 64) granted.1 ∙ generate_session_token_whole user draws in
    (
      n',
      told_login x.1.success x.1.user_id x.1.display_name x.1.elo_rating x.1.session_token
            (error_of x.1.success x.1.error_message)
          ∷ [],
      r,
      rw (p, e) refl,
      rw o refl,
      ap (λ t. (Store.validate_session x.0.db later t).1) whole
          ∙ (ap (λ d. (Store.validate_session d later token).1)
                (login_granted_db (user_database now) digest s req draws e)
              ∙ (validate_after_login made.0 now user later token
                  ∙ (session_lifetime s.db now user later token 24 v
                      (λ z. omega (arith, z, session))).0)),
    )

-- Where a stored session is checked, the response makes the client take the username for its token.
pub restored_token :
    (n : Network) (resp : SessionValidateResponse) (match_id : ℕ) (row col : ℤ)
    → n.pending_request ≡ Network.validate_session
    → n.socket_open ≡ true
    → resp.valid ≡ true
    → (n' : Network) × (notices : List Notice) × (r : Request) × (receive n (session_response resp)
        ≡ some (n', notices))
      × (send_move n' match_id row col true ≡ (n', r ∷ [], []))
      × (r.token ≡ safe_str_copy 64 resp.username)
unfolding receive send_move Network.send_message
restored_token n resp match_id row col p o e = (
  record n {
    pending_request = Network.no_request;
    user_id = resp.user_id;
    session_token = resp.username;
    display_name = resp.display_name;
    elo_rating = resp.elo_rating;
    status = Network.authenticated;
  },
  told_session resp.valid resp.user_id resp.username resp.display_name resp.elo_rating
        (error_of resp.valid resp.error_message)
      ∷ [],
  record {
    token = safe_str_copy 64 resp.username;
    query = moves match_id (record { row = to_int8 row; col = to_int8 col });
  },
  rw (p, e) refl,
  rw o refl,
  refl,
)
