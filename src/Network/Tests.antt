-- ===== src/Network/Tests.antt =====
-- The theorems on the client at a connection to a server with one user.
use networkprogramming_battl.Base.{
  ◌+◌, ◌*◌, ltb, if◌then◌else◌, pos, inl, true, false, ◌≡◌, refl, some, List, [], ◌∷◌, arith,
}
use networkprogramming_battl.Base.Text.{bytes, safe_str_copy}
use networkprogramming_battl.Messages.{
  RegisterResponse, LoginRequest, SessionValidateResponse, default_login, default_session,
  register_response, login_response, session_response,
}
use networkprogramming_battl.Passwords.{
  hash_password, generate_salt, verify_password, find_dollar, same_hash, differences, sha256,
}
use networkprogramming_battl.Passwords.Tests.{length_digest, filled, draws}
use networkprogramming_battl.Accounts.{
  Desk, login, open_session, generate_session_token, print_decimal, random_digits,
}
use networkprogramming_battl.Store.{
  Store, default_user, exists, text_eq, select, get_user_by_username, create_session,
  validate_session, update_last_login,
}
use networkprogramming_battl.Store.Integrity.{IsConsistent}
use networkprogramming_battl.Store.Tests.{small, nobody, visitor}
use networkprogramming_battl.Store.Handlers.{user_database}
use networkprogramming_battl.Network.{
  Network, Request, Notice, told_login, is_connected, is_authenticated, new_network, connect,
  receive, register_user, login_user, send_move,
}
use networkprogramming_battl.Network
use networkprogramming_battl.Network.Login.{login-send_move, restored_token}
use networkprogramming_battl.Network.Guards.{
  logging_in, perform, IsGuarded, connects, start, next, perform-Reachable, crossed_answers,
}

abbrev online : Network
online = record new_network { socket_open = true; status = Network.connected; running = true }

abbrev stored : Store
stored = record small {
  users =
      record default_user {
        user_id = 1;
        username = bytes "ann";
        password_hash = hash_password length_digest filled draws (bytes "fleet");
      }
      ∷ [];
}

abbrev ann : LoginRequest
ann = record { username = bytes "ann"; password = bytes "fleet" }

stored-IsConsistent : IsConsistent stored
unfolding exists
stored-IsConsistent = record {
  user_next = omega arith;
  session_next = omega arith;
  match_next = omega arith;
  user_ids = omega arith;
  session_ids = omega arith;
  match_ids = omega arith;
  usernames = (tt, tt);
  tokens = (tt, tt);
  session_users = (refl, tt);
  match_users = ((refl, refl, inl refl), tt);
  board_rows = tt;
  move_rows = tt;
}

abbrev at_desk : Desk Store
at_desk = record { db = stored; players = nobody; client = visitor }

logged_in : (login (user_database 500) length_digest at_desk ann draws).1.success ≡ true
unfolding login open_session hash_password generate_salt verify_password find_dollar same_hash
    differences sha256 get_user_by_username exists text_eq select create_session
    generate_session_token print_decimal random_digits update_last_login
logged_in = refl

login-send_move_example :
    let x = login (user_database 500) length_digest at_desk ann draws in
    (n' : Network) × (notices : List Notice) × (r : Request) × (receive
        (record online { pending_request = Network.login })
        (login_response x.1)
      ≡ some (n', notices))
    × (send_move n' 1 (pos 3) (pos 4) true ≡ (n', r ∷ [], []))
    × ((validate_session x.0.db 90000 r.token).1 ≡ (
        if ltb (500 + 24 * 3600) 90000
        then 0
        else (get_user_by_username stored (bytes "ann")).user_id))
login-send_move_example =
    login-send_move (record online { pending_request = Network.login }) length_digest 500 90000
      at_desk ann draws 1 (pos 3) (pos 4) refl refl stored-IsConsistent logged_in

abbrev valid : SessionValidateResponse
valid = record default_session { valid = true; user_id = 1; username = bytes "ann" }

restored_token_test :
    (n' : Network) × (notices : List Notice) × (r : Request) × (receive
        (record online { pending_request = Network.validate_session })
        (session_response valid)
      ≡ some (n', notices))
    × (send_move n' 1 (pos 3) (pos 4) true ≡ (n', r ∷ [], []))
    × (r.token ≡ safe_str_copy 64 (bytes "ann"))
restored_token_test =
    restored_token (record online { pending_request = Network.validate_session }) valid 1 (pos 3)
      (pos 4) refl refl refl

perform-Reachable_example :
    let n = (connect new_network true).0 in
    let c = logging_in (bytes "ann") (bytes "fleet") in IsGuarded n c (perform n c true)
perform-Reachable_example =
    perform-Reachable (connect new_network true).0 (logging_in (bytes "ann") (bytes "fleet"))
      (next start (connects new_network true))

abbrev registered : RegisterResponse
registered = record { success = true; user_id = 2; error_message = [] }

crossed_answers_test :
    let n' =
      (login_user
        (register_user online (bytes "bob") (bytes "fleet") (bytes "Bob") true).0
        (bytes "ann")
        (bytes "fleet")
        true).0 in
    let idle = record online { pending_request = Network.no_request } in
    (receive n' (register_response registered)
      ≡ some (idle, told_login false 0 [] (pos 0) [] (bytes "Invalid response from server") ∷ []))
    × (receive idle (login_response default_login) ≡ some (idle, []))
unfolding new_network
crossed_answers_test =
    crossed_answers online (bytes "bob") (bytes "fleet") (bytes "Bob") (bytes "ann") (bytes "fleet")
      registered default_login refl refl
