-- ===== src/Network/Guards.antt =====
-- When the client sends what, over all states that its connection can reach.
use networkprogramming_battl.Base.{
  ℕ, ℤ, pos, Bool, true, false, length, All, ◌≡◌, refl, sym, ap, ◌∙◌, Option, none, some, List, [],
  ◌∷◌, arith,
}
use networkprogramming_battl.Base.Text.{bytes, safe_str_copy}
use networkprogramming_battl.Protocol.{Ship}
use networkprogramming_battl.Placements.{to_int8}
use networkprogramming_battl.Messages.{
  RegisterResponse, LoginResponse, ChallengeRequest, Payload, register_response, login_response,
  logout_response, session_response, player_list, ship_placement_ack,
}
use networkprogramming_battl.Network.{
  asks_register, asks_login, asks_logout, asks_validation, asks_players, challenges,
  answers_challenge, places_ships, moves, resigns, offers_draw, answers_draw, Network, Query,
  Request, Notice, told_login, Outcome, is_connected, is_authenticated, await, tell, new_network,
  connect, disconnect, connection_lost, send_message, register_user, login_user, logout_user,
  ask_validation, request_player_list, send_challenge_to, respond_to_challenge, send_ship_placement,
  send_move, send_resign, send_draw_offer, send_draw_response, receive, auth_answered,
  register_answered, login_answered, logout_answered, session_answered, handle_auth_response,
  handle_player_list_response, handle_ship_placement_ack, PendingRequest,
}
use networkprogramming_battl.Network

-- The calls that the screens make.
pub data Command : Type 0 where
  registering : List ℕ → List ℕ → List ℕ → Command
  logging_in : List ℕ → List ℕ → Command
  logging_out : Command
  validating : List ℕ → Command
  listing : Command
  challenging : ChallengeRequest → Command
  answering : ℕ → Bool → Command
  placing : ℕ → List Ship → Command
  moving : ℕ → ℤ → ℤ → Command
  resigning : ℕ → Command
  offering : ℕ → Command
  answering_offer : ℕ → Bool → Command

unfoldable pub perform : Network → Command → Bool → Outcome
unfolding register_user login_user logout_user ask_validation request_player_list send_challenge_to
    respond_to_challenge send_ship_placement send_move send_resign send_draw_offer
    send_draw_response
perform n (registering name word display) a = register_user n name word display a
perform n (logging_in name word) a = login_user n name word a
perform n logging_out a = logout_user n a
perform n (validating token) a = ask_validation n token a
perform n listing a = request_player_list n a
perform n (challenging req) a = send_challenge_to n req a
perform n (answering id reply) a = respond_to_challenge n id reply a
perform n (placing id ships) a = send_ship_placement n id ships a
perform n (moving id row col) a = send_move n id row col a
perform n (resigning id) a = send_resign n id a
perform n (offering id) a = send_draw_offer n id a
perform n (answering_offer id reply) a = send_draw_response n id reply a

-- What a message on the wire shows of its sender: a message of an account comes from a connected client,
-- a logout names the token of the client's own session, and every other message comes from a logged
-- in client and has the token of its session in the header.
abbrev pub IsEntitled : Network → Request → Type 0
IsEntitled n r = elim r.query [
  | asks_register _ ↦ is_connected n ≡ true
  | asks_login _ ↦ is_connected n ≡ true
  | asks_validation _ ↦ is_connected n ≡ true
  | asks_logout token ↦ (is_authenticated n ≡ true) × (token ≡ safe_str_copy 64 n.session_token)
  | _ ↦ (is_authenticated n ≡ true) × (r.token ≡ safe_str_copy 64 n.session_token)
]

-- The message is the one that the screen asked for, with its numbers, ships and answers.
abbrev pub IsFor : Command → Request → Type 0
IsFor (registering name word display) r =
    r.query
    ≡ asks_register (record {
      username = safe_str_copy 32 name;
      password = safe_str_copy 64 word;
      display_name = safe_str_copy 64 display;
    })
IsFor (logging_in name word) r =
    r.query
    ≡ asks_login (record { username = safe_str_copy 32 name; password = safe_str_copy 64 word })
IsFor logging_out r = elim r.query [ asks_logout _ ↦ Unit | _ ↦ ⊥ ]
IsFor (validating token) r = r.query ≡ asks_validation (safe_str_copy 64 token)
IsFor listing r = r.query ≡ asks_players
IsFor (challenging req) r = r.query ≡ challenges req
IsFor (answering id reply) r =
    r.query ≡ answers_challenge (record { challenge_id = id; accepted = reply })
IsFor (placing id ships) r = r.query ≡ places_ships id ships
IsFor (moving id row col) r = r.query ≡ moves id (record { row = to_int8 row; col = to_int8 col })
IsFor (resigning id) r = r.query ≡ resigns id
IsFor (offering id) r = r.query ≡ offers_draw (record { match_id = id })
IsFor (answering_offer id reply) r =
    r.query ≡ answers_draw (record { match_id = id; accepted = reply })

-- What happens to a client: it connects, disconnects or loses the connection, is called, and gets
-- messages while it is connected.
pub data Step : Network → Network → Type 0 where
  connects : (n : Network) (up : Bool) → Step n (connect n up).0
  disconnects : (n : Network) → Step n (disconnect n)
  loses : (n : Network) → Step n (connection_lost n)
  performs : (n : Network) (c : Command) (accepted : Bool) → Step n (perform n c accepted).0
  receives :
      (n n' : Network) (p : Payload) (notices : List Notice)
      → is_connected n ≡ true
      → receive n p ≡ some (n', notices)
      → Step n n'

pub data Reachable : Network → Type 0 where
  start : Reachable new_network
  next : {n n' : Network} → Reachable n → Step n n' → Reachable n'

-- A client that counts as connected has a socket.
abbrev IsLive : Network → Type 0
IsLive n = is_connected n ≡ true → n.socket_open ≡ true

auth_socket :
    (q : PendingRequest) (n : Network) (p : Payload)
    → (auth_answered q n p).0.socket_open ≡ n.socket_open
unfolding auth_answered register_answered login_answered logout_answered session_answered
auth_socket Network.register n (register_response r) = refl
auth_socket Network.register n _ = refl
auth_socket Network.login n (login_response r) = ground arith
auth_socket Network.login n _ = refl
auth_socket Network.logout n (logout_response b) = ground arith
auth_socket Network.logout n _ = refl
auth_socket Network.validate_session n (session_response r) = ground arith
auth_socket Network.validate_session n _ = refl
auth_socket _ n _ = refl

abbrev state_after : Network → Option (Network × List Notice) → Network
state_after n none = n
state_after n (some x) = x.0

receive_socket :
    (n : Network) (p : Payload) → (state_after n (receive n p)).socket_open ≡ n.socket_open
unfolding receive handle_auth_response handle_player_list_response handle_ship_placement_ack
receive_socket n (register_response r) = auth_socket n.pending_request _ (register_response r)
receive_socket n (login_response r) = auth_socket n.pending_request _ (login_response r)
receive_socket n (logout_response b) = auth_socket n.pending_request _ (logout_response b)
receive_socket n (session_response r) = auth_socket n.pending_request _ (session_response r)
receive_socket n (player_list r) = ground arith
receive_socket n (ship_placement_ack r) = ground arith
receive_socket n _ = refl

perform_connection :
    (n : Network) (c : Command) (a : Bool)
    → let n' = (perform n c a).0 in (n'.socket_open ≡ n.socket_open) × (n'.status ≡ n.status)
unfolding perform send_message
perform_connection n (registering name word display) a = ground arith
perform_connection n (logging_in name word) a = ground arith
perform_connection n (validating token) a = ground arith
perform_connection n logging_out a = ground arith
perform_connection n (placing id ships) a = ground arith
perform_connection n _ a = ground arith

Step-IsLive : {n n' : Network} → Step n n' → IsLive n → IsLive n'
unfolding connect disconnect connection_lost
Step-IsLive (connects n up) v = ground (arith, v)
Step-IsLive (disconnects n) v = ground (arith, v)
Step-IsLive (loses n) v = ground (arith, v)
Step-IsLive (performs n c a) v =
    let same = perform_connection n c a in
    λ on. same.0 ∙ v (ap Network.connected_status (sym same.1) ∙ on)
Step-IsLive (receives n n' p notices on e) v =
    λ _. ap (λ o. (state_after n o).socket_open) (sym e) ∙ (receive_socket n p ∙ v on)

Reachable-IsLive : (n : Network) → Reachable n → IsLive n
unfolding new_network
Reachable-IsLive _ start = λ e. ground (arith, e)
Reachable-IsLive _ (next r st) = Step-IsLive st (Reachable-IsLive _ r)

on_line : (n : Network) → is_authenticated n ≡ true → is_connected n ≡ true
on_line n e = ground (arith, e)

-- What a call does in one state, by the state of the connection.
abbrev pub IsGuarded : Network → Command → Outcome → Type 0
IsGuarded n c x =
    All (λ r. IsEntitled n r × IsFor c r) x.1
    × (is_authenticated n ≡ true → (length x.1 ≡ 1) × (x.2 ≡ []))
    × (is_connected n ≡ false → (x.0 ≡ n) × (x.1 ≡ []))

-- In every state that a client reaches, where the socket takes what it is given: each message that a call
-- sends is the one that was asked for, comes from a connected client, and, unless it is a
-- registration, a login or a validation, from a logged in one, with the token of its session in the
-- header or, for a logout, in the message. A logged in client sends exactly one message for each
-- call, and tells nothing yet; an unconnected one sends nothing and stays as it is.
pub perform-Reachable : (n : Network) (c : Command) → Reachable n → IsGuarded n c (perform n c true)
unfolding perform send_message
perform-Reachable n (registering name word display) r =
    let live = Reachable-IsLive n r in
    (ground (arith, live), λ m. ground (arith, m, live), λ m. ground (arith, m))
perform-Reachable n _ r =
    let live = Reachable-IsLive n r in
    (ground (arith, live), λ m. ground (arith, m, live), λ m. ground (arith, m))

-- Where a connected client asks for a registration and then for a login before the answers come:
-- the answer to the registration is told as a failed login, and the answer to the login is dropped,
-- so that even a successful one leaves the client as it was.
pub crossed_answers :
    (n : Network) (name word display name' word' : List ℕ) (r : RegisterResponse)
    (l : LoginResponse)
    → is_connected n ≡ true
    → n.socket_open ≡ true
    → let n' = (login_user (register_user n name word display true).0 name' word' true).0 in
      let idle = record n { pending_request = Network.no_request } in
      (receive n' (register_response r)
        ≡ some (idle, told_login false 0 [] (pos 0) [] (bytes "Invalid response from server") ∷ []))
      × (receive idle (login_response l) ≡ some (idle, []))
unfolding receive register_user login_user send_message
crossed_answers n name word display name' word' r l up o = rw (up, o, up) (refl, refl)
