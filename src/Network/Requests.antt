-- ===== src/Network/Requests.antt =====
-- The requests of ClientNetwork (client/src/client_network.cpp). Each gives the new state, what is
-- sent, and what the callback is told.
use networkprogramming_battl.Base.{ℕ, if◌then◌else◌, ℤ, pos, Bool, false, not, List, [], ◌∷◌}
use networkprogramming_battl.Base.Text.{bytes, safe_str_copy}
use networkprogramming_battl.Protocol.{Ship}
use networkprogramming_battl.Placements.{to_int8}
use networkprogramming_battl.Messages.{RegisterRequest, LoginRequest, ChallengeRequest}
use networkprogramming_battl.Network.State.{
  PendingRequest, no_request, register, login, logout, validate_session, player_list,
  send_challenge, ship_placement, Network, Query, asks_register, asks_login, asks_logout,
  asks_validation, asks_players, challenges, answers_challenge, places_ships, moves, resigns,
  offers_draw, answers_draw, Request, Notice, told_register, told_login, told_logout, told_session,
  told_players, told_challenge_sent, told_placement, is_connected, is_authenticated, send_message,
}

abbrev pub Outcome : Type 0
Outcome = Network × List Request × List Notice

-- The request that waits for an answer is noted before it is sent, and forgotten if that fails.
pub await : Network → PendingRequest → List ℕ → Query → Notice → Bool → Outcome
await n pending token query failed accepted =
    if send_message n accepted
    then (record n { pending_request = pending }, record { token = token; query = query } ∷ [], [])
    else (record n { pending_request = no_request }, [], failed ∷ [])

-- The messages of a match, which wait for no answer.
pub tell : Network → Query → Bool → Outcome
tell n query accepted =
    if not (is_authenticated n)
    then (n, [], [])
    else if send_message n accepted
    then (n, record { token = safe_str_copy 64 n.session_token; query = query } ∷ [], [])
    else (n, [], [])

unfoldable pub register_user : Network → List ℕ → List ℕ → List ℕ → Bool → Outcome
unfolding await
register_user n username password display_name accepted =
    let req : RegisterRequest = record {
      username = safe_str_copy 32 username;
      password = safe_str_copy 64 password;
      display_name = safe_str_copy 64 display_name;
    } in
    if not (is_connected n)
    then (n, [], told_register false 0 (bytes "Not connected to server") ∷ [])
    else await n register [] (asks_register req)
        (told_register false 0 (bytes "Failed to send request")) accepted

unfoldable pub login_user : Network → List ℕ → List ℕ → Bool → Outcome
unfolding await
login_user n username password accepted =
    let req : LoginRequest = record {
      username = safe_str_copy 32 username;
      password = safe_str_copy 64 password;
    } in
    if not (is_connected n)
    then (n, [], told_login false 0 [] (pos 0) [] (bytes "Not connected to server") ∷ [])
    else await n login [] (asks_login req)
        (told_login false 0 [] (pos 0) [] (bytes "Failed to send request")) accepted

unfoldable pub logout_user : Network → Bool → Outcome
unfolding await
logout_user n accepted =
    if not (is_authenticated n)
    then (n, [], told_logout false ∷ [])
    else await n logout [] (asks_logout (safe_str_copy 64 n.session_token)) (told_logout false)
        accepted

unfoldable pub ask_validation : Network → List ℕ → Bool → Outcome
unfolding await
ask_validation n token accepted =
    if not (is_connected n)
    then (n, [], told_session false 0 [] [] (pos 0) (bytes "Not connected to server") ∷ [])
    else await n validate_session [] (asks_validation (safe_str_copy 64 token))
        (told_session false 0 [] [] (pos 0) (bytes "Failed to send request")) accepted

unfoldable pub request_player_list : Network → Bool → Outcome
unfolding await
request_player_list n accepted =
    if not (is_authenticated n)
    then (n, [], told_players false [] ∷ [])
    else await n player_list (safe_str_copy 64 n.session_token) asks_players (told_players false [])
        accepted

unfoldable pub send_challenge_to : Network → ChallengeRequest → Bool → Outcome
unfolding await
send_challenge_to n req accepted =
    if not (is_authenticated n)
    then (n, [], told_challenge_sent false (bytes "Not authenticated") ∷ [])
    else await n send_challenge (safe_str_copy 64 n.session_token) (challenges req)
        (told_challenge_sent false (bytes "Failed to send challenge")) accepted

unfoldable pub respond_to_challenge : Network → ℕ → Bool → Bool → Outcome
unfolding tell
respond_to_challenge n challenge_id accept accepted =
    tell n (answers_challenge (record { challenge_id = challenge_id; accepted = accept })) accepted

unfoldable pub send_ship_placement : Network → ℕ → List Ship → Bool → Outcome
unfolding await
send_ship_placement n match_id ships accepted =
    if not (is_authenticated n)
    then (n, [], told_placement false (bytes "Not authenticated") ∷ [])
    else await (record n { current_match_id = match_id }) ship_placement
        (safe_str_copy 64 n.session_token) (places_ships match_id ships)
        (told_placement false (bytes "Failed to send ship placement")) accepted

unfoldable pub send_move : Network → ℕ → ℤ → ℤ → Bool → Outcome
unfolding tell
send_move n match_id row col accepted =
    tell n (moves match_id (record { row = to_int8 row; col = to_int8 col })) accepted

unfoldable pub send_resign : Network → ℕ → Bool → Outcome
unfolding tell
send_resign n match_id accepted = tell n (resigns match_id) accepted

unfoldable pub send_draw_offer : Network → ℕ → Bool → Outcome
unfolding tell
send_draw_offer n match_id accepted = tell n (offers_draw (record { match_id = match_id })) accepted

unfoldable pub send_draw_response : Network → ℕ → Bool → Bool → Outcome
unfolding tell
send_draw_response n match_id accept accepted =
    tell n (answers_draw (record { match_id = match_id; accepted = accept })) accepted
