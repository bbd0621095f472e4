-- ===== src/Network/Receive.antt =====
-- What ClientNetwork does with the messages of the server (client/src/client_network.cpp). A payload
-- deserializes where it is the struct that is expected: the sizes of the structs differ.
use networkprogramming_battl.Base.{
  ℕ, zero, suc, not, leb, if◌then◌else◌, pos, Bool, true, false, Option, none, some, List, [], ◌∷◌,
}
use networkprogramming_battl.Base.Text.{bytes}
use networkprogramming_battl.Messages.{
  PlayerInfoMessage, default_player_info, PlayerListResponse, ShipPlacementAck, Payload,
  PlayerStatusUpdate, ChallengeReceived, MatchStartMessage, MatchStateMessage, MoveResultMessage,
  TurnUpdateMessage, MatchEndMessage, DrawOfferMessage, DrawResponseMessage, player_list,
  player_status_update, pong, register_response, login_response, logout_response, session_response,
  challenge_received, challenge_result, match_start, ship_placement_ack, match_ready, move_result,
  turn_update, match_end, draw_offer, draw_response,
}
use networkprogramming_battl.Network.State.{
  connected, authenticated, PendingRequest, no_request, register, login, logout, validate_session,
  ship_placement, Network, Notice, told_register, told_login, told_logout, told_session,
  told_players, told_status, told_challenge, told_start, told_placement, told_ready, told_move,
  told_turn, told_end, told_draw_offer, told_draw_response,
}

abbrev pub error_of : Bool → List ℕ → List ℕ
error_of success text = if success then [] else text

-- The four branches of handleAuthResponse
unfoldable pub register_answered : Network → Payload → Network × List Notice
register_answered n (register_response r) =
    (n, told_register r.success r.user_id (error_of r.success r.error_message) ∷ [])
register_answered n _ = (n, told_register false 0 (bytes "Invalid response from server") ∷ [])

unfoldable pub login_answered : Network → Payload → Network × List Notice
login_answered n (login_response r) = (
  if r.success
      then record n {
        user_id = r.user_id;
        session_token = r.session_token;
        display_name = r.display_name;
        elo_rating = r.elo_rating;
        status = authenticated;
      }
      else n,
  told_login r.success r.user_id r.display_name r.elo_rating r.session_token
        (error_of r.success r.error_message)
      ∷ [],
)
login_answered n _ =
    (n, told_login false 0 [] (pos 0) [] (bytes "Invalid response from server") ∷ [])

unfoldable pub logout_answered : Network → Payload → Network × List Notice
logout_answered n (logout_response success) = (
  if success
      then record n {
        user_id = 0;
        session_token = [];
        display_name = [];
        elo_rating = pos 0;
        status = connected;
      }
      else n,
  told_logout success ∷ [],
)
logout_answered n _ = (n, told_logout false ∷ [])

-- The token is replaced by the username.
unfoldable pub session_answered : Network → Payload → Network × List Notice
session_answered n (session_response r) = (
  if r.valid
      then record n {
        user_id = r.user_id;
        session_token = r.username;
        display_name = r.display_name;
        elo_rating = r.elo_rating;
        status = authenticated;
      }
      else n,
  told_session r.valid r.user_id r.username r.display_name r.elo_rating
        (error_of r.valid r.error_message)
      ∷ [],
)
session_answered n _ =
    (n, told_session false 0 [] [] (pos 0) (bytes "Invalid response from server") ∷ [])

unfoldable pub auth_answered : PendingRequest → Network → Payload → Network × List Notice
unfolding register_answered login_answered logout_answered session_answered
auth_answered register n p = register_answered n p
auth_answered login n p = login_answered n p
auth_answered logout n p = logout_answered n p
auth_answered validate_session n p = session_answered n p
auth_answered _ n p = (n, [])

-- The header of all four responses is AUTH_RESPONSE: what it answers is what the client waits for.
unfoldable pub handle_auth_response : Network → Payload → Network × List Notice
unfolding auth_answered
handle_auth_response n p =
    auth_answered n.pending_request (record n { pending_request = no_request }) p

-- the loop over the array of players, which holds default entries behind the filled ones
unfoldable pub copy_players : ℕ → List PlayerInfoMessage → List PlayerInfoMessage
copy_players zero players = []
copy_players (suc n) [] = default_player_info ∷ copy_players n []
copy_players (suc n) (x ∷ xs) = x ∷ copy_players n xs

abbrev pub lists_players : PendingRequest → Bool
lists_players PendingRequest.player_list = true
lists_players _ = false

abbrev pub places_fleet : PendingRequest → Bool
places_fleet ship_placement = true
places_fleet _ = false

-- `none` is a read behind the array of 100 players
unfoldable pub handle_player_list_response :
    Network → PlayerListResponse → Option (Network × List Notice)
unfolding copy_players
handle_player_list_response n r =
    if not (lists_players n.pending_request)
    then some (n, [])
    else if leb r.count 100
    then some (
      record n { pending_request = no_request },
      told_players true (copy_players r.count r.players) ∷ [],
    )
    else none

unfoldable pub handle_ship_placement_ack : Network → ShipPlacementAck → Network × List Notice
handle_ship_placement_ack n r =
    if places_fleet n.pending_request
    then (record n { pending_request = no_request }, told_placement r.valid r.error_message ∷ [])
    else (n, [])

-- The handlers that tell a callback, and change no more than the match or the elo rating.
abbrev pub handle_player_status_update : Network → PlayerStatusUpdate → Network × List Notice
handle_player_status_update n r = (n, told_status r ∷ [])

abbrev pub handle_challenge_received : Network → ChallengeReceived → Network × List Notice
handle_challenge_received n r = (n, told_challenge r ∷ [])

abbrev pub handle_match_start : Network → MatchStartMessage → Network × List Notice
handle_match_start n r = (record n { current_match_id = r.match_id }, told_start r ∷ [])

abbrev pub handle_match_ready : Network → MatchStateMessage → Network × List Notice
handle_match_ready n r = (n, told_ready r ∷ [])

abbrev pub handle_move_result : Network → MoveResultMessage → Network × List Notice
handle_move_result n r = (n, told_move r ∷ [])

abbrev pub handle_turn_update : Network → TurnUpdateMessage → Network × List Notice
handle_turn_update n r = (n, told_turn r ∷ [])

abbrev pub handle_match_end : Network → MatchEndMessage → Network × List Notice
handle_match_end n r = (record n { elo_rating = r.new_elo }, told_end r ∷ [])

abbrev pub draw_offered : Network → DrawOfferMessage → Network × List Notice
draw_offered n r = (n, told_draw_offer r.match_id ∷ [])

abbrev pub draw_answered : Network → DrawResponseMessage → Network × List Notice
draw_answered n r = (n, told_draw_response r.accepted ∷ [])

-- one round of receiveLoop; it has no case for a challenge result
unfoldable pub receive : Network → Payload → Option (Network × List Notice)
unfolding handle_auth_response handle_player_list_response handle_ship_placement_ack
receive n (register_response r) = some (handle_auth_response n (register_response r))
receive n (login_response r) = some (handle_auth_response n (login_response r))
receive n (logout_response b) = some (handle_auth_response n (logout_response b))
receive n (session_response r) = some (handle_auth_response n (session_response r))
receive n (player_list r) = handle_player_list_response n r
receive n (player_status_update r) = some (handle_player_status_update n r)
receive n (challenge_received r) = some (handle_challenge_received n r)
receive n (challenge_result r) = some (n, [])
receive n (match_start r) = some (handle_match_start n r)
receive n (ship_placement_ack r) = some (handle_ship_placement_ack n r)
receive n (match_ready r) = some (handle_match_ready n r)
receive n (move_result r) = some (handle_move_result n r)
receive n (turn_update r) = some (handle_turn_update n r)
receive n (match_end r) = some (handle_match_end n r)
receive n (draw_offer r) = some (draw_offered n r)
receive n (draw_response r) = some (draw_answered n r)
receive n pong = some (n, [])
