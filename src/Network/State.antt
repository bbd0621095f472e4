-- ===== src/Network/State.antt =====
-- The state of ClientNetwork, and its connection (client/src/client_network.cpp).
use networkprogramming_battl.Base.{
  ℕ, if◌then◌else◌, ℤ, pos, Bool, true, false, not, ◌&&◌, List, [], ◌∷◌,
}
use networkprogramming_battl.Base.Text.{bytes}
use networkprogramming_battl.Protocol.{Coordinate, Ship}
use networkprogramming_battl.Messages.{
  RegisterRequest, LoginRequest, ChallengeRequest, ChallengeResponse, DrawOfferMessage,
  DrawResponseMessage, PlayerInfoMessage, PlayerStatusUpdate, ChallengeReceived, MatchStartMessage,
  MatchStateMessage, MoveResultMessage, TurnUpdateMessage, MatchEndMessage,
}

pub data ConnectionStatus : Type 0 where
  disconnected connecting connected authentication_pending authenticated error_state :
      ConnectionStatus

pub data PendingRequest : Type 0 where
  no_request register login logout validate_session player_list send_challenge ship_placement :
      PendingRequest

pub record Network : Type 0 where
  pub socket_open : Bool
  pub status : ConnectionStatus
  pub user_id : ℕ
  pub session_token : List ℕ
  pub display_name : List ℕ
  pub elo_rating : ℤ
  pub running : Bool
  pub pending_request : PendingRequest
  pub current_match_id : ℕ

-- What the client asks of the server.
pub data Query : Type 0 where
  asks_register : RegisterRequest → Query
  asks_login : LoginRequest → Query
  asks_logout : List ℕ → Query
  asks_validation : List ℕ → Query
  asks_players : Query
  challenges : ChallengeRequest → Query
  answers_challenge : ChallengeResponse → Query
  places_ships : ℕ → List Ship → Query
  moves : ℕ → Coordinate → Query
  resigns : ℕ → Query
  offers_draw : DrawOfferMessage → Query
  answers_draw : DrawResponseMessage → Query

-- A message on its way to the server, with the token of its header.
pub record Request : Type 0 where
  pub token : List ℕ
  pub query : Query

-- What a callback is told.
pub data Notice : Type 0 where
  told_connection : Bool → List ℕ → Notice
  told_register : Bool → ℕ → List ℕ → Notice
  told_login : Bool → ℕ → List ℕ → ℤ → List ℕ → List ℕ → Notice
  told_logout : Bool → Notice
  told_session : Bool → ℕ → List ℕ → List ℕ → ℤ → List ℕ → Notice
  told_players : Bool → List PlayerInfoMessage → Notice
  told_challenge_sent : Bool → List ℕ → Notice
  told_status : PlayerStatusUpdate → Notice
  told_challenge : ChallengeReceived → Notice
  told_start : MatchStartMessage → Notice
  told_placement : Bool → List ℕ → Notice
  told_ready : MatchStateMessage → Notice
  told_move : MoveResultMessage → Notice
  told_turn : TurnUpdateMessage → Notice
  told_end : MatchEndMessage → Notice
  told_draw_offer : ℕ → Notice
  told_draw_response : Bool → Notice

-- ClientNetwork::ClientNetwork
unfoldable pub new_network : Network
new_network = record {
  socket_open = false;
  status = disconnected;
  user_id = 0;
  session_token = [];
  display_name = [];
  elo_rating = pos 0;
  running = false;
  pending_request = no_request;
  current_match_id = 0;
}

abbrev pub connected_status : ConnectionStatus → Bool
connected_status connected = true
connected_status authenticated = true
connected_status _ = false

abbrev pub authenticated_status : ConnectionStatus → Bool
authenticated_status authenticated = true
authenticated_status _ = false

abbrev pub connecting_status : ConnectionStatus → Bool
connecting_status connecting = true
connecting_status _ = false

abbrev pub is_connected : Network → Bool
is_connected n = connected_status n.status

abbrev pub is_authenticated : Network → Bool
is_authenticated n = authenticated_status n.status

-- connect, where `connects` is the answer of connectSocket
unfoldable pub connect : Network → Bool → Network × List Notice × Bool
connect n connects =
    if is_connected n
    then (n, told_connection false (bytes "Already connected") ∷ [], false)
    else if connects
    then (
      record n { socket_open = true; status = connected; running = true },
      told_connection true [] ∷ [],
      true,
    )
    else (
      record n { socket_open = false; status = error_state },
      told_connection false (bytes "Failed to connect to server") ∷ [],
      false,
    )

unfoldable pub disconnect : Network → Network
disconnect n = if not (is_connected n) && not (connecting_status n.status) then n else record n {
  running = false;
  socket_open = false;
  status = disconnected;
  user_id = 0;
  session_token = [];
  display_name = [];
  elo_rating = pos 0;
  pending_request = no_request;
}

-- sendMessage, where `accepted` says that the socket takes the header and the payload whole
unfoldable pub send_message : Network → Bool → Bool
send_message n accepted = if n.socket_open then accepted else false

-- receiveLoop when the connection breaks
unfoldable pub connection_lost : Network → Network
connection_lost n = if n.running then record n { status = error_state } else n
