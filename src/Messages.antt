-- ===== src/Messages.antt =====
-- The messages of common/include/messages/ that the server sends, with the header fields that
-- depend on the code: the type, and the length where the sender stores one.
use networkprogramming_battl.Base.{ℕ, ℤ, pos, Bool, false, List, []}
use networkprogramming_battl.Protocol.{
  Coordinate, PlayerStatus, offline, GameResult, MatchEndReason, ShotResult,
}

pub record PlayerInfoMessage : Type 0 where
  pub user_id : ℕ
  pub username : List ℕ
  pub display_name : List ℕ
  pub elo_rating : ℤ
  pub status : PlayerStatus

-- PlayerInfo_Message::PlayerInfo_Message
abbrev pub default_player_info : PlayerInfoMessage
default_player_info = record {
  user_id = 0;
  username = [];
  display_name = [];
  elo_rating = pos 1000;
  status = offline;
}

pub record PlayerStatusUpdate : Type 0 where
  pub user_id : ℕ
  pub status : PlayerStatus
  pub display_name : List ℕ
  pub elo_rating : ℤ

pub record ChallengeRequest : Type 0 where
  pub target_user_id : ℕ
  pub time_limit : ℕ
  pub random_placement : Bool

pub record ChallengeReceived : Type 0 where
  pub challenge_id : ℕ
  pub challenger_id : ℕ
  pub challenger_name : List ℕ
  pub challenger_elo : ℤ
  pub time_limit : ℕ
  pub random_placement : Bool
  pub expires_at : ℕ

pub record ChallengeResponse : Type 0 where
  pub challenge_id : ℕ
  pub accepted : Bool

pub record ChallengeResult : Type 0 where
  pub challenge_id : ℕ
  pub success : Bool
  pub match_id : ℕ
  pub error_message : List ℕ

-- ChallengeResult::ChallengeResult
abbrev pub default_result : ChallengeResult
default_result = record { challenge_id = 0; success = false; match_id = 0; error_message = [] }

pub record MatchStartMessage : Type 0 where
  pub match_id : ℕ
  pub opponent_id : ℕ
  pub opponent_name : List ℕ
  pub opponent_elo : ℤ
  pub time_limit : ℕ
  pub you_go_first : Bool

pub record ShipPlacementAck : Type 0 where
  pub match_id : ℕ
  pub valid : Bool
  pub error_message : List ℕ

pub record MoveResultMessage : Type 0 where
  pub match_id : ℕ
  pub shooter_id : ℕ
  pub target : Coordinate
  pub result : ShotResult
  pub ship_sunk : ℕ
  pub ships_remaining : ℕ
  pub game_over : Bool
  pub winner_id : ℕ

pub record TurnUpdateMessage : Type 0 where
  pub match_id : ℕ
  pub current_player_id : ℕ
  pub turn_number : ℕ
  pub time_left : ℕ

pub record MatchStateMessage : Type 0 where
  pub match_id : ℕ
  pub player1_id : ℕ
  pub player2_id : ℕ
  pub current_turn_player_id : ℕ
  pub turn_number : ℕ
  pub is_active : Bool
  pub is_paused : Bool

pub record MatchEndMessage : Type 0 where
  pub match_id : ℕ
  pub result : GameResult
  pub winner_id : ℕ
  pub reason : MatchEndReason
  pub elo_change : ℤ
  pub new_elo : ℤ
  pub total_moves : ℕ
  pub duration : ℕ
  pub reason_text : List ℕ

pub record DrawOfferMessage : Type 0 where
  pub match_id : ℕ

pub record DrawResponseMessage : Type 0 where
  pub match_id : ℕ
  pub accepted : Bool

pub record RegisterRequest : Type 0 where
  pub username : List ℕ
  pub password : List ℕ
  pub display_name : List ℕ

pub record RegisterResponse : Type 0 where
  pub success : Bool
  pub user_id : ℕ
  pub error_message : List ℕ

pub record LoginRequest : Type 0 where
  pub username : List ℕ
  pub password : List ℕ

pub record LoginResponse : Type 0 where
  pub success : Bool
  pub user_id : ℕ
  pub session_token : List ℕ
  pub display_name : List ℕ
  pub elo_rating : ℤ
  pub error_message : List ℕ

-- LoginResponse::LoginResponse
abbrev pub default_login : LoginResponse
default_login = record {
  success = false;
  user_id = 0;
  session_token = [];
  display_name = [];
  elo_rating = pos 1000;
  error_message = [];
}

pub record SessionValidateResponse : Type 0 where
  pub valid : Bool
  pub user_id : ℕ
  pub username : List ℕ
  pub display_name : List ℕ
  pub elo_rating : ℤ
  pub error_message : List ℕ

-- SessionValidateResponse::SessionValidateResponse
abbrev pub default_session : SessionValidateResponse
default_session = record {
  valid = false;
  user_id = 0;
  username = [];
  display_name = [];
  elo_rating = pos 1000;
  error_message = [];
}

-- `players` holds the entries of the array that are filled
pub record PlayerListResponse : Type 0 where
  pub count : ℕ
  pub players : List PlayerInfoMessage

pub data Payload : Type 0 where
  player_list : PlayerListResponse → Payload
  player_status_update : PlayerStatusUpdate → Payload
  pong : Payload
  register_response : RegisterResponse → Payload
  login_response : LoginResponse → Payload
  logout_response : Bool → Payload
  session_response : SessionValidateResponse → Payload
  challenge_received : ChallengeReceived → Payload
  challenge_result : ChallengeResult → Payload
  match_start : MatchStartMessage → Payload
  ship_placement_ack : ShipPlacementAck → Payload
  match_ready : MatchStateMessage → Payload
  move_result : MoveResultMessage → Payload
  turn_update : TurnUpdateMessage → Payload
  match_end : MatchEndMessage → Payload
  draw_offer : DrawOfferMessage → Payload
  draw_response : DrawResponseMessage → Payload

-- What leaves the server: a status update to all clients, or a message to one connection. The flag
-- says whether the sender stored the length in the header, which it declares uninitialised.
pub data Event : Type 0 where
  broadcast : PlayerStatusUpdate → Event
  send : ℕ → Bool → Payload → Event
