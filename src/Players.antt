-- ===== src/Players.antt =====
-- PlayerManager (server/include/player_manager.h, server/src/player_manager.cpp).
-- A client connection is a number; the server's running flag is a field, since the manager reads it
-- through `server_`. What is broadcast is returned beside the new state.
pub mod Roster
mod Tests
use networkprogramming_battl.Base.{
  ℕ, ◌==◌, if◌then◌else◌, ℤ, pos, Bool, true, false, Option, none, some, List, [], ◌∷◌,
}
use networkprogramming_battl.Base.Map.{Map, find, insert, erase, modify}
use networkprogramming_battl.Base.Text.{safe_str_copy}
use networkprogramming_battl.Protocol.{PlayerStatus, offline, online, available, in_game, busy}
use networkprogramming_battl.Messages.{
  PlayerInfoMessage, default_player_info, PlayerStatusUpdate, Event, broadcast,
}

pub record PlayerData : Type 0 where
  pub user_id : ℕ
  pub username : List ℕ
  pub display_name : List ℕ
  pub elo_rating : ℤ
  pub status : PlayerStatus
  pub client : ℕ

pub record PlayerManager : Type 0 where
  pub players : Map PlayerData
  pub server_running : Bool

abbrev pub is_available : PlayerStatus → Bool
is_available available = true
is_available _ = false

-- the lines that copy a player's data into a message
abbrev pub info_of : PlayerData → PlayerInfoMessage
info_of data' = record {
  user_id = data'.user_id;
  username = safe_str_copy 32 data'.username;
  display_name = safe_str_copy 64 data'.display_name;
  elo_rating = data'.elo_rating;
  status = data'.status;
}

unfoldable pub get_player_status : PlayerManager → ℕ → PlayerStatus
get_player_status pm u = elim (find u pm.players) [ none ↦ offline | some d ↦ d.status ]

unfoldable pub get_player_info : PlayerManager → ℕ → PlayerInfoMessage
get_player_info pm u = elim (find u pm.players) [ none ↦ default_player_info | some d ↦ info_of d ]

unfoldable pub get_client_connection : PlayerManager → ℕ → Option ℕ
get_client_connection pm u = elim (find u pm.players) [ none ↦ none | some d ↦ some d.client ]

unfoldable pub is_player_online : PlayerManager → ℕ → Bool
is_player_online pm u = elim (find u pm.players) [ none ↦ false | some _ ↦ true ]

-- the loops of getOnlinePlayers and getAvailablePlayers
abbrev pub online_infos : Map PlayerData → List PlayerInfoMessage
online_infos [] = []
online_infos ((k, d) ∷ m) = info_of d ∷ online_infos m

abbrev pub available_infos : Map PlayerData → List PlayerInfoMessage
available_infos [] = []
available_infos ((k, d) ∷ m) =
    if is_available d.status then info_of d ∷ available_infos m else available_infos m

unfoldable pub get_online_players : PlayerManager → List PlayerInfoMessage
get_online_players pm = online_infos pm.players

pub get_available_players : PlayerManager → List PlayerInfoMessage
get_available_players pm = available_infos pm.players

-- the message that broadcastPlayerStatusUpdate makes
pub status_update : PlayerManager → ℕ → PlayerStatus → PlayerStatusUpdate
status_update pm u status = elim (find u pm.players) [
  | none ↦ record {
    user_id = u;
    status = offline;
    display_name = safe_str_copy 64 default_player_info.display_name;
    elo_rating = default_player_info.elo_rating;
  }
  | some d ↦ record {
    user_id = d.user_id;
    status = status;
    display_name = safe_str_copy 64 (safe_str_copy 64 d.display_name);
    elo_rating = d.elo_rating;
  }
]

unfoldable pub broadcast_player_status_update : PlayerManager → ℕ → PlayerStatus → List Event
unfolding status_update
broadcast_player_status_update pm u status =
    if pm.server_running then broadcast (status_update pm u status) ∷ [] else []

unfoldable pub add_player : PlayerManager → ℕ → ℕ → List ℕ → List ℕ → ℤ → PlayerManager × List Event
add_player pm client u username display_name elo =
    let pm' : PlayerManager = record pm {
      players =
          insert u
            (record {
              user_id = u;
              username = username;
              display_name = display_name;
              elo_rating = elo;
              status = available;
              client = client;
            })
            pm.players;
    } in
    (pm', broadcast_player_status_update pm' u available)

unfoldable pub remove_player : PlayerManager → ℕ → PlayerManager × List Event
remove_player pm u = elim (find u pm.players) [
  | none ↦ (pm, [])
  | some _ ↦
      let pm' : PlayerManager = record pm { players = erase u pm.players } in
      (pm', broadcast_player_status_update pm' u offline)
]

abbrev pub with_status : PlayerStatus → PlayerData → PlayerData
with_status status d = record d { status = status }

unfoldable pub update_player_status : PlayerManager → ℕ → PlayerStatus → PlayerManager × List Event
update_player_status pm u status = elim (find u pm.players) [
  | none ↦ (pm, [])
  | some _ ↦
      let pm' : PlayerManager = record pm { players = modify u (with_status status) pm.players } in
      (pm', broadcast_player_status_update pm' u status)
]
