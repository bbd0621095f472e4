-- ===== src/Lobby.antt =====
-- The list of players and the challenge dialog of the lobby (client/src/ui_lobby.cpp and
-- showChallengeDialog of client/src/ui_manager.cpp).
-- The widgets are gone: the list store is the list of its rows, the challenge button the flag that
-- it can be pressed, and the dialog's answer is an argument.
pub mod Rows
pub mod Roster
pub mod Dialog
mod Tests
use networkprogramming_battl.Base.{
  ℕ, ◌==◌, if◌then◌else◌, ℤ, Bool, true, false, not, ◌&&◌, Option, none, some, List, [], ◌∷◌, map,
}
use networkprogramming_battl.Base.Text.{bytes}
use networkprogramming_battl.Protocol.{PlayerStatus, offline, online, available, in_game, busy}
use networkprogramming_battl.Messages.{
  PlayerInfoMessage, PlayerStatusUpdate, ChallengeReceived, ChallengeRequest,
}
use networkprogramming_battl.Players.{is_available}

-- the columns of the list
pub record Row : Type 0 where
  pub user_id : ℕ
  pub display_name : List ℕ
  pub elo : ℤ
  pub status : PlayerStatus
  pub status_text : List ℕ

pub record Lobby : Type 0 where
  pub player_list_store : List Row
  pub selected_user_id : ℕ
  pub challenge_enabled : Bool

abbrev pub get_status_text : PlayerStatus → List ℕ
get_status_text available = bytes "Available"
get_status_text in_game = bytes "In Game"
get_status_text busy = bytes "Busy"
get_status_text online = bytes "Online"
get_status_text offline = bytes "Offline"

abbrev pub is_offline : PlayerStatus → Bool
is_offline offline = true
is_offline _ = false

-- the callback of the selection, with the selected row where there is one
unfoldable pub on_player_selection_changed : ℕ → Lobby → Option Row → Lobby
on_player_selection_changed my_id lobby selected = elim selected [
  | some r ↦ record lobby {
    selected_user_id = r.user_id;
    challenge_enabled = is_available r.status && not (r.user_id == my_id);
  }
  | none ↦ record lobby { selected_user_id = 0; challenge_enabled = false }
]

-- the challenge that a press of the challenge button sends
unfoldable pub on_challenge_clicked : Lobby → Option ChallengeRequest
on_challenge_clicked lobby =
    if lobby.selected_user_id == 0
    then none
    else some (record {
      target_user_id = lobby.selected_user_id;
      time_limit = 60;
      random_placement = false;
    })

-- the row of a player of the answer to a list request
abbrev pub listed_row : PlayerInfoMessage → Row
listed_row p = record {
  user_id = p.user_id;
  display_name = p.display_name;
  elo = p.elo_rating;
  status = p.status;
  status_text = get_status_text p.status;
}

-- the callback of the list request
unfoldable pub on_player_list : Lobby → Bool → List PlayerInfoMessage → Lobby
on_player_list lobby success players =
    if success then record lobby { player_list_store = map listed_row players } else lobby

-- the row that updatePlayerStatus appends
abbrev pub added_row : PlayerStatusUpdate → Row
added_row x = record {
  user_id = x.user_id;
  display_name = x.display_name;
  elo = x.elo_rating;
  status = x.status;
  status_text = get_status_text x.status;
}

-- the loop of updatePlayerStatus over the rows, and what follows where no row is the player's
unfoldable pub update_rows : PlayerStatusUpdate → List Row → List Row
update_rows x [] = if is_offline x.status then [] else added_row x ∷ []
update_rows x (r ∷ rs) =
    if r.user_id == x.user_id
    then if is_offline x.status
      then rs
      else record r {
        status = x.status;
        status_text = get_status_text x.status;
        elo = x.elo_rating;
      }
        ∷ rs
    else r ∷ update_rows x rs

-- the callback of PLAYER_STATUS_UPDATE, with the lobby where the current screen is one
unfoldable pub on_player_status : Option Lobby → PlayerStatusUpdate → Option Lobby
on_player_status lobby x = elim lobby [
  | none ↦ none
  | some l ↦ some (record l { player_list_store = update_rows x l.player_list_store })
]

-- The challenge id kept on the current screen, where there is a screen (0 for none kept), and the
-- one kept beside it.
pub record Invitation : Type 0 where
  pub screen_challenge_id : Option ℕ
  pub pending_challenge_id : ℕ

-- g_object_set_data on the current screen
abbrev pub set_screen_id : Option ℕ → ℕ → Option ℕ
set_screen_id none id = none
set_screen_id (some _) id = some id

-- the callback of CHALLENGE_RECEIVED, and whether a dialog opens
unfoldable pub on_challenge_received : ℕ → Invitation → ChallengeReceived → Invitation × Bool
on_challenge_received my_id i c = if my_id == c.challenger_id then (i, false) else (
  record {
    screen_challenge_id = set_screen_id i.screen_challenge_id c.challenge_id;
    pending_challenge_id = c.challenge_id;
  },
  true,
)

-- the id that an answered dialog finds
unfoldable pub answered_id : Invitation → ℕ
answered_id i = elim i.screen_challenge_id [
  | none ↦ i.pending_challenge_id
  | some id ↦ if id == 0 then i.pending_challenge_id else id
]

-- showChallengeDialog from the dialog's answer on, with the call of respondToChallenge
unfoldable pub close_dialog : Invitation → Bool → Invitation × Option (ℕ × Bool)
unfolding answered_id
close_dialog i accept =
    let id = answered_id i in
    if id == 0 then (i, none) else (
      record {
        screen_challenge_id = set_screen_id i.screen_challenge_id 0;
        pending_challenge_id = 0;
      },
      some (id, accept),
    )
