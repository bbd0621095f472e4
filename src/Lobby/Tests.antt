-- ===== src/Lobby/Tests.antt =====
-- The theorems on the lobby at a list of two players and at two challenges.
use networkprogramming_battl.Base.{
  arith, ◌==◌, pos, true, false, ◌≡◌, refl, some, none, List, [], ◌∷◌,
}
use networkprogramming_battl.Base.Text.{bytes}
use networkprogramming_battl.Protocol.{available, in_game}
use networkprogramming_battl.Messages.{ChallengeReceived}
use networkprogramming_battl.Players.{PlayerData, PlayerManager, get_online_players}
use networkprogramming_battl.Accounts.{Client}
use networkprogramming_battl.Routing.{handle_player_list_request}
use networkprogramming_battl.Lobby.{
  Invitation, Lobby, on_player_list, on_challenge_received, close_dialog,
  on_player_selection_changed, on_challenge_clicked, Row,
}
use networkprogramming_battl.Lobby.Roster.{
  Call, leaves, changes, logs_in, players_in, follow, Follows, follow-Follows_listed,
}
use networkprogramming_battl.Lobby.Dialog.{
  change_screen, close_dialog-on_challenge_received, nested_dialogs, click-selection,
}

abbrev ada : PlayerData
ada = record {
  user_id = 1;
  username = bytes "ada";
  display_name = bytes "Ada";
  elo_rating = pos 1000;
  status = available;
  client = 5;
}

abbrev two_players : PlayerManager
two_players = record {
  players = (1, ada) ∷ (2, record ada { user_id = 2; username = bytes "bob"; client = 6 }) ∷ [];
  server_running = true;
}

-- Cy logs in, Ada goes into a game, Bob leaves.
abbrev evening : List Call
evening = logs_in 7 3 (bytes "cy") (bytes "Cy") (pos 990) ∷ changes 1 in_game ∷ leaves 2 ∷ []

abbrev empty_lobby : Lobby
empty_lobby = record { player_list_store = []; selected_user_id = 0; challenge_enabled = false }

abbrev viewer : Client
viewer = record { connection = 5; authenticated = true; user_id = 1; session_token = bytes "t" }

follow-Follows_listed_example :
    let shown =
      (on_player_list empty_lobby true
        (players_in (handle_player_list_request two_players viewer))).player_list_store in
    let s = follow two_players shown evening in Follows s.1 s.0
unfolding get_online_players on_player_list handle_player_list_request
follow-Follows_listed_example =
    follow-Follows_listed two_players viewer empty_lobby evening (refl, (refl, tt)) refl
      (omega arith) (refl, (refl, tt))

abbrev nothing_kept : Invitation
nothing_kept = record { screen_challenge_id = some 0; pending_challenge_id = 0 }

abbrev challenge : ChallengeReceived
challenge = record {
  challenge_id = 8;
  challenger_id = 2;
  challenger_name = bytes "Bob";
  challenger_elo = pos 1000;
  time_limit = 60;
  random_placement = false;
  expires_at = 160;
}

nested_dialogs_test :
    let c : ChallengeReceived = challenge in
    let d : ChallengeReceived = record challenge { challenge_id = 9; challenger_id = 3 } in
    let both = (on_challenge_received 1 (on_challenge_received 1 nothing_kept c).0 d).0 in
    let second = close_dialog both true in
    let first = close_dialog second.0 true in (second.1 ≡ some (9, true)) × (first.1 ≡ none)
nested_dialogs_test =
    nested_dialogs 1 nothing_kept challenge
      (record challenge { challenge_id = 9; challenger_id = 3 }) true true refl refl refl

-- The answer to a challenge goes to it, also from another screen, and only once.
close_dialog-on_challenge_received_test :
    let received = on_challenge_received 1 nothing_kept challenge in
    (received.1 ≡ true)
    × ((close_dialog received.0 false).1 ≡ some (8, false))
    × ((close_dialog (change_screen received.0) false).1 ≡ some (8, false))
    × ((close_dialog (close_dialog received.0 false).0 false).1 ≡ none)
close_dialog-on_challenge_received_test =
    close_dialog-on_challenge_received 1 nothing_kept challenge false refl refl

abbrev row_of_bob : Row
row_of_bob = record {
  user_id = 2;
  display_name = bytes "Bob";
  elo = pos 1000;
  status = available;
  status_text = bytes "Available";
}

click-selection_test :
    let chosen = on_player_selection_changed 1 empty_lobby (some row_of_bob) in
    (row_of_bob.status ≡ available)
    × ((row_of_bob.user_id == 1) ≡ false)
    × (on_challenge_clicked chosen
        ≡ some (record { target_user_id = 2; time_limit = 60; random_placement = false }))
unfolding on_player_selection_changed
click-selection_test = click-selection 1 empty_lobby row_of_bob refl refl
