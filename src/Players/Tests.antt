-- ===== src/Players/Tests.antt =====
-- The theorems on the player manager at one with two players.
use networkprogramming_battl.Base.{pos, true, ◌≡◌, refl, [], ◌∷◌, arith}
use networkprogramming_battl.Base.Map.{find}
use networkprogramming_battl.Base.Text.{bytes}
use networkprogramming_battl.Protocol.{offline, available, in_game}
use networkprogramming_battl.Players.{
  PlayerData, PlayerManager, get_player_status, get_client_connection, get_online_players,
  get_available_players, add_player, remove_player, update_player_status,
}
use networkprogramming_battl.Players.Roster.{
  Announces, announces, pick_available, get_available_players_lem, update_player_status_frame,
}

abbrev ada : PlayerData
ada = record {
  user_id = 1;
  username = bytes "ada";
  display_name = bytes "Ada";
  elo_rating = pos 1000;
  status = available;
  client = 5;
}

abbrev bob : PlayerData
bob = record ada { user_id = 2; username = bytes "bob"; status = in_game; client = 6 }

abbrev lobby : PlayerManager
lobby = record { players = (1, ada) ∷ (2, bob) ∷ []; server_running = true }

roster_told :
    Announces (add_player lobby 7 2 (bytes "bob") (bytes "Bob") (pos 1010)) 2 available
    × Announces (remove_player lobby 2) 2 offline
    × Announces (update_player_status lobby 2 available) 2 available
unfolding find
roster_told =
    announces lobby 2 bob 7 (bytes "bob") (bytes "Bob") (pos 1010) available (refl, (refl, tt)) refl

get_available_players_lem_test :
    get_available_players lobby ≡ pick_available (get_online_players lobby)
get_available_players_lem_test = get_available_players_lem lobby

update_player_status_frame_test :
    let pm' = (update_player_status lobby 2 available).0 in
    (get_player_status pm' 1 ≡ get_player_status lobby 1)
    × (get_client_connection pm' 1 ≡ get_client_connection lobby 1)
update_player_status_frame_test =
    update_player_status_frame lobby 2 1 available (λ e. absurd (omega arith))
