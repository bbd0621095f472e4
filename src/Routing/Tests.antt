-- ===== src/Routing/Tests.antt =====
-- The theorems on the server at one with two connections.
use networkprogramming_battl.Base.{
  ℕ, ◌≢◌, leb, if◌then◌else◌, ℤ, pos, true, false, ◌≡◌, refl, none, some, [], ◌∷◌, length, take,
  arith,
}
use networkprogramming_battl.Base.Map.{find, insert, AllEntries}
use networkprogramming_battl.Base.Text.{bytes}
use networkprogramming_battl.Protocol.{offline}
use networkprogramming_battl.Messages.{player_list, send}
use networkprogramming_battl.Passwords.Tests.{length_digest, filled, draws}
use networkprogramming_battl.Players.{
  PlayerData, get_player_status, is_player_online, get_online_players,
}
use networkprogramming_battl.Protocol.{available}
use networkprogramming_battl.Accounts.{Client}
use networkprogramming_battl.Store.Tests.{small, small-IsConsistent}
use networkprogramming_battl.Network.{
  Network, asks_players, Request, told_players, new_network, receive,
}
use networkprogramming_battl.Network
use networkprogramming_battl.Routing.{
  World, Moment, accept_connection, handle_player_list_request, route_message, remove_client,
}
use networkprogramming_battl.Routing.Steps.{IsSound, start, next, accepts, routes, removes, started}
use networkprogramming_battl.Routing.Invariant.{Reachable-IsSound}
use networkprogramming_battl.Routing.Connections.{
  remove_client_lem, earlier_login_stays, list_request_received,
}

abbrev no_change : ℤ → ℤ → ℕ → ℤ
no_change own other score = own

abbrev noon : Moment
noon = record { now = 500; random = filled; rand = draws; draws = draws }

abbrev one_connection : World
one_connection = accept_connection (started small) 5

abbrev guest : Client
guest = record { connection = 5; authenticated = false; user_id = 0; session_token = [] }

abbrev lists : Request
lists = record { token = []; query = asks_players }

-- A connection comes, asks for the players, and ends.
Reachable-IsSound_example : IsSound (remove_client length_digest no_change one_connection 5 510).0
unfolding accept_connection route_message handle_player_list_request find insert
Reachable-IsSound_example =
    Reachable-IsSound length_digest no_change small
      (remove_client length_digest no_change one_connection 5 510).0 small-IsConsistent
      (next
        (next (next start (accepts (started small) 5 refl))
          (routes one_connection one_connection 5 guest lists noon _ refl refl))
        (removes one_connection 5 510))

abbrev entry : ℕ → PlayerData
entry u = record {
  user_id = u;
  username = bytes "ann";
  display_name = bytes "Ann";
  elo_rating = pos 1000;
  status = available;
  client = 5;
}

-- Users 1 and 2 have logged in on connection 5, one after the other.
abbrev shared : World
shared = record (started small) {
  game = record (started small).game {
    players = record { players = (1, entry 1) ∷ (2, entry 2) ∷ []; server_running = true };
  };
  clients = (5, record guest { authenticated = true; user_id = 2 }) ∷ [];
}

abbrev second : Client
second = record guest { authenticated = true; user_id = 2 }

remove_client_lem_example :
    let w' = (remove_client length_digest no_change shared 5 510).0 in
    (find 5 w'.clients ≡ none)
    × (get_player_status w'.game.players 2 ≡ offline)
    × AllEntries (λ id m. (m.player1_id ≢ 2) × (m.player2_id ≢ 2)) w'.game.active_matches
unfolding find
remove_client_lem_example = remove_client_lem length_digest no_change shared 5 510 second refl refl

earlier_login_stays_test :
    is_player_online (remove_client length_digest no_change shared 5 510).0.game.players 1 ≡ true
unfolding find is_player_online
earlier_login_stays_test =
    earlier_login_stays length_digest no_change shared 5 510 second 1 refl
      (λ e. absurd (omega (arith, e))) refl

abbrev waiting : Network
waiting = record new_network { pending_request = Network.player_list }

list_request_received_example :
    let online = get_online_players shared.game.players in
    let count = if leb (length online) 100 then length online else 100 in
    (handle_player_list_request shared.game.players second
      ≡ send 5 true (player_list (record { count = count; players = take count online })) ∷ [])
    × (receive waiting (player_list (record { count = count; players = take count online }))
        ≡ some (
          record waiting { pending_request = Network.no_request },
          told_players true (take count online) ∷ [],
        ))
list_request_received_example = list_request_received shared.game.players second waiting refl
