-- ===== src/Gameplay/Tests.antt =====
-- The theorems on the gameplay handler at a server with one match.
use networkprogramming_battl.Base.{
  ℕ, ◌+◌, ◌==◌, if◌then◌else◌, pos, true, false, ◌≡◌, ◌≢◌, inl, refl, none, some, List, [], ◌∷◌,
  length, arith,
}
use networkprogramming_battl.Base.Map.{find, AllEntries}
use networkprogramming_battl.Protocol.{Ship, horizontal}
use networkprogramming_battl.Board.{new_board, all_ships_sunk}
use networkprogramming_battl.Board.Cells.{point}
use networkprogramming_battl.Board.Random.{new_board-IsValid}
use networkprogramming_battl.Match.{MatchState, new_match, start_match, is_turn_timed_out}
use networkprogramming_battl.Match.Play.{start-IsSound}
use networkprogramming_battl.Messages.{Event, DrawOfferMessage, DrawResponseMessage}
use networkprogramming_battl.Players.{PlayerManager}
use networkprogramming_battl.Placements.{validate_ship_placement, load_ships}
use networkprogramming_battl.Gameplay.{
  Database, Server, handle_ship_placement, handle_move, handle_resign, handle_draw_offer,
  handle_draw_response, get_match, check_turn_timeouts, handle_player_disconnect,
}
use networkprogramming_battl.Gameplay.Endings.{
  IsRunning, AllRunning, handle_move-AllRunning, resign_and_draw, check_turn_timeouts_lem,
  handle_player_disconnect_lem,
}
use networkprogramming_battl.Gameplay.Sessions.{no_session, placement_restarts}

-- A database of one match between users 1 and 2: a token is as long as its user's id is large, no
-- placement is stored, and ratings stay at 1000.
abbrev stub : Database
stub = record {
  Db = ℕ;
  validate_session = λ db token. (db, length token);
  save_ship_placement = λ db id user text. (db + 1, true);
  get_ship_placement = λ db id user. [];
  get_match_by_id = λ db id. some (1, 2);
  get_user_elo = λ db user. some (pos 1000);
  update_elo_rating = λ db user elo. db;
  end_match = λ db id winner. db;
  save_move = λ db id user number target result. db + 1;
  compute_elo = λ old other twice. old;
}

abbrev nobody : PlayerManager
nobody = record { players = []; server_running = true }

started : MatchState
started = record (start_match (new_match 1 2) 100) { current_turn_player_id = 1 }

abbrev server : Server ℕ
server = record {
  db = 0;
  players = nobody;
  active_matches = (9, started) ∷ [];
  ready_players = (9, 2 ∷ 1 ∷ []) ∷ [];
}

server-AllRunning : AllRunning stub server
unfolding started new_match start_match all_ships_sunk new_board
server-AllRunning = (
  (
    start-IsSound (new_match 1 2) 100 1 (λ e. absurd (omega arith)) (inl refl) new_board-IsValid
        new_board-IsValid refl refl,
    refl,
  ),
  tt,
)

abbrev token1 : List ℕ
token1 = 97 ∷ []

handle_move-AllRunning_example :
    AllRunning stub (handle_move stub server token1 9 (point 3 3) 105).0
handle_move-AllRunning_example =
    handle_move-AllRunning stub server token1 9 (point 3 3) 105 server-AllRunning

resign_and_draw_test :
    let resigned = (handle_resign stub server token1 9 105).0 in
    let agreed =
      (handle_draw_response stub server token1 (record { match_id = 9; accepted = true }) 105).0 in
    AllRunning stub resigned
    × AllRunning stub agreed
    × (get_match stub resigned 9 ≡ (if 9 == 9 then none else get_match stub server 9))
    × (get_match stub agreed 9 ≡ (if 9 == 9 then none else get_match stub server 9))
unfolding get_match find
resign_and_draw_test =
    resign_and_draw stub server token1 9 9 105 started server-AllRunning (λ e. absurd (omega arith))
      refl

check_turn_timeouts_lem_example :
    AllEntries
      (λ id m. IsRunning id m × (is_turn_timed_out m 170 ≡ false))
      (check_turn_timeouts stub server 170).0.active_matches
check_turn_timeouts_lem_example = check_turn_timeouts_lem stub server 170 server-AllRunning

handle_player_disconnect_lem_example :
    AllEntries
      (λ id m. IsRunning id m × (m.player1_id ≢ 2) × (m.player2_id ≢ 2))
      (handle_player_disconnect stub server 2 105).0.active_matches
handle_player_disconnect_lem_example =
    handle_player_disconnect_lem stub server 2 105 server-AllRunning

abbrev offer : DrawOfferMessage
offer = record { match_id = 9 }

abbrev agree : DrawResponseMessage
agree = record { match_id = 9; accepted = true }

no_session_test :
    (handle_ship_placement stub server [] 9 [] 5 105 0 ≡ some (server, []))
    × (handle_move stub server [] 9 (point 3 3) 105 ≡ (server, []))
    × (handle_resign stub server [] 9 105 ≡ (server, []))
    × (handle_draw_offer stub server [] offer ≡ (server, []))
    × (handle_draw_response stub server [] agree 105 ≡ (server, []))
no_session_test = no_session stub server [] 9 [] (point 3 3) offer agree 5 105 0 refl

abbrev at_row : ℕ → ℕ → ℕ → Ship
at_row row type n = record {
  type = type;
  orientation = horizontal;
  position = record { row = pos row; col = pos 0 };
  length = n;
  hits = 0;
  is_sunk = false;
}

abbrev rows : List Ship
rows = at_row 0 0 5 ∷ at_row 1 1 4 ∷ at_row 2 2 3 ∷ at_row 3 3 3 ∷ at_row 4 4 2 ∷ []

placement_restarts_test :
    (w' : Server ℕ) × (events : List Event) × (handle_ship_placement stub server token1 9 rows 5 105
        0
      ≡ some (w', events))
    × (m : MatchState) × (get_match stub w' 9 ≡ some m)
    × (m.move_history ≡ [])
    × (m.turn_number ≡ 1)
unfolding find validate_ship_placement load_ships new_match
placement_restarts_test =
    placement_restarts stub server token1 9 5 105 0 1 2 rows (2 ∷ 1 ∷ []) new_board new_board
      (λ e. absurd (omega arith)) refl refl refl refl refl refl refl refl
