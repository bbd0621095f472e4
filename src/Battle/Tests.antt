-- ===== src/Battle/Tests.antt =====
-- The theorems on the battle screen at a game against the computer opponent.
use networkprogramming_battl.Base.{
  ℕ, ◌&&◌, ◌||◌, ◌==◌, if◌then◌else◌, pos, true, false, ◌≡◌, refl, none, some, [], replicate, arith,
  inl,
}
use networkprogramming_battl.Base.Text.{bytes}
use networkprogramming_battl.Protocol.{carrier, cruiser, horizontal, win, normal, hit}
use networkprogramming_battl.Messages.{MatchEndMessage, MoveResultMessage}
use networkprogramming_battl.Match.{MatchState, new_match, process_move}
use networkprogramming_battl.Board.{
  Board, cell_empty, cell_hit, cell_sunk, new_board, num_ships, get_cell, set_cell, process_shot,
}
use networkprogramming_battl.Board.Cells.{point}
use networkprogramming_battl.Board.Random.{random_placement-IsValid}
use networkprogramming_battl.Network.{new_network, connected, authenticated, moves}
use networkprogramming_battl.Planner.Tests.{five}
use networkprogramming_battl.Passwords.Tests.{draws}
use networkprogramming_battl.Battle.{
  screen_ship_placement, screen_game, Ui, local_shot, after_shot, execute_fire_at_target,
  on_fire_clicked, click_opponent_board, bot_take_turn, player_board, bot_game, on_ready_clicked,
  on_match_end, reveal_sunk, set_player_board, show_shot, on_move_result,
}
use networkprogramming_battl.Battle.Local.{at_first, after}
use networkprogramming_battl.Battle.Turns.{
  IsPlayed, fire-IsPlayed, BotTurn, bot_take_turn_lem, run_clock, IsPassed, turn_expires,
}
use networkprogramming_battl.Battle.Offline
use networkprogramming_battl.Battle.Agreement
use networkprogramming_battl.Battle.Agreement.{Table, Agrees, TableRun-Agrees}
use networkprogramming_battl.Battle.Offline.{is_game, no_offline_game}
use networkprogramming_battl.Battle.Sunken.{across_of, reveal_across}

abbrev table : Ui
table = record {
  planner = record {
    player_board = five;
    selected_ship_type = carrier;
    current_orientation = horizontal;
    ships_placed = replicate num_ships true;
  };
  opponent_board = five;
  network = new_network;
  outbox = [];
  screen = screen_game;
  popups = [];
  is_player_turn = true;
  shots_fired = 0;
  hits_count = 0;
  selected_target = none;
  turn_time_remaining = pos 20;
  timer_running = true;
  bot_calls = 0;
  is_bot_mode = true;
  current_match_id = 0;
  waiting_for_match_ready = false;
  waiting_for_match_end_resignation = false;
  last_opponent_id = 0;
  last_opponent_name = [];
}

-- A click on the destroyer, and a shot.
abbrev shot : Ui
shot = on_fire_clicked (click_opponent_board table (pos 4) (pos 0)) false

abbrev aiming : Ui
aiming = record table { selected_target = some (point 4 0) }

fire-IsPlayed_example :
    (execute_fire_at_target aiming false ≡ (after_shot aiming (local_shot five (point 4 0)), true))
    × IsPlayed aiming (execute_fire_at_target aiming false).0 (local_shot five (point 4 0))
unfolding new_network
fire-IsPlayed_example = fire-IsPlayed aiming (point 4 0) false refl refl refl

abbrev waiting : Ui
waiting = record table { is_player_turn = false }

bot_take_turn_lem_example : BotTurn draws waiting (bot_take_turn draws waiting)
bot_take_turn_lem_example = bot_take_turn_lem draws waiting refl refl

turn_expires_example :
    (run_clock 19 table ≡ record table { turn_time_remaining = pos 1 })
    × IsPassed table (run_clock 20 table)
turn_expires_example = turn_expires table 19 refl

-- The cruiser lies on the columns 2 to 4 of row 3, and its last cell is hit now.
abbrev scarred : Board
scarred = record new_board {
  grid = λ r c. if r == 3 && (c == 2 || c == 3) then cell_hit else cell_empty;
}

reveal_across_example :
    (b' : Board) × (reveal_sunk scarred (pos 3) (pos 4) cruiser ≡ some b')
    × (b'.ships ≡ [])
    × ((x y : ℕ) → b'.grid x y ≡ (if across_of 3 4 2 0 x y then cell_sunk else scarred.grid x y))
unfolding get_cell new_board
reveal_across_example =
    reveal_across scarred 3 4 2 0 cruiser (omega arith) (omega arith) (omega arith) (omega arith)
      (omega arith) (refl, (refl, refl)) refl refl refl

abbrev online : Ui
online = record table {
  network = record new_network {
    status = authenticated;
    socket_open = true;
    session_token = bytes "t";
  };
  current_match_id = 7;
}

abbrev ended : MatchEndMessage
ended = record {
  match_id = 7;
  result = win;
  winner_id = 1;
  reason = normal;
  elo_change = pos 12;
  new_elo = pos 1012;
  total_moves = 30;
  duration = 200;
  reason_text = [];
}

-- The ships of the next game.
abbrev drawn : Board
drawn = (random_placement-IsValid draws five).0

abbrev bot_table : Ui
bot_table = bot_game (on_match_end online ended) drawn

-- A placement that is ready, without a connection.
abbrev placed : Ui
placed = record table { screen = screen_ship_placement }

no_offline_game_example : is_game (on_ready_clicked placed true).screen ≡ false
no_offline_game_example =
    no_offline_game (Offline.after Offline.at_first (Offline.readies placed true)) refl

-- Users 1 and 2 play on two boards of five ships, and user 1 shoots at the second board.
abbrev screen_of : ℕ → Ui
screen_of user = record table {
  network = record new_network { status = connected; user_id = user };
  is_bot_mode = false;
  current_match_id = 7;
}

abbrev game : MatchState
game = record (new_match 1 2) {
  player1_board = five;
  player2_board = five;
  is_active = true;
  is_paused = false;
  current_turn_player_id = 1;
}

abbrev both : Table
both = record { game = game; first = screen_of 1; second = screen_of 2 }

both-Agrees : Agrees both
unfolding new_match
both-Agrees = record {
  apart = λ e. absurd (omega (arith, e));
  first_user = refl;
  second_user = refl;
  first_mode = refl;
  second_mode = refl;
  first_board = refl;
  second_board = refl;
}

abbrev told_hit : MoveResultMessage
told_hit = record {
  match_id = 7;
  shooter_id = 1;
  target = point 4 0;
  result = hit;
  ship_sunk = 0;
  ships_remaining = 5;
  game_over = false;
  winner_id = 0;
}

abbrev shooter : Ui
shooter = record (screen_of 1) {
  opponent_board = set_cell five (pos 4) (pos 0) cell_hit;
  hits_count = 1;
  shots_fired = 1;
}

abbrev defender : Ui
defender = set_player_board (screen_of 2) (process_shot five (point 4 0)).0

TableRun-Agrees_example :
    Agrees (record {
      game = (process_move game 1 (point 4 0) 500).0;
      first = shooter;
      second = defender;
    })
unfolding on_move_result show_shot new_match new_network
TableRun-Agrees_example =
    TableRun-Agrees
      (Agreement.after Agreement.at_start (
        Agreement.moves both 1 500 told_hit shooter defender
          (record { active = refl; running = refl; in_turn = refl; shooter = refl }) (inl refl) refl
          refl))
      both-Agrees
