-- ===== src/Match.antt =====
-- The class MatchState of common/include/game_state.h and common/src/game_state.cpp.
-- time(NULL) is the argument `now`. The texts match_id, player1_name and player2_name, the four elo
-- fields and Move::ship_sunk and time_taken_ms, which no operation reads, are left out; int counters
-- are unbounded numbers.
pub mod Turns
pub mod Play
pub mod History
mod Tests
use networkprogramming_battl.Base.{
  ℕ, ◌+◌, ◌-◌, ◌%◌, ◌^◌, leb, ◌==◌, if◌then◌else◌, Bool, true, false, not, ◌&&◌, ◌||◌, List, [],
  ◌∷◌, ◌++◌,
}
use networkprogramming_battl.Protocol.{
  Coordinate, GameResult, win, loss, draw, ShotResult, miss, hit, sunk,
}
use networkprogramming_battl.Board.{Board, new_board, process_shot, all_ships_sunk}

pub record Move : Type 0 where
  pub move_number : ℕ
  pub player_id : ℕ
  pub target : Coordinate
  pub result : ShotResult
  pub timestamp : ℕ

pub record MatchState : Type 0 where
  pub player1_id : ℕ
  pub player2_id : ℕ
  pub player1_board : Board
  pub player2_board : Board
  pub current_turn_player_id : ℕ
  pub turn_number : ℕ
  pub turn_time_limit : ℕ
  pub turn_start_time : ℕ
  pub move_history : List Move
  pub start_time : ℕ
  pub end_time : ℕ
  pub result : GameResult
  pub winner_id : ℕ
  pub is_active : Bool
  pub is_paused : Bool

-- the constructor, with the player ids that its caller stores next
unfoldable pub new_match : ℕ → ℕ → MatchState
new_match player1 player2 = record {
  player1_id = player1;
  player2_id = player2;
  player1_board = new_board;
  player2_board = new_board;
  current_turn_player_id = 0;
  turn_number = 0;
  turn_time_limit = 60;
  turn_start_time = 0;
  move_history = [];
  start_time = 0;
  end_time = 0;
  result = draw;
  winner_id = 0;
  is_active = false;
  is_paused = false;
}

unfoldable pub start_match : MatchState → ℕ → MatchState
start_match m now = record m {
  is_active = true;
  start_time = now;
  turn_start_time = now;
  turn_number = 1;
}

unfoldable pub end_match : MatchState → ℕ → ℕ → MatchState
end_match m winner now = record m {
  is_active = false;
  end_time = now;
  winner_id = winner;
  result = if winner == m.player1_id then win else if winner == m.player2_id then loss else draw;
}

unfoldable pub switch_turn : MatchState → ℕ → MatchState
switch_turn m now = record m {
  current_turn_player_id =
      if m.current_turn_player_id == m.player1_id then m.player2_id else m.player1_id;
  turn_number = m.turn_number + 1;
  turn_start_time = now;
}

unfoldable pub add_move_to_history : MatchState → Move → MatchState
add_move_to_history m move = record m { move_history = m.move_history ++ move ∷ [] }

-- the board that a player shoots at, and the same board written back
abbrev pub target_board : MatchState → ℕ → Board
target_board m player = if player == m.player1_id then m.player2_board else m.player1_board

abbrev pub set_target_board : MatchState → ℕ → Board → MatchState
set_target_board m player b =
    if player == m.player1_id
    then record m { player2_board = b }
    else record m { player1_board = b }

abbrev pub is_miss : ShotResult → Bool
is_miss miss = true
is_miss _ = false

-- the part of processMove behind the guards
unfoldable pub play : MatchState → ℕ → Coordinate → ℕ → MatchState × ShotResult
unfolding add_move_to_history end_match switch_turn
play m player target now =
    let shot = process_shot (target_board m player) target in
    let move : Move = record {
      move_number = m.turn_number;
      player_id = player;
      target = target;
      result = shot.1;
      timestamp = now;
    } in
    let m' = add_move_to_history (set_target_board m player shot.0) move in
    (
      if all_ships_sunk shot.0
          then end_match m' player now
          else if is_miss shot.1
          then switch_turn m' now
          else m',
      shot.1,
    )

unfoldable pub process_move : MatchState → ℕ → Coordinate → ℕ → MatchState × ShotResult
unfolding play
process_move m player target now =
    if not m.is_active || m.is_paused
    then (m, miss)
    else if player == m.current_turn_player_id
    then play m player target now
    else (m, miss)

-- a uint64_t difference
abbrev pub elapsed : ℕ → ℕ → ℕ
elapsed now start = (now + 2 ^ 64 - start) % 2 ^ 64

unfoldable pub is_turn_timed_out : MatchState → ℕ → Bool
is_turn_timed_out m now =
    if (not m.is_active || m.is_paused) || m.turn_start_time == 0
    then false
    else leb m.turn_time_limit (elapsed now m.turn_start_time)

unfoldable pub get_turn_time_remaining : MatchState → ℕ → ℕ
get_turn_time_remaining m now =
    if (not m.is_active || m.is_paused) || m.turn_start_time == 0
    then m.turn_time_limit
    else if leb m.turn_time_limit (elapsed now m.turn_start_time)
    then 0
    else m.turn_time_limit - elapsed now m.turn_start_time
