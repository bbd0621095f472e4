-- ===== src/Match/Tests.antt =====
-- The theorems on matches at a match between players 1 and 2, and a short game.
use networkprogramming_battl.Base.{
  suc, ◌+◌, if◌then◌else◌, true, false, ◌≡◌, ◌≢◌, ◌↔◌, inl, inr, refl, List, [], ◌∷◌, length, arith,
}
use networkprogramming_battl.Protocol.{miss}
use networkprogramming_battl.Board.{new_board, process_shot, all_ships_sunk}
use networkprogramming_battl.Board.Cells.{point}
use networkprogramming_battl.Board.Random.{new_board-IsValid}
use networkprogramming_battl.Match.{
  MatchState, new_match, start_match, switch_turn, process_move, is_turn_timed_out,
  get_turn_time_remaining, elapsed, target_board, is_miss,
}
use networkprogramming_battl.Match.Turns.{HasTurn, switch_turn_alternates, timed_out_iff}
use networkprogramming_battl.Match.History.{IsReplayed, position_of, run-IsReplayed}
use networkprogramming_battl.Match.Play.{
  IsSound, other_player, process_move-IsSound, process_move_refused, process_move_accepted, Shot,
  run, run-IsSound, run_over, start-IsSound,
}

-- A match that started at time 100, where player 1 has the turn.
started : MatchState
started = record (start_match (new_match 1 2) 100) { current_turn_player_id = 1 }

started-IsSound : IsSound started
unfolding started new_match all_ships_sunk new_board
started-IsSound =
    start-IsSound (new_match 1 2) 100 1 (λ e. absurd (omega arith)) (inl refl) new_board-IsValid
      new_board-IsValid refl refl

start-IsSound_test :
    IsSound (record (start_match (new_match 1 2) 100) { current_turn_player_id = 2 })
unfolding new_match all_ships_sunk new_board
start-IsSound_test =
    start-IsSound (new_match 1 2) 100 2 (λ e. absurd (omega arith)) (inr refl) new_board-IsValid
      new_board-IsValid refl refl

process_move-IsSound_example : IsSound (process_move started 1 (point 3 3) 105).0
process_move-IsSound_example = process_move-IsSound started 1 (point 3 3) 105 started-IsSound

process_move_refused_test : process_move started 2 (point 3 3) 105 ≡ (started, miss)
unfolding started start_match
process_move_refused_test =
    process_move_refused started 2 (point 3 3) 105 (inr (inr (λ e. absurd (omega arith))))

process_move_accepted_test :
    let x = process_move started 1 (point 3 3) 105 in
    (x.1 ≡ (process_shot (target_board started 1) (point 3 3)).1)
    × (length x.0.move_history ≡ suc (length started.move_history))
    × ((x.0.is_active ≡ false)
        ↔ (all_ships_sunk (process_shot (target_board started 1) (point 3 3)).0 ≡ true))
    × (x.0.is_active ≡ true
        → x.0.current_turn_player_id
          ≡ (if is_miss x.1 then other_player started 1 else started.current_turn_player_id))
unfolding started start_match new_match
process_move_accepted_test = process_move_accepted started 1 (point 3 3) 105 refl refl refl

abbrev two_shots : List Shot
two_shots =
    record { player = 1; target = point 3 3; now = 105 }
    ∷ record { player = 2; target = point 4 4; now = 110 }
    ∷ []

run-IsSound_test : IsSound (run started two_shots)
run-IsSound_test = run-IsSound started two_shots started-IsSound

run_over_test : run (new_match 1 2) two_shots ≡ new_match 1 2
unfolding new_match
run_over_test = run_over (new_match 1 2) two_shots refl

switch_turn_alternates_test :
    ((switch_turn started 105).current_turn_player_id ≢ started.current_turn_player_id)
    × HasTurn (switch_turn started 105)
    × ((switch_turn (switch_turn started 105) 110).current_turn_player_id
        ≡ started.current_turn_player_id)
unfolding started start_match new_match
switch_turn_alternates_test =
    switch_turn_alternates started 105 110 (λ e. absurd (omega arith)) (inl refl)

timed_out_iff_test :
    ((is_turn_timed_out started 170 ≡ true) ↔ (get_turn_time_remaining started 170 ≡ 0))
    × (is_turn_timed_out started 170 ≡ false
        → get_turn_time_remaining started 170 + elapsed 170 started.turn_start_time
          ≡ started.turn_time_limit)
unfolding started start_match new_match
timed_out_iff_test = timed_out_iff started 170 refl refl (omega arith)

run-IsReplayed_example : IsReplayed 1 2 (position_of started) (run started two_shots)
unfolding started new_match start_match
run-IsReplayed_example = run-IsReplayed started two_shots refl
