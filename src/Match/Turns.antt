-- ===== src/Match/Turns.antt =====
-- Whose turn it is, and how long it lasts.
use networkprogramming_battl.Base.{ℕ, ◌+◌, ◌<◌, true, false, ◌≡◌, ◌≢◌, ◌↔◌, ◌⊎◌, arith}
use networkprogramming_battl.Match.{
  MatchState, switch_turn, is_turn_timed_out, get_turn_time_remaining, elapsed,
}

abbrev pub HasTurn : MatchState → Type 0
HasTurn m = (m.current_turn_player_id ≡ m.player1_id) ⊎ (m.current_turn_player_id ≡ m.player2_id)

-- Between two players the turn goes to the other, and comes back with the second switch.
pub switch_turn_alternates :
    (m : MatchState) (now later : ℕ)
    → m.player1_id ≢ m.player2_id
    → HasTurn m
    → ((switch_turn m now).current_turn_player_id ≢ m.current_turn_player_id)
      × HasTurn (switch_turn m now)
      × ((switch_turn (switch_turn m now) later).current_turn_player_id ≡ m.current_turn_player_id)
unfolding switch_turn
switch_turn_alternates m now later d h = ground arith

-- A turn of an active match has timed out exactly when no time remains, and while time remains it is
-- what the limit leaves.
pub timed_out_iff :
    (m : MatchState) (now : ℕ)
    → m.is_active ≡ true
    → m.is_paused ≡ false
    → 0 < m.turn_start_time
    → ((is_turn_timed_out m now ≡ true) ↔ (get_turn_time_remaining m now ≡ 0))
      × (is_turn_timed_out m now ≡ false
          → get_turn_time_remaining m now + elapsed now m.turn_start_time ≡ m.turn_time_limit)
unfolding is_turn_timed_out get_turn_time_remaining
timed_out_iff m now a p s = ground arith
