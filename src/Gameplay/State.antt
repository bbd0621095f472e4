-- ===== src/Gameplay/State.antt =====
-- The state of GameplayHandler and what its handlers share (server/include/gameplay_handler.h,
-- server/src/gameplay_handler.cpp): the database, the messages of an ending, the loops over matches.
use networkprogramming_battl.Base.{
  ℕ, suc, ◌+◌, ◌-◌, ◌%◌, ◌^◌, leb, ◌==◌, if◌then◌else◌, ℤ, pos, negsuc, Bool, true, false, ◌&&◌,
  ◌||◌, Option, none, some, List, [], ◌∷◌, ◌++◌,
}
use networkprogramming_battl.Base.Map.{Map}
use networkprogramming_battl.Protocol.{
  Coordinate, Ship, GameResult, win, loss, draw, MatchEndReason, ShotResult,
}
use networkprogramming_battl.Board.{Board, covers}
use networkprogramming_battl.Match.{MatchState, new_match, start_match, is_turn_timed_out}
use networkprogramming_battl.Messages.{
  Payload, ship_placement_ack, match_ready, match_end, Event, send,
}
use networkprogramming_battl.Players.{PlayerManager}
use networkprogramming_battl.Challenges.{to_player}

-- What the handler asks of the database. 0 is the user of no session.
pub record Database : Type 1 where
  pub Db : Type 0
  -- it deletes a session that has expired
  pub validate_session : Db → List ℕ → Db × ℕ
  pub save_ship_placement : Db → ℕ → ℕ → List ℕ → Db × Bool
  pub get_ship_placement : Db → ℕ → ℕ → List ℕ
  pub get_match_by_id : Db → ℕ → Option (ℕ × ℕ)
  pub get_user_elo : Db → ℕ → Option ℤ
  pub update_elo_rating : Db → ℕ → ℤ → Db
  pub end_match : Db → ℕ → ℕ → Db
  pub save_move : Db → ℕ → ℕ → ℕ → Coordinate → ShotResult → Db
  -- new rating from both old ratings and twice the score
  pub compute_elo : ℤ → ℤ → ℕ → ℤ

pub record Server (Db : Type 0) : Type 0 where
  pub db : Db
  pub players : PlayerManager
  pub active_matches : Map MatchState
  pub ready_players : Map (List ℕ)

-- the loops of handleMove over all five slots: the type of the last sunk ship that has the target
unfoldable pub sunk_type : List Ship → Coordinate → ℕ → ℕ
sunk_type [] p type = type
sunk_type (s ∷ ss) p type =
    sunk_type ss p
      (if s.is_sunk && (leb s.length s.hits && covers s p 0 s.length) then s.type else type)

-- std::set::insert and count
abbrev pub has : ℕ → List ℕ → Bool
has u [] = false
has u (x ∷ xs) = x == u || has u xs

abbrev pub add : ℕ → List ℕ → List ℕ
add u xs = if has u xs then xs else u ∷ xs

abbrev pub set_of : Option (List ℕ) → List ℕ
set_of none = []
set_of (some xs) = xs

-- an int stored in a uint32_t
abbrev pub to_uint32 : ℤ → ℕ
to_uint32 (pos n) = n % 2 ^ 32
to_uint32 (negsuc n) = 2 ^ 32 - 1 - n % 2 ^ 32

-- a - b
abbrev pub difference : ℤ → ℤ → ℤ
difference (pos a) (pos b) = if leb b a then pos (a - b) else negsuc (b - a - 1)
difference (pos a) (negsuc b) = pos (a + suc b)
difference (negsuc a) (pos b) = negsuc (a + b)
difference (negsuc a) (negsuc b) = if leb a b then pos (b - a) else negsuc (a - b - 1)

abbrev pub or_1000 : Option ℤ → ℤ
or_1000 none = pos 1000
or_1000 (some e) = e

-- the result that a player is told
abbrev pub result_for : ℕ → ℕ → GameResult
result_for winner player = if winner == 0 then draw else if winner == player then win else loss

-- sendTurnUpdate and the other messages to both players of a match
abbrev pub to_both : PlayerManager → ℕ → ℕ → Payload → List Event
to_both pm u w payload = to_player pm u true payload ++ to_player pm w true payload

abbrev pub ack : ℕ → ℕ → Bool → List ℕ → Event
ack fd id valid text =
    send fd true
      (ship_placement_ack (record { match_id = id; valid = valid; error_message = text }))

pub record EndCall : Type 0 where
  pub match_id : ℕ
  pub player1_id : ℕ
  pub player2_id : ℕ
  pub winner_id : ℕ
  pub reason : MatchEndReason
  pub reason_text : List ℕ
  pub total_moves : ℕ
  pub duration : ℕ

-- the message of sendMatchEnd for one player
abbrev pub end_message : EndCall → ℕ → ℤ → ℤ → Payload
end_message c player old new = match_end (record {
  match_id = c.match_id;
  result = result_for c.winner_id player;
  winner_id = c.winner_id;
  reason = c.reason;
  elo_change = difference new old;
  new_elo = new;
  total_moves = c.total_moves;
  duration = c.duration;
  reason_text = c.reason_text;
})

-- twice the score of player 1 and of player 2; a winner who is neither leaves the ratings alone
abbrev pub score1 : EndCall → Option ℕ
score1 c =
    if c.winner_id == 0
    then some 1
    else if c.winner_id == c.player1_id
    then some 2
    else if c.winner_id == c.player2_id
    then some 0
    else none

abbrev pub score2 : EndCall → Option ℕ
score2 c =
    if c.winner_id == 0
    then some 1
    else if c.winner_id == c.player1_id
    then some 0
    else if c.winner_id == c.player2_id
    then some 2
    else none

-- the matches that the first loop of checkTurnTimeouts collects
abbrev pub timed_out : Map MatchState → ℕ → List ℕ
timed_out [] now = []
timed_out ((id, m) ∷ ms) now =
    if is_turn_timed_out m now then id ∷ timed_out ms now else timed_out ms now

-- the matches that the first loop of handlePlayerDisconnect collects
abbrev pub plays : MatchState → ℕ → Bool
plays m u = m.player1_id == u || m.player2_id == u

abbrev pub matches_of : Map MatchState → ℕ → List ℕ
matches_of [] u = []
matches_of ((id, m) ∷ ms) u = if plays m u then id ∷ matches_of ms u else matches_of ms u

-- the match of both_ready, with its boards and its first player
abbrev pub opened : ℕ → ℕ → Board → Board → ℕ → ℕ → MatchState
opened player1 player2 board1 board2 now rand =
    let m =
      start_match
        (record (new_match player1 player2) { player1_board = board1; player2_board = board2 })
        now in
    record m { current_turn_player_id = if rand % 2 == 0 then player1 else player2 }

abbrev pub ready_message : ℕ → ℕ → ℕ → Payload
ready_message id player1 player2 = match_ready (record {
  match_id = id;
  player1_id = player1;
  player2_id = player2;
  current_turn_player_id = 0;
  turn_number = 1;
  is_active = true;
  is_paused = false;
})
