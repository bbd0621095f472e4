-- ===== src/Match/Play.antt =====
-- What a move does to a match.
use networkprogramming_battl.Base.{
  ℕ, suc, ◌==◌, if◌then◌else◌, Bool, true, false, not, ◌||◌, ◌≡◌, ◌≢◌, ◌↔◌, ◌⊎◌, inl, inr, refl,
  sym, subst, eq→≡, List, [], ◌∷◌, length, length-append, Bool-cases, arith,
}
use networkprogramming_battl.Protocol.{Coordinate, win, loss, miss}
use networkprogramming_battl.Board.{Board, process_shot, all_ships_sunk}
use networkprogramming_battl.Board.Fleet.{IsValid}
use networkprogramming_battl.Board.Shots.{process_shot-IsValid}
use networkprogramming_battl.Match.{
  MatchState, target_board, play, process_move, is_miss, start_match,
}
use networkprogramming_battl.Match.Turns.{HasTurn}

-- The opponent of a player.
abbrev pub other_player : MatchState → ℕ → ℕ
other_player m player = if player == m.player1_id then m.player2_id else m.player1_id

-- Both boards are valid, one of two players has the turn, a running match has no winner yet, and a
-- finished one was won by the player whose opponent has lost all ships.
pub record IsSound (m : MatchState) : Type 0 where
  pub two_players : m.player1_id ≢ m.player2_id
  pub turn : HasTurn m
  pub board1 : IsValid m.player1_board
  pub board2 : IsValid m.player2_board
  pub open1 : m.is_active ≡ true → all_ships_sunk m.player1_board ≡ false
  pub open2 : m.is_active ≡ true → all_ships_sunk m.player2_board ≡ false
  pub decided :
      m.is_active ≡ false
      → ((m.winner_id ≡ m.player1_id) × (m.result ≡ win) × (all_ships_sunk m.player2_board ≡ true))
        ⊎ ((m.winner_id ≡ m.player2_id)
            × (m.result ≡ loss)
            × (all_ships_sunk m.player1_board ≡ true))

if-IsValid : (c : Bool) {x y : Board} → IsValid x → IsValid y → IsValid (if c then x else y)
if-IsValid true v w = v
if-IsValid false v w = w

module _ (m : MatchState) (player : ℕ) (target : Coordinate) (now : ℕ) where
  -- The board that is shot at, after the shot.
  abbrev shot_board : Board
  shot_board = (process_shot (target_board m player) target).0

  -- A move touches the opponent's board only.
  pub play_boards :
      ((play m player target now).0.player1_board
        ≡ (if player == m.player1_id then m.player1_board else shot_board))
      × ((play m player target now).0.player2_board
          ≡ (if player == m.player1_id then shot_board else m.player2_board))
  unfolding play
  play_boards = ground arith

  shot_board-IsValid : IsValid m.player1_board → IsValid m.player2_board → IsValid shot_board
  shot_board-IsValid v w =
      process_shot-IsValid (target_board m player) target (if-IsValid (player == m.player1_id) w v)

  play-IsSound :
      IsSound m
      → m.is_active ≡ true
      → player ≡ m.current_turn_player_id
      → IsSound (play m player target now).0
  unfolding play
  play-IsSound v a t = record {
    two_players = ground (arith, v.two_players);
    turn = ground (arith, v.turn, v.two_players);
    board1 =
        subst IsValid (sym play_boards.0)
          (if-IsValid (player == m.player1_id) v.board1 (shot_board-IsValid v.board1 v.board2));
    board2 =
        subst IsValid (sym play_boards.1)
          (if-IsValid (player == m.player1_id) (shot_board-IsValid v.board1 v.board2) v.board2);
    open1 = ground (arith, v.open1);
    open2 = ground (arith, v.open2);
    decided = ground (arith, v.turn, v.two_players);
  }

  -- Any move, by anyone, at any square, at any time, keeps a sound match sound.
  pub process_move-IsSound : IsSound m → IsSound (process_move m player target now).0
  unfolding process_move
  process_move-IsSound v = elim (Bool-cases (not m.is_active || m.is_paused)) [
    | inl stop ↦ rw (stop, process_move) v
    | inr run ↦ elim (Bool-cases (player == m.current_turn_player_id)) [
      | inl mine ↦
          rw (run, process_move, mine)
            (play-IsSound v (ground (arith, run)) (eq→≡ player m.current_turn_player_id mine))
      | inr other ↦ rw (run, process_move, other) v
    ]
  ]

  -- A move out of turn, in a paused match or in one that is over changes nothing and reports a miss.
  pub process_move_refused :
      (m.is_active ≡ false) ⊎ (m.is_paused ≡ true) ⊎ (player ≢ m.current_turn_player_id)
      → process_move m player target now ≡ (m, miss)
  unfolding process_move
  process_move_refused h = ground (arith, h)

  -- In an active match that is not paused, a move in turn is recorded; it ends the match exactly if the opponent's last ship sank, and
  -- otherwise the turn passes on a miss and stays on a hit.
  pub process_move_accepted :
      m.is_active ≡ true
      → m.is_paused ≡ false
      → player ≡ m.current_turn_player_id
      → let x = process_move m player target now in
        (x.1 ≡ (process_shot (target_board m player) target).1)
        × (length x.0.move_history ≡ suc (length m.move_history))
        × ((x.0.is_active ≡ false) ↔ (all_ships_sunk shot_board ≡ true))
        × (x.0.is_active ≡ true
            → x.0.current_turn_player_id
              ≡ (if is_miss x.1 then other_player m player else m.current_turn_player_id))
  unfolding process_move play
  process_move_accepted a p t = ground (
    arith,
    length-append m.move_history (
        record {
          move_number = m.turn_number;
          player_id = player;
          target = target;
          result = (process_shot (target_board m player) target).1;
          timestamp = now;
        }
        ∷ []),
  )

-- A running match whose opponent has ships left after the move runs on.
pub process_move_runs :
    (m : MatchState) (user : ℕ) (target : Coordinate) (now : ℕ)
    → m.is_active ≡ true
    → all_ships_sunk (target_board (process_move m user target now).0 user) ≡ false
    → (process_move m user target now).0.is_active ≡ true
unfolding process_move play
process_move_runs m user target now a e = ground (arith, a, e)

-- A message to a match: who sends it, where to, and when.
pub record Shot : Type 0 where
  pub player : ℕ
  pub target : Coordinate
  pub now : ℕ

unfoldable pub run : MatchState → List Shot → MatchState
run m [] = m
run m (s ∷ ss) = run (process_move m s.player s.target s.now).0 ss

-- A sound match stays sound under any sequence of moves by anyone.
pub run-IsSound : (m : MatchState) (ss : List Shot) → IsSound m → IsSound (run m ss)
unfolding run
run-IsSound m [] v = v
run-IsSound m (s ∷ ss) v =
    run-IsSound (process_move m s.player s.target s.now).0 ss
      (process_move-IsSound m s.player s.target s.now v)

-- A match that is over stays as it is under any further moves.
pub run_over : (m : MatchState) (ss : List Shot) → m.is_active ≡ false → run m ss ≡ m
unfolding run
run_over m [] h = refl
run_over m (s ∷ ss) h =
    rw (process_move_refused m s.player s.target s.now (inl h)) (run_over m ss h)

-- A match of two different players, on valid boards that are not sunk, starts sound when one of the
-- two has the first turn.
pub start-IsSound :
    (m : MatchState) (now first : ℕ)
    → m.player1_id ≢ m.player2_id
    → (first ≡ m.player1_id) ⊎ (first ≡ m.player2_id)
    → IsValid m.player1_board
    → IsValid m.player2_board
    → all_ships_sunk m.player1_board ≡ false
    → all_ships_sunk m.player2_board ≡ false
    → IsSound (record (start_match m now) { current_turn_player_id = first })
unfolding start_match
start-IsSound m now first d h v w x y = record {
  two_players = d;
  turn = h;
  board1 = v;
  board2 = w;
  open1 = λ _. x;
  open2 = λ _. y;
  decided = λ e. absurd (ground (arith, e));
}
