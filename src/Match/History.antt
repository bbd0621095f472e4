-- ===== src/Match/History.antt =====
-- The history of a match against the rules of the game: what is played is what is recorded.
use networkprogramming_battl.Base.{
  ℕ, ◌==◌, if◌then◌else◌, Bool-cases, not, ◌||◌, true, ◌≡◌, refl, sym, ap, ◌∙◌, subst, inl, inr,
  eq→≡, List, [], ◌∷◌, ◌++◌, arith,
}
use networkprogramming_battl.Protocol.{Coordinate}
use networkprogramming_battl.Board.{Board, process_shot}
use networkprogramming_battl.Match.{MatchState, Move, play, process_move, is_miss, target_board}
use networkprogramming_battl.Match.Play.{Shot, run, play_boards}

-- The game itself: the two boards, and who is to shoot.
pub record Position : Type 0 where
  pub first : Board
  pub second : Board
  pub turn : ℕ

-- The rules for players `one` and `two`: who is to shoot, shoots at the other board; a miss passes the
-- turn, and a hit keeps it.
module _ (one two : ℕ) where
  abbrev pub shot_at : Position → ℕ → Board
  shot_at p player = if player == one then p.second else p.first

  abbrev pub next_position : Position → Move → Position
  next_position p r =
      let b = (process_shot (shot_at p r.player_id) r.target).0 in
      record {
        first = if r.player_id == one then p.first else b;
        second = if r.player_id == one then b else p.second;
        turn = if is_miss r.result then if p.turn == one then two else one else p.turn;
      }

  pub data Legal (start : Position) : List Move → Position → Type 0 where
    nothing_yet : Legal start [] start
    then_move :
        {rs : List Move} {p : Position}
        → Legal start rs p
        → (r : Move) → r.player_id ≡ p.turn
        → r.result ≡ (process_shot (shot_at p r.player_id) r.target).1
        → Legal start (rs ++ r ∷ []) (next_position p r)

abbrev pub position_of : MatchState → Position
position_of m = record {
  first = m.player1_board;
  second = m.player2_board;
  turn = m.current_turn_player_id;
}

-- The history of a match is a legal game from the start, and its boards, and while it runs its turn, are
-- those to which this game leads.
pub record IsReplayed (one two : ℕ) (start : Position) (m : MatchState) : Type 0 where
  pub player1 : m.player1_id ≡ one
  pub player2 : m.player2_id ≡ two
  pub position : Position
  pub legal : Legal one two start m.move_history position
  pub first : m.player1_board ≡ position.first
  pub second : m.player2_board ≡ position.second
  pub turn : m.is_active ≡ true → m.current_turn_player_id ≡ position.turn

module _ (one two : ℕ) (start : Position) (m : MatchState) (player : ℕ) (target : Coordinate)
    (now : ℕ) where
  abbrev recorded : Move
  recorded = record {
    move_number = m.turn_number;
    player_id = player;
    target = target;
    result = (process_shot (target_board m player) target).1;
    timestamp = now;
  }

  play_history : (play m player target now).0.move_history ≡ m.move_history ++ recorded ∷ []
  unfolding play
  play_history = ground arith

  play_kept :
      ((play m player target now).0.player1_id ≡ m.player1_id)
      × ((play m player target now).0.player2_id ≡ m.player2_id)
      × ((play m player target now).0.is_active ≡ true
          → (play m player target now).0.current_turn_player_id ≡ (
              if is_miss recorded.result
              then if m.current_turn_player_id == m.player1_id then m.player2_id else m.player1_id
              else m.current_turn_player_id))
  unfolding play
  play_kept = ground arith

  play-IsReplayed :
      IsReplayed one two start m
      → m.is_active ≡ true
      → player ≡ m.current_turn_player_id
      → IsReplayed one two start (play m player target now).0
  play-IsReplayed v a t =
      let boards = play_boards m player target now in
      let p = v.position in
      let same : target_board m player ≡ shot_at one two p player =
        rw (v.player1, v.first, v.second) refl in
      record {
        player1 = play_kept.0 ∙ v.player1;
        player2 = play_kept.1 ∙ v.player2;
        position = next_position one two p recorded;
        legal =
            subst (λ h. Legal one two start h (next_position one two p recorded)) (sym play_history)
              (then_move v.legal recorded (t ∙ v.turn a)
                (ap (λ b. (process_shot b target).1) same));
        first = boards.0 ∙ rw (v.player1, v.first, v.second) refl;
        second = boards.1 ∙ rw (v.player1, v.first, v.second) refl;
        turn = λ e. play_kept.2 e ∙ rw (v.player1, v.player2, v.turn a) refl;
      }

  process_move-IsReplayed :
      IsReplayed one two start m → IsReplayed one two start (process_move m player target now).0
  unfolding process_move
  process_move-IsReplayed v = elim (Bool-cases (not m.is_active || m.is_paused)) [
    | inl stop ↦ rw (stop, process_move) v
    | inr run ↦ elim (Bool-cases (player == m.current_turn_player_id)) [
      | inl mine ↦
          rw (run, process_move, mine)
            (play-IsReplayed v (ground (arith, run)) (eq→≡ player m.current_turn_player_id mine))
      | inr other ↦ rw (run, process_move, other) v
    ]
  ]

run-keeps :
    (one two : ℕ) (start : Position) (m : MatchState) (ss : List Shot)
    → IsReplayed one two start m
    → IsReplayed one two start (run m ss)
unfolding run
run-keeps one two start m [] v = v
run-keeps one two start m (s ∷ ss) v =
    run-keeps one two start (process_move m s.player s.target s.now).0 ss
      (process_move-IsReplayed one two start m s.player s.target s.now v)

-- From a match without history on, after any sequence of moves that anyone sends, at any squares and
-- times: the history is a legal game from the boards and the turn at the start (each entry is by the
-- player who is to shoot and has the result of that shot at the other board, a miss passes the turn
-- and a hit keeps it), and replaying it gives the two boards of the match and, while the match runs,
-- the player whose turn it is.
pub run-IsReplayed :
    (m : MatchState) (ss : List Shot)
    → m.move_history ≡ []
    → IsReplayed m.player1_id m.player2_id (position_of m) (run m ss)
run-IsReplayed m ss none = run-keeps m.player1_id m.player2_id (position_of m) m ss (record {
  player1 = refl;
  player2 = refl;
  position = position_of m;
  legal =
      subst (λ h. Legal m.player1_id m.player2_id (position_of m) h (position_of m)) (sym none)
        nothing_yet;
  first = refl;
  second = refl;
  turn = λ _. refl;
})
