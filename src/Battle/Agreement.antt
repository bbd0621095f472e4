-- ===== src/Battle/Agreement.antt =====
-- A match on the server with the battle screens of its two players: every move that the server accepts
-- is told to both.
use networkprogramming_battl.Base.{
  ℕ, suc, ◌≢◌, ◌==◌, ≢→eq, ≡→eq, if◌then◌else◌, Bool, true, false, ◌≡◌, refl, ap, sym, ◌∙◌, subst,
  ◌⊎◌, some, inl, inr, Option-cases, arith,
}
use networkprogramming_battl.Protocol.{Coordinate}
use networkprogramming_battl.Messages.{MoveResultMessage}
use networkprogramming_battl.Board.{Board, process_shot}
use networkprogramming_battl.Match
use networkprogramming_battl.Match.{MatchState, target_board, process_move, play}
use networkprogramming_battl.Battle.{
  Ui, player_board, set_player_board, is_hit, show_shot, on_move_result,
}
use networkprogramming_battl.Battle.Acts.{Act, Keeps, Act-Keeps, some_injective}

pub record Table : Type 0 where
  pub game : MatchState
  pub first : Ui
  pub second : Ui

-- An accepted move, with the result that goes to both players.
pub record IsTold (g : MatchState) (player now : ℕ) (m : MoveResultMessage) : Type 0 where
  pub active : g.is_active ≡ true
  pub running : g.is_paused ≡ false
  pub in_turn : player ≡ g.current_turn_player_id
  pub shooter : m.shooter_id ≡ player

pub data TableStep : Table → Table → Type 0 where
  first_acts : (t : Table) (u : Ui) → Act t.first u → TableStep t (record t { first = u })
  second_acts : (t : Table) (u : Ui) → Act t.second u → TableStep t (record t { second = u })
  moves :
      (t : Table) (player now : ℕ) (m : MoveResultMessage) (u v : Ui)
      → IsTold t.game player now m
      → (player ≡ t.game.player1_id) ⊎ (player ≡ t.game.player2_id)
      → on_move_result t.first m ≡ some u
      → on_move_result t.second m ≡ some v
      → TableStep t
          (record { game = (process_move t.game player m.target now).0; first = u; second = v })

pub data TableRun (start : Table) : Table → Type 0 where
  at_start : TableRun start start
  after : {t t' : Table} → TableRun start t → TableStep t t' → TableRun start t'

-- Each screen belongs to its player, is not in bot mode and shows the board that the server has for him.
pub record Agrees (t : Table) : Type 0 where
  pub apart : t.game.player1_id ≢ t.game.player2_id
  pub first_user : t.first.network.user_id ≡ t.game.player1_id
  pub second_user : t.second.network.user_id ≡ t.game.player2_id
  pub first_mode : t.first.is_bot_mode ≡ false
  pub second_mode : t.second.is_bot_mode ≡ false
  pub first_board : player_board t.first ≡ t.game.player1_board
  pub second_board : player_board t.second ≡ t.game.player2_board

abbrev scored : Ui → MoveResultMessage → Board → Ui
scored u m b = record u {
  opponent_board = b;
  hits_count = if is_hit m.result then suc u.hits_count else u.hits_count;
  shots_fired = suc u.shots_fired;
}

-- The result of the player's own shot leaves his board, and that of the other's shot hits it.
own_result :
    (u u' : Ui) (m : MoveResultMessage)
    → m.shooter_id ≡ u.network.user_id
    → on_move_result u m ≡ some u'
    → Keeps u u'
unfolding on_move_result
own_result u u' m s e = elim (Option-cases (show_shot u.opponent_board m)) [
  | inl n ↦ absurd (ground (arith, e, n, s))
  | inr (b, n) ↦
      subst (Keeps u) (some_injective {u = scored u m b} {u' = u'} (ground (arith, e, n, s)))
        (record { board = refl; user = refl; mode = refl })
]

other_result :
    (u u' : Ui) (m : MoveResultMessage)
    → m.shooter_id ≢ u.network.user_id
    → on_move_result u m ≡ some u'
    → (player_board u' ≡ (process_shot (player_board u) m.target).0)
      × (u'.network.user_id ≡ u.network.user_id)
      × (u'.is_bot_mode ≡ u.is_bot_mode)
unfolding on_move_result
other_result u u' m s e =
    let hit = set_player_board u (process_shot (player_board u) m.target).0 in
    subst
      (λ w.
        (player_board w ≡ (process_shot (player_board u) m.target).0)
        × (w.network.user_id ≡ u.network.user_id)
        × (w.is_bot_mode ≡ u.is_bot_mode))
      (some_injective {u = hit} {u' = u'} (ground (arith, e, s))) (refl, refl, refl)

accepted_boards :
    (g : MatchState) (player now : ℕ) (target : Coordinate)
    → g.is_active ≡ true
    → g.is_paused ≡ false
    → player ≡ g.current_turn_player_id
    → let g' = (process_move g player target now).0 in
      (g'.player1_id ≡ g.player1_id)
      × (g'.player2_id ≡ g.player2_id)
      × (g'.player1_board ≡ (
          if player == g.player1_id
          then g.player1_board
          else (process_shot g.player1_board target).0))
      × (g'.player2_board ≡ (
          if player == g.player1_id
          then (process_shot g.player2_board target).0
          else g.player2_board))
unfolding process_move play Match.end_match Match.switch_turn Match.add_move_to_history
accepted_boards g player now target a p t = ground (arith, a, p, t)

if_true : {A : Type 0} (b : Bool) (x y : A) → b ≡ true → (if b then x else y) ≡ x
if_true true x y e = refl
if_true false x y e = absurd (ground arith)

if_false : {A : Type 0} (b : Bool) (x y : A) → b ≡ false → (if b then x else y) ≡ y
if_false false x y e = refl
if_false true x y e = absurd (ground arith)

module _ (t : Table) (player now : ℕ) (m : MoveResultMessage) (u v : Ui) (a : Agrees t)
    (told : IsTold t.game player now m) (e : on_move_result t.first m ≡ some u)
    (f : on_move_result t.second m ≡ some v) where
  abbrev moved : Table
  moved = record { game = (process_move t.game player m.target now).0; first = u; second = v }

  first_moves : player ≡ t.game.player1_id → Agrees moved
  first_moves h =
      let b = accepted_boards t.game player now m.target told.active told.running told.in_turn in
      let own = own_result t.first u m (omega (arith, told.shooter, a.first_user)) e in
      let hit =
        other_result t.second v m (λ x. a.apart (omega (arith, x, h, told.shooter, a.second_user)))
          f in
      let mine : (player == t.game.player1_id) ≡ true = ≡→eq player t.game.player1_id h in
      record {
        apart = λ x. a.apart (omega (arith, x, b.0, b.1));
        first_user = omega (arith, own.user, a.first_user, b.0);
        second_user = omega (arith, hit.1, a.second_user, b.1);
        first_mode = own.mode ∙ a.first_mode;
        second_mode = hit.2 ∙ a.second_mode;
        first_board = own.board ∙ a.first_board ∙ sym (b.2 ∙ if_true _ _ _ mine);
        second_board =
            hit.0
            ∙ ap (λ x. (process_shot x m.target).0) a.second_board
            ∙ sym (b.3 ∙ if_true _ _ _ mine);
      }

  second_moves : player ≡ t.game.player2_id → Agrees moved
  second_moves h =
      let b = accepted_boards t.game player now m.target told.active told.running told.in_turn in
      let own = own_result t.second v m (omega (arith, told.shooter, a.second_user)) f in
      let hit =
        other_result t.first u m (λ x. a.apart (omega (arith, x, h, told.shooter, a.first_user)))
          e in
      let other : (player == t.game.player1_id) ≡ false =
        ≢→eq player t.game.player1_id (λ x. a.apart (omega (arith, x, h))) in
      record {
        apart = λ x. a.apart (omega (arith, x, b.0, b.1));
        first_user = omega (arith, hit.1, a.first_user, b.0);
        second_user = omega (arith, own.user, a.second_user, b.1);
        first_mode = hit.2 ∙ a.first_mode;
        second_mode = own.mode ∙ a.second_mode;
        first_board =
            hit.0
            ∙ ap (λ x. (process_shot x m.target).0) a.first_board
            ∙ sym (b.2 ∙ if_false _ _ _ other);
        second_board = own.board ∙ a.second_board ∙ sym (b.3 ∙ if_false _ _ _ other);
      }

TableStep-Agrees : {t t' : Table} → TableStep t t' → Agrees t → Agrees t'
TableStep-Agrees (first_acts t u s) a =
    let k = Act-Keeps s a.first_mode in
    record {
      apart = a.apart;
      first_user = k.user ∙ a.first_user;
      second_user = a.second_user;
      first_mode = k.mode ∙ a.first_mode;
      second_mode = a.second_mode;
      first_board = k.board ∙ a.first_board;
      second_board = a.second_board;
    }
TableStep-Agrees (second_acts t u s) a =
    let k = Act-Keeps s a.second_mode in
    record {
      apart = a.apart;
      first_user = a.first_user;
      second_user = k.user ∙ a.second_user;
      first_mode = a.first_mode;
      second_mode = k.mode ∙ a.second_mode;
      first_board = a.first_board;
      second_board = k.board ∙ a.second_board;
    }
TableStep-Agrees (moves t player now m u v told who e f) a = elim who [
  | inl h ↦ first_moves t player now m u v a told e f h
  | inr h ↦ second_moves t player now m u v a told e f h
]

-- From a start where both screens agree with the server's match and neither is in bot mode: while the
-- accepted moves of the server reach both players, and the screens do between them no more than take
-- clicks on their boards outside of the placement screen, the buttons FIRE and SURRENDER, the clock,
-- calls of the computer opponent and TURN_UPDATE messages, in any order, each screen shows for its own
-- player the board that the server plays on. (PLAY VS BOT, REMATCH, the placement screen and a new
-- MATCH_START are not among these steps: they change the own board.)
pub TableRun-Agrees : {t t' : Table} → TableRun t t' → Agrees t → Agrees t'
TableRun-Agrees at_start a = a
TableRun-Agrees (after r s) a = TableStep-Agrees s (TableRun-Agrees r a)
