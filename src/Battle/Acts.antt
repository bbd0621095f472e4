-- ===== src/Battle/Acts.antt =====
-- What a screen does on its own during a match, and what it leaves alone.
use networkprogramming_battl.Base.{
  ℤ, Bool, false, ◌≡◌, refl, ap, subst, none, some, inl, inr, Option-cases, arith,
}
use networkprogramming_battl.Protocol.{Coordinate, ShotResult}
use networkprogramming_battl.Messages.{TurnUpdateMessage}
use networkprogramming_battl.Board.{Board, Draws}
use networkprogramming_battl.Network.{send_move, send_resign}
use networkprogramming_battl.Battle.Arranging.{is_placing}
use networkprogramming_battl.Battle.{
  Ui, player_board, click_opponent_board, click_player_board, on_fire_clicked,
  execute_fire_at_target, local_shot, after_shot, resign_match, bot_turn_callback, bot_take_turn,
  turn_timer_callback, on_turn_timer_expired, send_shot, on_turn_update,
}

-- What one screen does on its own while the match runs: a click on either board, outside of the
-- placement screen, the buttons FIRE and SURRENDER, the clock, a call of the computer opponent that
-- comes due, and a TURN_UPDATE.
pub data Act : Ui → Ui → Type 0 where
  clicks : (u : Ui) (row col : ℤ) → Act u (click_opponent_board u row col)
  clicks_own :
      (u u' : Ui) (row col : ℤ)
      → is_placing u.screen ≡ false
      → click_player_board u row col ≡ some u'
      → Act u u'
  fires : (u : Ui) (accepted : Bool) → Act u (on_fire_clicked u accepted)
  resigns : (u : Ui) (accepted : Bool) → Act u (resign_match u accepted)
  ticks : (u : Ui) → Act u (turn_timer_callback u)
  bot_comes : (u : Ui) (rand : Draws) → Act u (bot_turn_callback rand u)
  hears_turn : (u : Ui) (m : TurnUpdateMessage) → Act u (on_turn_update u m)

pub some_injective : {u u' : Ui} → some u ≡ some u' → u ≡ u'
some_injective {u} e = ap (λ o. elim o [ none ↦ u | some x ↦ x ]) e

-- The own board, the user and the mode stay.
pub record Keeps (u u' : Ui) : Type 0 where
  pub board : player_board u' ≡ player_board u
  pub user : u'.network.user_id ≡ u.network.user_id
  pub mode : u'.is_bot_mode ≡ u.is_bot_mode

same-Keeps : (u : Ui) → Keeps u u
same-Keeps u = record { board = refl; user = refl; mode = refl }

click-Keeps : (u : Ui) (row col : ℤ) → Keeps u (click_opponent_board u row col)
unfolding click_opponent_board
click-Keeps u row col = record { board = ground arith; user = ground arith; mode = ground arith }

own_click-Keeps :
    (u u' : Ui) (row col : ℤ)
    → is_placing u.screen ≡ false
    → click_player_board u row col ≡ some u'
    → Keeps u u'
unfolding click_player_board
own_click-Keeps u u' row col s e =
    subst (Keeps u) (some_injective {u = u} {u' = u'} (ground (arith, s, e))) (same-Keeps u)

send-Keeps : (u : Ui) (p : Coordinate) (accepted : Bool) → Keeps u (send_shot u p accepted)
unfolding send_shot send_move
send-Keeps u p accepted = record { board = refl; user = ground arith; mode = refl }

shot-Keeps : (u : Ui) (x : Board × ShotResult) → Keeps u (after_shot u x)
unfolding after_shot
shot-Keeps u x = record { board = ground arith; user = ground arith; mode = ground arith }

execute-Keeps : (u : Ui) (accepted : Bool) → Keeps u (execute_fire_at_target u accepted).0
unfolding execute_fire_at_target
execute-Keeps u accepted = elim (Option-cases u.selected_target) [
  | inl n ↦ record { board = ground (arith, n); user = ground (arith, n); mode = ground (arith, n) }
  | inr (p, n) ↦
      let sent = send-Keeps u p accepted in
      let shot = shot-Keeps u (local_shot u.opponent_board p) in
      record {
        board = ground (arith, n, sent.board, shot.board);
        user = ground (arith, n, sent.user, shot.user);
        mode = ground (arith, n, sent.mode, shot.mode);
      }
]

fire-Keeps : (u : Ui) (accepted : Bool) → Keeps u (on_fire_clicked u accepted)
unfolding on_fire_clicked
fire-Keeps u accepted =
    let k = execute-Keeps u accepted in
    let cases = Option-cases u.selected_target in
    record {
      board = ground (arith, k.board, cases);
      user = ground (arith, k.user, cases);
      mode = ground (arith, k.mode, cases);
    }

resign-Keeps : (u : Ui) (accepted : Bool) → Keeps u (resign_match u accepted)
unfolding resign_match send_resign
resign-Keeps u accepted = record { board = ground arith; user = ground arith; mode = ground arith }

tick-Keeps : (u : Ui) → Keeps u (turn_timer_callback u)
unfolding turn_timer_callback on_turn_timer_expired
tick-Keeps u = record { board = ground arith; user = ground arith; mode = ground arith }

-- Out of bot mode a call of the computer opponent does nothing.
bot-Keeps : (u : Ui) (rand : Draws) → u.is_bot_mode ≡ false → Keeps u (bot_turn_callback rand u)
unfolding bot_turn_callback bot_take_turn
bot-Keeps u rand m = record {
  board = ground (arith, m);
  user = ground (arith, m);
  mode = ground (arith, m);
}

turn-Keeps : (u : Ui) (m : TurnUpdateMessage) → Keeps u (on_turn_update u m)
unfolding on_turn_update
turn-Keeps u m = record { board = ground arith; user = ground arith; mode = ground arith }

pub Act-Keeps : {u u' : Ui} → Act u u' → u.is_bot_mode ≡ false → Keeps u u'
Act-Keeps (clicks u row col) m = click-Keeps u row col
Act-Keeps (clicks_own u u' row col s e) m = own_click-Keeps u u' row col s e
Act-Keeps (fires u accepted) m = fire-Keeps u accepted
Act-Keeps (resigns u accepted) m = resign-Keeps u accepted
Act-Keeps (ticks u) m = tick-Keeps u
Act-Keeps (bot_comes u rand) m = bot-Keeps u rand m
Act-Keeps (hears_turn u msg) m = turn-Keeps u msg
