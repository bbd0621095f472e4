-- ===== src/Battle/Local.antt =====
-- A battle without the server: the events that the player, the computer opponent and the clock cause.
use networkprogramming_battl.Base.{ℕ, suc, ◌≤◌, ℤ, Bool, true, ◌≡◌, sym, ◌∙◌, subst, some, arith}
use networkprogramming_battl.Protocol.{Coordinate}
use networkprogramming_battl.Board.{Draws}
use networkprogramming_battl.Board.Fleet.{IsValid}
use networkprogramming_battl.Planner.{
  Planner, random_place_all_ships, clear_all_ships, select_ship_for_placement,
  toggle_ship_orientation,
}
use networkprogramming_battl.Battle.Arranging.{IsArmed}
use networkprogramming_battl.Battle.State.{Ui, player_board}
use networkprogramming_battl.Battle.Fire.{
  on_fire_clicked, click_opponent_board, click_player_board, rematch, turn_timer_callback,
}
use networkprogramming_battl.Battle.Bot.{bot_turn_callback, play_vs_bot}
use networkprogramming_battl.Battle.Spent.{spent}
use networkprogramming_battl.Battle.Wear.{IsAim}

-- One event. The computer opponent's call comes due when one is scheduled, the clock ticks while it
-- runs, and a ship is placed with one of the five ships selected, straight.
pub data LocalStep : Ui → Ui → Type 0 where
  clicks : (u : Ui) (row col : ℤ) → LocalStep u (click_opponent_board u row col)
  fires : (u : Ui) (accepted : Bool) → LocalStep u (on_fire_clicked u accepted)
  puts_ship :
      (u u' : Ui) (row col : ℤ)
      → IsArmed u.planner
      → click_player_board u row col ≡ some u'
      → LocalStep u u'
  draws_ships :
      (u : Ui) (p : Planner) (rand : Draws)
      → random_place_all_ships u.planner rand ≡ some p
      → LocalStep u (record u { planner = p })
  clears_ships : (u : Ui) → LocalStep u (record u { planner = clear_all_ships u.planner })
  selects_ship :
      (u : Ui) (type : ℕ)
      → LocalStep u (record u { planner = select_ship_for_placement u.planner type })
  rotates : (u : Ui) → LocalStep u (record u { planner = toggle_ship_orientation u.planner })
  bot_moves :
      (u : Ui) (rand : Draws) (n : ℕ) → u.bot_calls ≡ suc n → LocalStep u (bot_turn_callback rand u)
  ticks : (u : Ui) → u.timer_running ≡ true → LocalStep u (turn_timer_callback u)
  starts : (u u' : Ui) (rand : Draws) → play_vs_bot u rand ≡ some u' → LocalStep u u'
  starts_again : (u u' : Ui) (rand : Draws) → rematch u rand ≡ some u' → LocalStep u u'

-- The events from the first state on.
pub data Plays (first : Ui) : Ui → Type 0 where
  at_first : Plays first first
  after : {u u' : Ui} → Plays first u → LocalStep u u' → Plays first u'

pub record IsFair (u : Ui) : Type 0 where
  pub own : IsValid (player_board u)
  pub theirs : IsValid u.opponent_board
  pub accurate : u.hits_count ≤ u.shots_fired
  pub counted : u.shots_fired ≤ spent u.opponent_board
  pub aimed : (p : Coordinate) → u.selected_target ≡ some p → IsAim u.opponent_board p

-- Two states that agree on what the invariant reads.
pub IsFair-same :
    (u u' : Ui)
    → IsFair u
    → player_board u' ≡ player_board u
    → u'.opponent_board ≡ u.opponent_board
    → u'.hits_count ≡ u.hits_count
    → u'.shots_fired ≡ u.shots_fired
    → u'.selected_target ≡ u.selected_target
    → IsFair u'
IsFair-same u u' f a b c d e = record {
  own = subst IsValid (sym a) f.own;
  theirs = subst IsValid (sym b) f.theirs;
  accurate = omega (arith, f.accurate, c, d);
  counted = rw (b, d) f.counted;
  aimed = λ p h. subst (λ x. IsAim x p) (sym b) (f.aimed p (sym e ∙ h));
}
