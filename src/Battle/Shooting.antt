-- ===== src/Battle/Shooting.antt =====
-- Clicks, shots, the computer opponent and the clock keep the state fair.
use networkprogramming_battl.Base.{
  ℕ, zero, suc, ◌+◌, ◌*◌, ◌/◌, ◌≤◌, ◌<◌, leb, ◌==◌, if◌then◌else◌, ℤ, pos, negsuc, int_gt, Bool,
  true, false, not, ◌&&◌, ◌||◌, ◌≡◌, refl, ap, sym, ◌∙◌, subst, Option, none, some, inl, inr,
  Bool-cases, Option-cases, arith,
}
use networkprogramming_battl.Base
use networkprogramming_battl.Protocol.{Coordinate}
use networkprogramming_battl.Board.{Draws, is_fresh, get_cell, process_shot, all_ships_sunk}
use networkprogramming_battl.Board.Shots.{process_shot-IsValid}
use networkprogramming_battl.Battle.State.{Ui, player_board, set_player_board, switch_turn}
use networkprogramming_battl.Battle.Fire.{
  is_hit, is_online, send_shot, local_shot, after_shot, execute_fire_at_target, on_fire_clicked,
  on_grid, click_opponent_board, on_turn_timer_expired, turn_timer_callback,
}
use networkprogramming_battl.Battle.Bot.{bot_aim, bot_attempts, bot_shot, bot_take_turn}
use networkprogramming_battl.Battle.Marking.{local_shot-IsValid}
use networkprogramming_battl.Battle.Wear.{IsAim, local_shot-spends}
use networkprogramming_battl.Battle.Local.{IsFair, IsFair-same}

pick-IsFair : (b : Bool) (u u' : Ui) → IsFair u → IsFair u' → IsFair (if b then u else u')
pick-IsFair true u u' f g = f
pick-IsFair false u u' f g = g

pick_shot :
    (b : Bool) (x y : Ui × Bool)
    → (b ≡ true → IsFair x.0)
    → (b ≡ false → IsFair y.0)
    → IsFair (if b then x else y).0
pick_shot true x y f g = f refl
pick_shot false x y f g = g refl

pub click-IsFair : (u : Ui) (row col : ℤ) → IsFair u → IsFair (click_opponent_board u row col)
unfolding click_opponent_board
click-IsFair u row col f =
    elim (Bool-cases (on_grid row col && is_fresh (get_cell u.opponent_board row col))) [
      | inl k ↦
          let chosen : IsFair
              (record u { selected_target = some (record { row = row; col = col }) }) =
            record {
              own = f.own;
              theirs = f.theirs;
              accurate = f.accurate;
              counted = f.counted;
              aimed = λ p h.
                  subst (IsAim u.opponent_board) {x = record { row = row; col = col }}
                    (ground arith)
                    (record { aboard = ground (arith, k); fresh = ground (arith, k) });
            } in
          pick-IsFair (not (on_grid row col)) _ _ f (
            pick-IsFair (not u.is_player_turn) _ _ f
              (pick-IsFair (is_fresh (get_cell u.opponent_board row col)) _ _ chosen f))
      | inr k ↦ ground (arith, k, f)
    ]

after_shot-IsFair :
    (u : Ui) (p : Coordinate)
    → IsFair u
    → IsAim u.opponent_board p
    → IsFair (after_shot u (local_shot u.opponent_board p))
unfolding after_shot
after_shot-IsFair u p f aim =
    let x = local_shot u.opponent_board p in
    let shot : IsFair (record u {
      opponent_board = x.0;
      shots_fired = suc u.shots_fired;
      hits_count = if is_hit x.1 then suc u.hits_count else u.hits_count;
      selected_target = none;
    }) =
      record {
        own = f.own;
        theirs = local_shot-IsValid u.opponent_board p f.theirs;
        accurate = ground (arith, f.accurate);
        counted = omega (arith, f.counted, local_shot-spends u.opponent_board p aim);
        aimed = λ p h. absurd (ground arith);
      } in
    pick-IsFair (all_ships_sunk x.0) _ _ (IsFair-same _ _ shot refl refl refl refl refl) (
      pick-IsFair (is_hit x.1) _ _ (IsFair-same _ _ shot refl refl refl refl refl) (
        pick-IsFair (u.is_bot_mode && not (not u.is_player_turn)) _ _
          (IsFair-same _ _ shot refl refl refl refl refl)
          (pick-IsFair (not u.is_bot_mode) _ _ (IsFair-same _ _ shot refl refl refl refl refl)
            (IsFair-same _ _ shot refl refl refl refl refl))))

sent_shot-IsFair :
    (u : Ui) (p : Coordinate) (accepted : Bool) → IsFair u → IsFair (send_shot u p accepted)
unfolding send_shot
sent_shot-IsFair u p accepted f = record {
  own = f.own;
  theirs = f.theirs;
  accurate = f.accurate;
  counted = f.counted;
  aimed = λ q h. absurd (ground arith);
}

fire-IsFair : (u : Ui) (accepted : Bool) → IsFair u → IsFair (execute_fire_at_target u accepted).0
unfolding execute_fire_at_target
fire-IsFair u accepted f = elim (Option-cases u.selected_target) [
  | inl n ↦ rw (n, execute_fire_at_target) f
  | inr (p, e) ↦
      rw (e, execute_fire_at_target)
        (pick_shot (not u.is_player_turn) _ _ (λ _. f)
          (λ _.
            pick_shot (is_online u) _ _ (λ _. sent_shot-IsFair u p accepted f)
              (λ _. after_shot-IsFair u p f (f.aimed p e))))
]

pub button-IsFair : (u : Ui) (accepted : Bool) → IsFair u → IsFair (on_fire_clicked u accepted)
unfolding on_fire_clicked
button-IsFair u accepted f =
    let x = execute_fire_at_target u accepted in
    let kept = fire-IsFair u accepted f in
    pick-IsFair (not u.is_player_turn) _ _ (IsFair-same _ _ f refl refl refl refl refl)
      (elim (Option-cases u.selected_target) [
        | inl n ↦ rw (n, on_fire_clicked) (IsFair-same _ _ f refl refl refl refl refl)
        | inr (p, e) ↦
            rw (e, on_fire_clicked)
              (pick-IsFair x.1 _ _ kept (IsFair-same _ _ kept refl refl refl refl refl))
      ])

bot_shot-IsFair : (u : Ui) (p : Coordinate) → IsFair u → IsFair (bot_shot u p)
unfolding bot_shot
bot_shot-IsFair u p f =
    let x = process_shot (player_board u) p in
    let shot : IsFair (set_player_board u x.0) = record {
      own = process_shot-IsValid (player_board u) p f.own;
      theirs = f.theirs;
      accurate = f.accurate;
      counted = f.counted;
      aimed = f.aimed;
    } in
    let turned =
      pick-IsFair (is_hit x.1) _ _ (IsFair-same _ _ shot refl refl refl refl refl)
        (IsFair-same _ (switch_turn (set_player_board u x.0)) shot refl refl refl refl refl) in
    pick-IsFair (all_ships_sunk x.0) _ _ (IsFair-same _ _ turned refl refl refl refl refl) turned

pub bot-IsFair : (rand : Draws) (u : Ui) → IsFair u → IsFair (bot_take_turn rand u)
unfolding bot_take_turn
bot-IsFair rand u f =
    pick-IsFair (u.is_player_turn || not u.is_bot_mode) _ _ f
      (elim (Option-cases (bot_aim rand (player_board u) 0 bot_attempts)) [
        | inl n ↦ rw (n, bot_take_turn) (IsFair-same _ _ f refl refl refl refl refl)
        | inr (p, e) ↦ rw (e, bot_take_turn) (bot_shot-IsFair u p f)
      ])

pub tick-IsFair : (u : Ui) → IsFair u → IsFair (turn_timer_callback u)
unfolding turn_timer_callback on_turn_timer_expired
tick-IsFair u f =
    let ticked =
      IsFair-same u (record u { turn_time_remaining = Base.pred u.turn_time_remaining }) f refl refl
        refl refl refl in
    let cleared : IsFair (record u { selected_target = none }) = record {
      own = f.own;
      theirs = f.theirs;
      accurate = f.accurate;
      counted = f.counted;
      aimed = λ p h. absurd (ground arith);
    } in
    pick-IsFair (int_gt (Base.pred u.turn_time_remaining) 0) _ _ ticked (
      pick-IsFair (u.is_bot_mode && not (not u.is_player_turn)) _ _
        (IsFair-same _ _ cleared refl refl refl refl refl)
        (pick-IsFair (not u.is_bot_mode) _ _ (IsFair-same _ _ cleared refl refl refl refl refl)
          (IsFair-same _ _ cleared refl refl refl refl refl)))
