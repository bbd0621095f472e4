-- ===== src/Battle/Fair.antt =====
-- Every event of a battle without the server keeps the state fair.
use networkprogramming_battl.Base.{
  ℕ, ℤ, pos, negsuc, true, ◌&&◌, ◌≡◌, refl, ap, sym, ◌∙◌, subst, none, some, inl, inr, Bool-cases,
  Option-cases, arith,
}
use networkprogramming_battl.Board.{Board, Draws, is_fresh, get_cell, clear_board, random_placement}
use networkprogramming_battl.Board.Fleet.{IsValid}
use networkprogramming_battl.Board.Random.{Unshot, clear_board-IsValid, random_placement-Unshot}
use networkprogramming_battl.Planner.{
  Planner, place_ship_at, clear_all_ships, select_ship_for_placement, toggle_ship_orientation,
}
use networkprogramming_battl.Battle.Arranging.{
  IsArmed, is_placing, place_ship_at-IsValid, random_place_all_ships-IsValid,
}
use networkprogramming_battl.Battle.State.{Ui, player_board}
use networkprogramming_battl.Battle.Fire.{click_player_board, on_grid, next_game, rematch}
use networkprogramming_battl.Battle.Bot.{bot_turn_callback, bot_game, play_vs_bot}
use networkprogramming_battl.Battle.Local.{
  LocalStep, clicks, fires, puts_ship, draws_ships, clears_ships, selects_ship, rotates, bot_moves,
  ticks, starts, starts_again, Plays, at_first, after, IsFair, IsFair-same,
}
use networkprogramming_battl.Battle.Shooting.{click-IsFair, button-IsFair, bot-IsFair, tick-IsFair}

get_cell-Unshot : (b : Board) (z w : ℤ) → Unshot b.grid → is_fresh (get_cell b z w) ≡ true
unfolding get_cell
get_cell-Unshot b (pos r) (pos c) h = ground (arith, h r c)
get_cell-Unshot b (pos r) (negsuc c) h = refl
get_cell-Unshot b (negsuc r) w h = refl

-- A new game: the statistics are at 0, and a target that is still selected can be aimed at.
fresh_game :
    (u u' : Ui)
    → IsFair u
    → IsValid (player_board u')
    → IsValid u'.opponent_board
    → Unshot u'.opponent_board.grid
    → u'.hits_count ≡ 0
    → u'.shots_fired ≡ 0
    → u'.selected_target ≡ u.selected_target
    → IsFair u'
fresh_game u u' f v w h a b e = record {
  own = v;
  theirs = w;
  accurate = omega (arith, a, b);
  counted = omega (arith, b);
  aimed = λ p s. record {
    aboard = (f.aimed p (sym e ∙ s)).aboard;
    fresh = get_cell-Unshot u'.opponent_board p.row p.col h;
  };
}

some_injective : {u u' : Ui} → some u ≡ some u' → u ≡ u'
some_injective {u} e = ap (λ o. elim o [ none ↦ u | some x ↦ x ]) e

start-IsFair : (u u' : Ui) (rand : Draws) → play_vs_bot u rand ≡ some u' → IsFair u → IsFair u'
unfolding play_vs_bot bot_game
start-IsFair u u' rand e f =
    let ran : (v : Ui) (b : Board) (k : ℕ) (rand : Draws)
        → random_placement rand v.opponent_board ≡ some (b, k)
        → play_vs_bot v rand ≡ some (bot_game v b) =
      λ v b k rand n. rw (n, play_vs_bot) refl in
    let (b, k, n, v, fresh) = random_placement-Unshot rand u.opponent_board in
    subst IsFair (some_injective {u = bot_game u b} (sym (ran u b k rand n) ∙ e))
      (fresh_game u (bot_game u b) f (clear_board-IsValid (player_board u)) v fresh refl refl refl)

rematch-IsFair : (u u' : Ui) (rand : Draws) → rematch u rand ≡ some u' → IsFair u → IsFair u'
unfolding rematch next_game
rematch-IsFair u u' rand e f =
    let ran : (v : Ui) (b : Board) (k : ℕ) (rand : Draws)
        → random_placement rand (clear_board v.opponent_board) ≡ some (b, k)
        → rematch v rand ≡ some (next_game v b) =
      λ v b k rand n. rw (n, rematch) refl in
    let (b, k, n, v, fresh) = random_placement-Unshot rand (clear_board u.opponent_board) in
    subst IsFair (some_injective {u = next_game u b} (sym (ran u b k rand n) ∙ e))
      (fresh_game u (next_game u b) f (clear_board-IsValid (player_board u)) v fresh refl refl refl)

-- A change of the own board alone.
arranged-IsFair :
    (u : Ui) (p : Planner) → IsFair u → IsValid p.player_board → IsFair (record u { planner = p })
arranged-IsFair u p f v = record {
  own = v;
  theirs = f.theirs;
  accurate = f.accurate;
  counted = f.counted;
  aimed = f.aimed;
}

place-IsFair :
    (u u' : Ui) (row col : ℤ)
    → IsArmed u.planner
    → click_player_board u row col ≡ some u'
    → IsFair u
    → IsFair u'
unfolding click_player_board
place-IsFair u u' row col armed e f = elim (Bool-cases (on_grid row col && is_placing u.screen)) [
  | inr k ↦ subst IsFair (some_injective {u = u} {u' = u'} (ground (arith, e, k))) f
  | inl k ↦ elim (Option-cases (place_ship_at u.planner row col)) [
    | inl n ↦ absurd (ground (arith, e, k, n))
    | inr (p, n) ↦
        subst IsFair
          (some_injective {u = record u { planner = p }} {u' = u'} (ground (arith, e, k, n)))
          (arranged-IsFair u p f (place_ship_at-IsValid u.planner p row col armed f.own n))
  ]
]

step-IsFair : {u u' : Ui} → LocalStep u u' → IsFair u → IsFair u'
unfolding bot_turn_callback clear_all_ships select_ship_for_placement toggle_ship_orientation
step-IsFair (clicks u row col) f = click-IsFair u row col f
step-IsFair (fires u accepted) f = button-IsFair u accepted f
step-IsFair (puts_ship u u' row col armed e) f = place-IsFair u u' row col armed e f
step-IsFair (draws_ships u p rand e) f =
    arranged-IsFair u p f (random_place_all_ships-IsValid u.planner p rand e)
step-IsFair (clears_ships u) f = arranged-IsFair u _ f (clear_board-IsValid (player_board u))
step-IsFair (selects_ship u type) f = arranged-IsFair u _ f f.own
step-IsFair (rotates u) f = arranged-IsFair u _ f f.own
step-IsFair (bot_moves u rand n _) f =
    bot-IsFair rand _ (IsFair-same _ _ f refl refl refl refl refl)
step-IsFair (ticks u _) f = tick-IsFair u f
step-IsFair (starts u u' rand e) f = start-IsFair u u' rand e f
step-IsFair (starts_again u u' rand e) f = rematch-IsFair u u' rand e f

pub Plays-IsFair : {u u' : Ui} → Plays u u' → IsFair u → IsFair u'
Plays-IsFair at_first f = f
Plays-IsFair (after p s) f = step-IsFair s (Plays-IsFair p f)
