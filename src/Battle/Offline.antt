-- ===== src/Battle/Offline.antt =====
-- The screens that are reached without the server.
use networkprogramming_battl.Base.{
  ℕ, List, if◌then◌else◌, ℤ, Bool, true, false, ◌≡◌, refl, subst, some, inl, inr, Option-cases,
  arith,
}
use networkprogramming_battl.Protocol.{Coordinate, ShotResult}
use networkprogramming_battl.Board.{Board, Draws, clear_board, random_placement}
use networkprogramming_battl.Network.{Network, Request}
use networkprogramming_battl.Planner.{Planner, place_ship_at, clear_ship}
use networkprogramming_battl.Battle.{
  UiScreen, screen_game, Ui, player_board, execute_fire_at_target, on_fire_clicked, local_shot,
  after_shot, send_shot, click_opponent_board, click_player_board, rematch, resign_match, next_game,
  turn_timer_callback, on_turn_timer_expired, bot_aim, bot_attempts, bot_shot, bot_take_turn,
  bot_turn_callback, bot_game, play_vs_bot, play_online, on_ready_clicked, exit_to_lobby,
  open_registration, back_to_login, back_to_menu,
}
use networkprogramming_battl.Battle.Local.{
  LocalStep, clicks, fires, puts_ship, draws_ships, clears_ships, selects_ship, rotates, bot_moves,
  ticks, starts, starts_again,
}
use networkprogramming_battl.Battle.Screens.{some_injective}

-- What the buttons, the computer opponent and the clock do. The answers of the server are not among it;
-- what a call of the network (a login, a challenge and so on) makes of the network's own state and
-- of what is handed to it is arbitrary.
pub data Press : Ui → Ui → Type 0 where
  plays : {u u' : Ui} → LocalStep u u' → Press u u'
  places : (u u' : Ui) (row col : ℤ) → click_player_board u row col ≡ some u' → Press u u'
  removes_ship :
      (u : Ui) (type : ℕ) (p : Planner)
      → clear_ship u.planner type ≡ some p
      → Press u (record u { planner = p })
  readies : (u : Ui) (accepted : Bool) → Press u (on_ready_clicked u accepted)
  goes_online : (u : Ui) → Press u (play_online u)
  exits : (u : Ui) → Press u (exit_to_lobby u)
  registers : (u : Ui) → Press u (open_registration u)
  goes_back : (u : Ui) → Press u (back_to_login u)
  goes_to_menu : (u : Ui) → Press u (back_to_menu u)
  resigns : (u : Ui) (accepted : Bool) → Press u (resign_match u accepted)
  asks :
      (u : Ui) (n : Network) (sent : List Request)
      → Press u (record u { network = n; outbox = sent })

pub data Presses (first : Ui) : Ui → Type 0 where
  at_first : Presses first first
  after : {u u' : Ui} → Presses first u → Press u u' → Presses first u'

abbrev pub is_game : UiScreen → Bool
is_game screen_game = true
is_game _ = false

-- The screen after a step is the one before, or not that of the game.
abbrev Stays : Ui → Ui → Type 0
Stays u u' = is_game u.screen ≡ false → is_game u'.screen ≡ false

if-Stays : (b : Bool) (u v w : Ui) → Stays u v → Stays u w → Stays u (if b then v else w)
if-Stays true u v w f g = f
if-Stays false u v w f g = g

shot-Stays : (u : Ui) (x : Board × ShotResult) → Stays u (after_shot u x)
unfolding after_shot
shot-Stays u x h = ground (arith, h)

fire-Stays : (u : Ui) (accepted : Bool) → Stays u (execute_fire_at_target u accepted).0
unfolding execute_fire_at_target send_shot
fire-Stays u accepted h = elim (Option-cases u.selected_target) [
  | inl n ↦ rw (n, execute_fire_at_target) h
  | inr (p, n) ↦ ground (arith, n, h, shot-Stays u (local_shot u.opponent_board p) h)
]

button-Stays : (u : Ui) (accepted : Bool) → Stays u (on_fire_clicked u accepted)
unfolding on_fire_clicked
button-Stays u accepted h =
    ground (arith, h, fire-Stays u accepted h, Option-cases u.selected_target)

bot_shot-Stays : (u : Ui) (p : Coordinate) → Stays u (bot_shot u p)
unfolding bot_shot
bot_shot-Stays u p h = ground (arith, h)

bot-Stays : (rand : Draws) (u : Ui) → Stays u (bot_take_turn rand u)
unfolding bot_take_turn
bot-Stays rand u h = elim (Option-cases (bot_aim rand (player_board u) 0 bot_attempts)) [
  | inl n ↦ ground (arith, n, h)
  | inr (p, n) ↦ ground (arith, n, h, bot_shot-Stays u p h)
]

tick-Stays : (u : Ui) → Stays u (turn_timer_callback u)
unfolding turn_timer_callback on_turn_timer_expired
tick-Stays u h = ground (arith, h)

click-Stays : (u : Ui) (row col : ℤ) → Stays u (click_opponent_board u row col)
unfolding click_opponent_board
click-Stays u row col h = ground (arith, h)

start-Stays : (u u' : Ui) (rand : Draws) → play_vs_bot u rand ≡ some u' → Stays u u'
unfolding play_vs_bot bot_game
start-Stays u u' rand e h = elim (Option-cases (random_placement rand u.opponent_board)) [
  | inl n ↦ absurd (ground (arith, e, n))
  | inr ((b, k), n) ↦
      subst (λ w. is_game w.screen ≡ false)
        (some_injective {u = bot_game u b} {u' = u'} (ground (arith, e, n))) refl
]

again-Stays : (u u' : Ui) (rand : Draws) → rematch u rand ≡ some u' → Stays u u'
unfolding rematch next_game
again-Stays u u' rand e h =
    elim (Option-cases (random_placement rand (clear_board u.opponent_board))) [
      | inl n ↦ absurd (ground (arith, e, n))
      | inr ((b, k), n) ↦
          subst (λ w. is_game w.screen ≡ false)
            (some_injective {u = next_game u b} {u' = u'} (ground (arith, e, n))) refl
    ]

place-Stays : (u u' : Ui) (row col : ℤ) → click_player_board u row col ≡ some u' → Stays u u'
unfolding click_player_board
place-Stays u u' row col e h = elim (Option-cases (place_ship_at u.planner row col)) [
  | inl n ↦ ground (arith, e, n, h)
  | inr (p, n) ↦ ground (arith, e, n, h)
]

local-Stays : {u u' : Ui} → LocalStep u u' → Stays u u'
unfolding bot_turn_callback
local-Stays (clicks u row col) h = click-Stays u row col h
local-Stays (fires u accepted) h = button-Stays u accepted h
local-Stays (puts_ship u u' row col _ e) h = place-Stays u u' row col e h
local-Stays (draws_ships u p rand e) h = h
local-Stays (clears_ships u) h = h
local-Stays (selects_ship u type) h = h
local-Stays (rotates u) h = h
local-Stays (bot_moves u rand n _) h = bot-Stays rand _ h
local-Stays (ticks u _) h = tick-Stays u h
local-Stays (starts u u' rand e) h = start-Stays u u' rand e h
local-Stays (starts_again u u' rand e) h = again-Stays u u' rand e h

press-Stays : {u u' : Ui} → Press u u' → Stays u u'
unfolding on_ready_clicked play_online resign_match exit_to_lobby open_registration back_to_login
    back_to_menu
press-Stays (plays s) h = local-Stays s h
press-Stays (places u u' row col e) h = place-Stays u u' row col e h
press-Stays (readies u accepted) h = ground (arith, h)
press-Stays (removes_ship u type p e) h = h
press-Stays (goes_online u) h = refl
press-Stays (exits u) h = refl
press-Stays (registers u) h = refl
press-Stays (goes_back u) h = refl
press-Stays (goes_to_menu u) h = refl
press-Stays (asks u n sent) h = h
press-Stays (resigns u accepted) h = ground (arith, h)

-- Without a message of the server, no sequence of clicks on the boards, of calls of the computer
-- opponent, of ticks of the clock and of the buttons of the main menu, the login and registration
-- forms, the lobby, the placement screen, the game screen and its dialogs leads from another screen
-- to that of the game: a game against the computer opponent does not begin offline.
pub no_offline_game :
    {u u' : Ui} → Presses u u' → is_game u.screen ≡ false → is_game u'.screen ≡ false
no_offline_game at_first h = h
no_offline_game (after p s) h = press-Stays s (no_offline_game p h)
