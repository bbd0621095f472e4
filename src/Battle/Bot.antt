-- ===== src/Battle/Bot.antt =====
-- The computer opponent (UIManager::botTakeTurn, client/src/ui_manager.cpp) and the buttons of the main
-- menu that start a game (client/src/ui_screens.cpp).
use networkprogramming_battl.Base.{
  ℕ, zero, suc, ◌+◌, ◌-◌, if◌then◌else◌, Bool, true, false, not, ◌||◌, Option, none, some, ◌++◌,
}
use networkprogramming_battl.Protocol.{Coordinate}
use networkprogramming_battl.Board.{
  Board, is_fresh, process_shot, all_ships_sunk, get_cell, clear_board, Draws, drawn_pos,
  random_placement,
}
use networkprogramming_battl.Planner.{all_ships_placed}
use networkprogramming_battl.Network.{send_ship_placement}
use networkprogramming_battl.Battle.State.{
  screen_ship_placement, screen_lobby, screen_register, screen_login, screen_main_menu, defeat, Ui,
  player_board, set_player_board, show_popup, schedule_bot, switch_turn, show_screen,
}
use networkprogramming_battl.Battle.Fire.{is_hit}

-- the loop that draws a cell, from draw k on with the attempts left
unfoldable pub bot_aim : Draws → Board → ℕ → ℕ → Option Coordinate
bot_aim rand b k zero = none
bot_aim rand b k (suc attempts) =
    let p = drawn_pos rand k in
    let rest = bot_aim rand b (k + 2) attempts in
    if is_fresh (get_cell b p.row p.col) then some p else rest

abbrev pub bot_attempts : ℕ
bot_attempts = 100

-- botTakeTurn from the shot on
unfoldable pub bot_shot : Ui → Coordinate → Ui
bot_shot u p =
    let x = process_shot (player_board u) p in
    let shot = set_player_board u x.0 in
    let turned = if is_hit x.1 then schedule_bot shot else switch_turn shot in
    if all_ships_sunk x.0 then show_popup defeat turned else turned

unfoldable pub bot_take_turn : Draws → Ui → Ui
unfolding bot_aim bot_shot
bot_take_turn rand u =
    if u.is_player_turn || not u.is_bot_mode
    then u
    else elim (bot_aim rand (player_board u) 0 bot_attempts) [
      | none ↦ switch_turn u
      | some p ↦ bot_shot u p
    ]

-- a scheduled call comes due
unfoldable pub bot_turn_callback : Draws → Ui → Ui
unfolding bot_take_turn
bot_turn_callback rand u = bot_take_turn rand (record u { bot_calls = u.bot_calls - 1 })

-- the game that the button PLAY VS BOT starts against these ships
unfoldable pub bot_game : Ui → Board → Ui
bot_game u b =
    show_screen screen_ship_placement (record (set_player_board u (clear_board (player_board u))) {
      opponent_board = b;
      is_bot_mode = true;
      shots_fired = 0;
      hits_count = 0;
      is_player_turn = true;
    })

-- the button PLAY VS BOT
unfoldable pub play_vs_bot : Ui → Draws → Option Ui
unfolding bot_game
play_vs_bot u rand = elim (random_placement rand u.opponent_board) [
  | none ↦ none
  | some (b, _) ↦ some (bot_game u b)
]

-- the button MULTIPLAYER
unfoldable pub play_online : Ui → Ui
play_online u = show_screen screen_lobby (record u { is_bot_mode = false })

-- the buttons EXIT of the game and BACK of the placement, and LOBBY of the dialogs
unfoldable pub exit_to_lobby : Ui → Ui
exit_to_lobby u = show_screen screen_lobby u

-- the button REGISTER of the login form
unfoldable pub open_registration : Ui → Ui
open_registration u = show_screen screen_register u

-- the button BACK of the registration form
unfoldable pub back_to_login : Ui → Ui
back_to_login u = show_screen screen_login u

-- the button BACK TO MENU of the replay and profile screens
unfoldable pub back_to_menu : Ui → Ui
back_to_menu u = show_screen screen_main_menu u

-- the button READY of the placement screen
unfoldable pub on_ready_clicked : Ui → Bool → Ui
on_ready_clicked u accepted =
    let r = send_ship_placement u.network u.current_match_id (player_board u).ships accepted in
    if all_ships_placed u.planner then record u { network = r.0; outbox = r.1 ++ u.outbox } else u
