-- ===== src/Battle/State.antt =====
-- The state of UIManager during a battle, its screens and its turn timer (client/src/ui_manager.cpp,
-- client/include/ui_manager.h). The boards and the network are there, as main.cpp sets them.
use networkprogramming_battl.Base.{
  ℕ, ◌+◌, ◌*◌, ◌/◌, ◌==◌, if◌then◌else◌, ℤ, pos, Bool, true, not, Option, none, some, List, ◌∷◌,
}
use networkprogramming_battl.Protocol.{Coordinate}
use networkprogramming_battl.Board.{Board}
use networkprogramming_battl.Planner.{Planner}
use networkprogramming_battl.Network.{Network, Request}

pub data UiScreen : Type 0 where
  screen_main_menu screen_login screen_register screen_lobby screen_ship_placement screen_game
        screen_replay screen_profile :
      UiScreen

-- The texts of showNotification and showResultDialog that this part of the program uses.
pub data Popup : Type 0 where
  victory defeat not_your_turn select_target_first invalid_shot surrendered : Popup
  result_win result_loss result_draw : ℤ → Popup

-- `selected_target` is the cell of selected_target_row and selected_target_col while
-- has_target_selected holds; `timer_running` tells that turn_timer_id is not 0; `bot_calls` counts the
-- calls of botTurnCallback that are scheduled; `outbox` holds what was handed to the network, and
-- `popups` the dialogs, the newest first.
pub record Ui : Type 0 where
  pub planner : Planner
  pub opponent_board : Board
  pub network : Network
  pub outbox : List Request
  pub screen : UiScreen
  pub popups : List Popup
  pub is_player_turn : Bool
  pub shots_fired : ℕ
  pub hits_count : ℕ
  pub selected_target : Option Coordinate
  pub turn_time_remaining : ℤ
  pub timer_running : Bool
  pub bot_calls : ℕ
  pub is_bot_mode : Bool
  pub current_match_id : ℕ
  pub waiting_for_match_ready : Bool
  pub waiting_for_match_end_resignation : Bool
  pub last_opponent_id : ℕ
  pub last_opponent_name : List ℕ

abbrev pub player_board : Ui → Board
player_board u = u.planner.player_board

abbrev pub set_player_board : Ui → Board → Ui
set_player_board u b = record u { planner = record u.planner { player_board = b } }

abbrev pub show_popup : Popup → Ui → Ui
show_popup p u = record u { popups = p ∷ u.popups }

abbrev pub schedule_bot : Ui → Ui
schedule_bot u = record u { bot_calls = u.bot_calls + 1 }

abbrev pub stop_turn_timer : Ui → Ui
stop_turn_timer u = record u { timer_running = Bool.false }

abbrev pub start_turn_timer : ℤ → Ui → Ui
start_turn_timer seconds u = record (stop_turn_timer u) {
  turn_time_remaining = seconds;
  timer_running = true;
}

abbrev pub turn_seconds : ℤ
turn_seconds = pos 20

abbrev pub switch_turn : Ui → Ui
switch_turn u = start_turn_timer turn_seconds (record u { is_player_turn = not u.is_player_turn })

abbrev pub select_target : ℤ → ℤ → Ui → Ui
select_target row col u = record u { selected_target = some (record { row = row; col = col }) }

abbrev pub clear_target_selection : Ui → Ui
clear_target_selection u = record u { selected_target = none }

-- the screen that showScreen builds has no state of its own here but the turn and the timer
abbrev pub show_screen : UiScreen → Ui → Ui
show_screen screen_game u =
    start_turn_timer turn_seconds
      (record (stop_turn_timer u) { screen = screen_game; is_player_turn = true })
show_screen s u = record (stop_turn_timer u) { screen = s }

-- the percentage that updateGameStats writes, where it writes one
unfoldable pub accuracy : Ui → Option ℕ
accuracy u = if u.shots_fired == 0 then none else some (u.hits_count * 100 / u.shots_fired)
