-- ===== src/Battle/Fire.antt =====
-- The player's side of a battle: clicks, the fire button, the resignation and the turn timer
-- (client/src/ui_manager.cpp).
use networkprogramming_battl.Base.{
  ℕ, zero, suc, ltb, ◌==◌, if◌then◌else◌, ℤ, pos, is_neg, int_gt, Bool, true, false, not, ◌&&◌,
  ◌||◌, Option, none, some, List, [], ◌∷◌, ◌++◌, replicate,
}
use networkprogramming_battl.Base
use networkprogramming_battl.Protocol.{Coordinate, Ship, ShotResult, miss, sunk}
use networkprogramming_battl.Placements.{to_int8}
use networkprogramming_battl.Board.{
  Board, is_fresh, cell_sunk, num_ships, cell_row, cell_col, covers, process_shot, all_ships_sunk,
  get_cell, set_cell, clear_board, Draws, random_placement,
}
use networkprogramming_battl.Planner.{place_ship_at}
use networkprogramming_battl.Network.{is_connected, send_move, send_resign}
use networkprogramming_battl.Battle.State.{
  screen_ship_placement, victory, not_your_turn, select_target_first, invalid_shot, surrendered, Ui,
  show_popup, schedule_bot, stop_turn_timer, start_turn_timer, turn_seconds, switch_turn,
  select_target, clear_target_selection, show_screen,
}

-- the loop of markSunkShip over the cells of the ship, from cell j with n to go
unfoldable pub mark_cells : Board → Ship → ℕ → ℕ → Board
mark_cells b s j zero = b
mark_cells b s j (suc n) =
    mark_cells
      (set_cell b (cell_row s.position s.orientation j) (cell_col s.position s.orientation j)
        cell_sunk)
      s (suc j) n

-- markSunkShip: the first sunk ship of the type
unfoldable pub mark_sunk_ship : Board → List Ship → ℕ → Board
unfolding mark_cells
mark_sunk_ship b [] type = b
mark_sunk_ship b (s ∷ ss) type =
    let rest = mark_sunk_ship b ss type in
    if (s.type == type) && s.is_sunk then mark_cells b s 0 s.length else rest

-- the loop of executeFireAtTarget over the ships, which looks for the sunk ship under the target
unfoldable pub mark_sunk_at : Board → List Ship → Coordinate → Board
unfolding mark_sunk_ship covers
mark_sunk_at b [] p = b
mark_sunk_at b (s ∷ ss) p =
    mark_sunk_at (if s.is_sunk && covers s p 0 s.length then mark_sunk_ship b b.ships s.type else b)
      ss p

abbrev pub is_hit : ShotResult → Bool
is_hit miss = false
is_hit _ = true

abbrev pub is_sinking : ShotResult → Bool
is_sinking sunk = true
is_sinking _ = false

-- the opponent's board after a local shot at the target, and what the shot reports
unfoldable pub local_shot : Board → Coordinate → Board × ShotResult
unfolding mark_sunk_at process_shot
local_shot b p =
    let x = process_shot b (record { row = to_int8 p.row; col = to_int8 p.col }) in
    (if is_sinking x.1 then mark_sunk_at x.0 x.0.ships p else x.0, x.1)

-- executeFireAtTarget behind the shot of an offline game: statistics, victory, and the turn
unfoldable pub after_shot : Ui → Board × ShotResult → Ui
after_shot u x =
    let shot = record u {
      opponent_board = x.0;
      shots_fired = suc u.shots_fired;
      hits_count = if is_hit x.1 then suc u.hits_count else u.hits_count;
      selected_target = none;
    } in
    let switched = switch_turn shot in
    if all_ships_sunk x.0
    then show_popup victory (stop_turn_timer shot)
    else if is_hit x.1
    then start_turn_timer turn_seconds (stop_turn_timer shot)
    else if u.is_bot_mode && not switched.is_player_turn
    then schedule_bot switched
    else if not u.is_bot_mode
    then start_turn_timer turn_seconds switched
    else switched

-- executeFireAtTarget in a match: the move goes to the server. Whether the socket takes it is an
-- argument.
unfoldable pub send_shot : Ui → Coordinate → Bool → Ui
send_shot u p accepted =
    let r = send_move u.network u.current_match_id p.row p.col accepted in
    record u { network = r.0; outbox = r.1 ++ u.outbox; selected_target = none }

abbrev pub is_online : Ui → Bool
is_online u = is_connected u.network && ltb 0 u.current_match_id

unfoldable pub execute_fire_at_target : Ui → Bool → Ui × Bool
unfolding local_shot after_shot send_shot
execute_fire_at_target u accepted = elim u.selected_target [
  | none ↦ (u, false)
  | some p ↦
      if not u.is_player_turn
      then (u, false)
      else if is_online u
      then (send_shot u p accepted, true)
      else (after_shot u (local_shot u.opponent_board p), true)
]

unfoldable pub on_fire_clicked : Ui → Bool → Ui
unfolding execute_fire_at_target
on_fire_clicked u accepted =
    let x = execute_fire_at_target u accepted in
    if not u.is_player_turn then show_popup not_your_turn u else elim u.selected_target [
      | none ↦ show_popup select_target_first u
      | some _ ↦ if x.1 then x.0 else show_popup invalid_shot x.0
    ]

abbrev pub on_grid : ℤ → ℤ → Bool
on_grid row col = not (is_neg row) && not (int_gt row 9) && not (is_neg col) && not (int_gt col 9)

-- a left click of on_board_button_press on the opponent's board, at the cell under the pointer
unfoldable pub click_opponent_board : Ui → ℤ → ℤ → Ui
click_opponent_board u row col =
    if not (on_grid row col)
    then u
    else if not u.is_player_turn
    then u
    else if is_fresh (get_cell u.opponent_board row col)
    then select_target row col u
    else u

-- a left click on the player's board; ready_battle_button exists on the placement screen only
unfoldable pub click_player_board : Ui → ℤ → ℤ → Option Ui
click_player_board u row col = if not (on_grid row col) then some u else elim u.screen [
  | screen_ship_placement ↦ elim (place_ship_at u.planner row col) [
    | none ↦ none
    | some p ↦ some (record u { planner = p })
  ]
  | _ ↦ some u
]

unfoldable pub resign_match : Ui → Bool → Ui
resign_match u accepted =
    let r = send_resign u.network u.current_match_id accepted in
    if is_online u
    then show_popup surrendered (record u {
      network = r.0;
      outbox = r.1 ++ u.outbox;
      waiting_for_match_end_resignation = true;
    })
    else u

-- the game that follows the answer REMATCH to the dialog of a victory or a defeat
unfoldable pub next_game : Ui → Board → Ui
next_game u b = show_screen screen_ship_placement (record u {
  planner = record u.planner {
    player_board = clear_board u.planner.player_board;
    ships_placed = replicate num_ships false;
  };
  opponent_board = b;
  shots_fired = 0;
  hits_count = 0;
  is_player_turn = true;
})

unfoldable pub rematch : Ui → Draws → Option Ui
unfolding next_game
rematch u rand = elim (random_placement rand (clear_board u.opponent_board)) [
  | none ↦ none
  | some (b, _) ↦ some (next_game u b)
]

unfoldable pub on_turn_timer_expired : Ui → Ui
on_turn_timer_expired u =
    let switched = switch_turn (clear_target_selection u) in
    if u.is_bot_mode && not switched.is_player_turn
    then schedule_bot switched
    else if not u.is_bot_mode
    then start_turn_timer turn_seconds switched
    else start_turn_timer turn_seconds switched

-- one second of a running timer
unfoldable pub turn_timer_callback : Ui → Ui
unfolding on_turn_timer_expired
turn_timer_callback u =
    let ticked = record u { turn_time_remaining = Base.pred u.turn_time_remaining } in
    if int_gt ticked.turn_time_remaining 0 then ticked else on_turn_timer_expired ticked
