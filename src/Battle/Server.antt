-- ===== src/Battle/Server.antt =====
-- What the messages of the server do to the battle screen (the callbacks of client/src/ui_lobby.cpp).
use networkprogramming_battl.Base.{
  ℕ, suc, ◌==◌, if◌then◌else◌, ℤ, pos, Bool, true, false, Option, none, some, replicate,
}
use networkprogramming_battl.Protocol.{miss, hit, sunk, carrier, horizontal}
use networkprogramming_battl.Board.{
  Board, num_ships, cell_miss, cell_hit, clear_board, process_shot, set_cell,
}
use networkprogramming_battl.Messages.{
  MatchStartMessage, MatchStateMessage, MoveResultMessage, TurnUpdateMessage, MatchEndMessage,
}
use networkprogramming_battl.Battle.State.{
  screen_lobby, screen_ship_placement, screen_game, Popup, result_win, result_loss, result_draw, Ui,
  player_board, set_player_board, show_popup, stop_turn_timer, start_turn_timer, show_screen,
}
use networkprogramming_battl.Battle.Fire.{is_hit}
use networkprogramming_battl.Battle.Reveal.{reveal_sunk}

-- the callback of MATCH_START
unfoldable pub on_match_start : Ui → MatchStartMessage → Ui
on_match_start u m = show_screen screen_ship_placement (record u {
  planner = record {
    player_board = clear_board (player_board u);
    selected_ship_type = carrier;
    current_orientation = horizontal;
    ships_placed = replicate num_ships false;
  };
  opponent_board = clear_board u.opponent_board;
  shots_fired = 0;
  hits_count = 0;
  current_match_id = m.match_id;
  waiting_for_match_ready = false;
  last_opponent_id = m.opponent_id;
  last_opponent_name = m.opponent_name;
})

-- the callback of MATCH_READY
unfoldable pub on_match_ready : Ui → MatchStateMessage → Ui
on_match_ready u m =
    show_screen screen_game
      (record u { is_player_turn = m.current_turn_player_id == u.network.user_id })

-- the opponent's board after the player's own shot
unfoldable pub show_shot : Board → MoveResultMessage → Option Board
unfolding reveal_sunk
show_shot b m = elim m.result [
  | miss ↦ some (set_cell b m.target.row m.target.col cell_miss)
  | hit ↦ some (set_cell b m.target.row m.target.col cell_hit)
  | sunk ↦ reveal_sunk b m.target.row m.target.col m.ship_sunk
]

-- the callback of MOVE_RESULT
unfoldable pub on_move_result : Ui → MoveResultMessage → Option Ui
unfolding show_shot
on_move_result u m =
    if m.shooter_id == u.network.user_id
    then elim (show_shot u.opponent_board m) [
      | none ↦ none
      | some b ↦ some (record u {
        opponent_board = b;
        hits_count = if is_hit m.result then suc u.hits_count else u.hits_count;
        shots_fired = suc u.shots_fired;
      })
    ]
    else some (set_player_board u (process_shot (player_board u) m.target).0)

-- the callback of TURN_UPDATE
unfoldable pub on_turn_update : Ui → TurnUpdateMessage → Ui
on_turn_update u m =
    let turn = record u { is_player_turn = m.current_player_id == u.network.user_id } in
    if turn.is_player_turn then start_turn_timer (pos m.time_left) turn else stop_turn_timer turn

abbrev pub result_shown : ℕ → ℕ → ℤ → Popup
result_shown winner own change =
    if winner == 0
    then result_draw change
    else if winner == own
    then result_win change
    else result_loss change

-- the callback of MATCH_END, with the dialog of showResultDialog, which leads to the lobby
unfoldable pub on_match_end : Ui → MatchEndMessage → Ui
on_match_end u m =
    let stopped = stop_turn_timer (record u { waiting_for_match_end_resignation = false }) in
    show_screen screen_lobby
      (show_popup (result_shown m.winner_id u.network.user_id m.elo_change) stopped)

-- the answer to a placement that READY has sent
unfoldable pub on_placement_answered : Ui → Bool → Ui
on_placement_answered u success = if success then record u { waiting_for_match_ready = true } else u
