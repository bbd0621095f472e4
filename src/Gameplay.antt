-- ===== src/Gameplay.antt =====
-- GameplayHandler (server/include/gameplay_handler.h, server/src/gameplay_handler.cpp).
-- The database is the SQLite store behind DatabaseManager: its answers are the operations of the
-- record `Database`. The floating-point Elo formula, computeElo, is a parameter. The time is an
-- argument, and so is the draw of rand(). A handler takes the state of the server and returns it
-- with what was sent; only loadShips can fault, so only handleShipPlacement returns an option.
pub mod Endings
pub mod Sessions
mod Tests
mod State
unfoldable pub use State.*
use networkprogramming_battl.Base.{
  ℕ, suc, ◌+◌, ◌-◌, ◌%◌, ◌^◌, ltb, leb, ◌==◌, if◌then◌else◌, ℤ, pos, negsuc, int_eq, Bool, true,
  false, not, ◌&&◌, ◌||◌, Option, none, some, List, [], ◌∷◌, ◌++◌, length,
}
use networkprogramming_battl.Base.Map.{Map, find, insert, erase}
use networkprogramming_battl.Base.Text.{bytes}
use networkprogramming_battl.Protocol.{
  Coordinate, Ship, PlayerStatus, offline, available, GameResult, win, loss, draw, MatchEndReason,
  normal, resign, disconnect, timeout, draw_agreed, ShotResult, miss, hit, sunk, carrier,
}
use networkprogramming_battl.Board.{Board, covers, all_ships_sunk}
use networkprogramming_battl.Match.{
  MatchState, new_match, start_match, process_move, is_turn_timed_out, elapsed, target_board,
}
use networkprogramming_battl.Match.Play.{other_player}
use networkprogramming_battl.Messages.{
  ShipPlacementAck, MoveResultMessage, TurnUpdateMessage, MatchStateMessage, MatchEndMessage,
  DrawOfferMessage, DrawResponseMessage, Payload, ship_placement_ack, match_ready, move_result,
  turn_update, match_end, draw_offer, draw_response, Event, send,
}
use networkprogramming_battl.Players.{PlayerManager, get_client_connection, update_player_status}
use networkprogramming_battl.Challenges.{to_player}
use networkprogramming_battl.Placements.{validate_ship_placement, ship_data, load_ships}

module _ (database : Database) where
  open database use {
    Db, validate_session, save_ship_placement, get_ship_placement, get_match_by_id, get_user_elo,
    update_elo_rating, end_match, save_move, compute_elo,
  }

  -- what every handler does first: the state after the call of validateSession, and the user
  abbrev pub session_of : Server Db → List ℕ → Server Db × ℕ
  session_of w token =
      (record w { db = (validate_session w.db token).0 }, (validate_session w.db token).1)

  unfoldable pub new_elo : Option ℕ → Db → ℕ → ℕ → ℤ
  new_elo score db player opponent = elim score [
    | none ↦ or_1000 (get_user_elo db player)
    | some twice ↦
        compute_elo (or_1000 (get_user_elo db player)) (or_1000 (get_user_elo db opponent)) twice
  ]

  unfoldable pub send_match_end : Db → PlayerManager → EndCall → Db × List Event
  unfolding new_elo
  send_match_end db pm c =
      let elo1 = new_elo (score1 c) db c.player1_id c.player2_id in
      let elo2 = new_elo (score2 c) db c.player2_id c.player1_id in
      (
        update_elo_rating (update_elo_rating db c.player1_id elo1) c.player2_id elo2,
        to_player pm c.player1_id true
              (end_message c c.player1_id (or_1000 (get_user_elo db c.player1_id)) elo1)
            ++ to_player pm c.player2_id true
                (end_message c c.player2_id (or_1000 (get_user_elo db c.player2_id)) elo2),
      )

  pub get_match : Server Db → ℕ → Option MatchState
  get_match w id = find id w.active_matches

  unfoldable pub remove_match : Server Db → ℕ → Server Db
  remove_match w id = record w {
    active_matches = erase id w.active_matches;
    ready_players = erase id w.ready_players;
  }

  -- the end of a match, as handleMove, handleResign, handleDrawResponse and checkTurnTimeouts do it
  unfoldable pub finish :
      Server Db → ℕ → MatchState → ℕ → MatchEndReason → List ℕ → ℕ → Server Db × List Event
  unfolding remove_match send_match_end
  finish w id m winner reason text now =
      let sent = send_match_end w.db w.players (record {
        match_id = id;
        player1_id = m.player1_id;
        player2_id = m.player2_id;
        winner_id = winner;
        reason = reason;
        reason_text = text;
        total_moves = length m.move_history;
        duration = elapsed now m.start_time;
      }) in
      let one = update_player_status w.players m.player1_id available in
      let two = update_player_status one.0 m.player2_id available in
      (
        remove_match (record w { db = end_match sent.0 id winner; players = two.0 }) id,
        sent.1 ++ (one.1 ++ two.1),
      )

  unfoldable pub send_turn_update : Server Db → ℕ → ℕ → ℕ → List Event
  send_turn_update w id player number = elim (find id w.active_matches) [
    | none ↦ []
    | some m ↦ to_both w.players m.player1_id m.player2_id (
        turn_update (record {
          match_id = id;
          current_player_id = player;
          turn_number = number;
          time_left = 20;
        }))
  ]

  -- the part of handleMove behind the guards
  unfoldable pub move_in_turn :
      Server Db → ℕ → MatchState → ℕ → Coordinate → ℕ → Server Db × List Event
  unfolding send_turn_update sunk_type
  move_in_turn w id m user target now =
      let x = process_move m user target now in
      let board = target_board x.0 user in
      let over = all_ships_sunk board in
      let winner : ℕ = if over then user else 0 in
      let sent = to_both w.players user (other_player x.0 user) (
        move_result (record {
          match_id = id;
          shooter_id = user;
          target = target;
          result = x.1;
          ship_sunk = elim x.1 [
            | sunk ↦ sunk_type (board.ships ++ board.spare) target carrier
            | _ ↦ carrier
          ];
          ships_remaining = to_uint32 board.ships_remaining;
          game_over = over;
          winner_id = winner;
        })) in
      let w' : Server Db = record w {
        db = save_move w.db id user x.0.turn_number target x.1;
        active_matches = insert id x.0 w.active_matches;
      } in
      let ended = finish w' id x.0 winner normal (bytes "All ships destroyed") now in
      if over
      then (ended.0, sent ++ ended.1)
      else (w', sent ++ send_turn_update w' id x.0.current_turn_player_id x.0.turn_number)

  unfoldable pub handle_move : Server Db → List ℕ → ℕ → Coordinate → ℕ → Server Db × List Event
  unfolding move_in_turn
  handle_move w token id target now =
      let session = session_of w token in
      let v = session.0 in
      let user = session.1 in
      if user == 0 then (v, []) else elim (find id v.active_matches) [
        | none ↦ (v, [])
        | some m ↦
            if m.current_turn_player_id == user
            then move_in_turn v id m user target now
            else (v, [])
      ]

  unfoldable pub handle_resign : Server Db → List ℕ → ℕ → ℕ → Server Db × List Event
  handle_resign w token id now =
      let session = session_of w token in
      let v = session.0 in
      let user = session.1 in
      if user == 0 then (v, []) else elim (find id v.active_matches) [
        | none ↦ (v, [])
        | some m ↦ finish v id m (other_player m user) resign (bytes "Opponent resigned") now
      ]

  unfoldable pub handle_draw_offer : Server Db → List ℕ → DrawOfferMessage → Server Db × List Event
  handle_draw_offer w token msg =
      let session = session_of w token in
      let v = session.0 in
      let user = session.1 in
      if user == 0 then (v, []) else elim (find msg.match_id v.active_matches) [
        | none ↦ (v, [])
        | some m ↦ (v, to_player v.players (other_player m user) true (draw_offer msg))
      ]

  unfoldable pub handle_draw_response :
      Server Db → List ℕ → DrawResponseMessage → ℕ → Server Db × List Event
  handle_draw_response w token msg now =
      let session = session_of w token in
      let v = session.0 in
      let user = session.1 in
      if user == 0 then (v, []) else elim (find msg.match_id v.active_matches) [
        | none ↦ (v, [])
        | some m ↦
            if msg.accepted
            then finish v msg.match_id m 0 draw_agreed (bytes "Draw agreed by both players") now
            else (v, to_player v.players (other_player m user) true (draw_response msg))
      ]

  -- the two handlers of rematches only check the session
  unfoldable pub handle_rematch_request : Server Db → List ℕ → ℕ → Server Db × List Event
  handle_rematch_request w token id = ((session_of w token).0, [])

  unfoldable pub handle_rematch_response : Server Db → List ℕ → ℕ → Bool → Server Db × List Event
  handle_rematch_response w token id accepted = ((session_of w token).0, [])

  -- the second loop of checkTurnTimeouts
  unfoldable pub end_timed_out : Server Db → List ℕ → ℕ → Server Db × List Event
  end_timed_out w [] now = (w, [])
  end_timed_out w (id ∷ ids) now = elim (find id w.active_matches) [
    | none ↦ end_timed_out w ids now
    | some m ↦
        let one =
          finish w id m (other_player m m.current_turn_player_id) timeout
            (bytes "Turn time limit exceeded") now in
        let rest = end_timed_out one.0 ids now in (rest.0, one.1 ++ rest.1)
  ]

  unfoldable pub check_turn_timeouts : Server Db → ℕ → Server Db × List Event
  unfolding end_timed_out
  check_turn_timeouts w now = end_timed_out w (timed_out w.active_matches now) now

  -- the body of the second loop of handlePlayerDisconnect
  unfoldable pub end_disconnected : Server Db → ℕ → MatchState → ℕ → ℕ → Server Db × List Event
  unfolding remove_match send_match_end
  end_disconnected w id m user now =
      let opponent = other_player m user in
      let sent = send_match_end (end_match w.db id opponent) w.players (record {
        match_id = id;
        player1_id = m.player1_id;
        player2_id = m.player2_id;
        winner_id = opponent;
        reason = disconnect;
        reason_text = bytes "Opponent disconnected";
        total_moves = m.turn_number;
        duration = if ltb 0 m.start_time then elapsed now m.start_time else 0;
      }) in
      let w' = remove_match (record w { db = sent.0 }) id in
      let freed = update_player_status w'.players opponent available in
      (record w' { players = freed.0 }, sent.1 ++ freed.1)

  unfoldable pub end_matches_of : Server Db → List ℕ → ℕ → ℕ → Server Db × List Event
  end_matches_of w [] user now = (w, [])
  end_matches_of w (id ∷ ids) user now = elim (find id w.active_matches) [
    | none ↦ end_matches_of w ids user now
    | some m ↦
        let one = end_disconnected w id m user now in
        let rest = end_matches_of one.0 ids user now in (rest.0, one.1 ++ rest.1)
  ]

  unfoldable pub handle_player_disconnect : Server Db → ℕ → ℕ → Server Db × List Event
  unfolding end_matches_of
  handle_player_disconnect w user now = end_matches_of w (matches_of w.active_matches user) user now

  -- createMatch
  unfoldable pub create_match : Server Db → ℕ → ℕ → ℕ → Server Db
  create_match w id player1 player2 = record w {
    active_matches = insert id (new_match player1 player2) w.active_matches;
  }

  -- the branch of both_ready
  unfoldable pub open_match : Server Db → ℕ → ℕ → ℕ → ℕ → ℕ → Option (Server Db × List Event)
  unfolding create_match send_turn_update
  open_match w id player1 player2 now rand =
      elim (load_ships (new_match player1 player2).player1_board
        (get_ship_placement w.db id player1)) [
          | none ↦ none
          | some board1 ↦
              elim (load_ships (new_match player1 player2).player2_board
                (get_ship_placement w.db id player2)) [
                  | none ↦ none
                  | some board2 ↦
                      let m = opened player1 player2 board1 board2 now rand in
                      let created = create_match w id player1 player2 in
                      let w' : Server Db = record created {
                        active_matches = insert id m created.active_matches;
                      } in
                      some (
                        w',
                        to_both w'.players player1 player2 (ready_message id player1 player2)
                            ++ send_turn_update w' id m.current_turn_player_id 1,
                      )
                ]
        ]

  -- the part of handleShipPlacement behind the save
  unfoldable pub placed : Server Db → ℕ → ℕ → ℕ → ℕ → ℕ → Option (Server Db × List Event)
  unfolding open_match
  placed w user id fd now rand =
      let accepted = ack fd id true (bytes "Ship placement accepted") in
      let ready = add user (set_of (find id w.ready_players)) in
      let w' : Server Db = record w { ready_players = insert id ready w.ready_players } in
      elim (get_match_by_id w.db id) [
        | none ↦ some (w', accepted ∷ [])
        | some (player1, player2) ↦
            if has player1 ready && has player2 ready
            then elim (open_match w' id player1 player2 now rand) [
              | none ↦ none
              | some (w'', events) ↦ some (w'', accepted ∷ events)
            ]
            else some (w', accepted ∷ [])
      ]

  unfoldable pub handle_ship_placement :
      Server Db → List ℕ → ℕ → List Ship → ℕ → ℕ → ℕ → Option (Server Db × List Event)
  unfolding placed
  handle_ship_placement w token id ships fd now rand =
      let session = session_of w token in
      let v = session.0 in
      let user = session.1 in
      let saved = save_ship_placement v.db id user (ship_data ships) in
      if user == 0
      then some (v, [])
      else if validate_ship_placement ships
      then if saved.1
        then placed (record v { db = saved.0 }) user id fd now rand
        else some
            (record v { db = saved.0 }, ack fd id false (bytes "Failed to save board data") ∷ [])
      else some (v, ack fd id false (bytes "Invalid ship placement") ∷ [])
