-- ===== src/Gameplay/Sessions.antt =====
-- Who may act, and what a placement does to a match that is under way.
use networkprogramming_battl.Base.{
  ℕ, true, ◌≡◌, ◌≢◌, refl, ◌∙◌, ap, ◌++◌, ≢→eq, ≡→eq, some, List, [], ◌∷◌, arith,
}
use networkprogramming_battl.Base.Map.{find, insert, find-insert}
use networkprogramming_battl.Base.Text.{bytes}
use networkprogramming_battl.Protocol.{Coordinate, Ship}
use networkprogramming_battl.Board.{Board}
use networkprogramming_battl.Match.{MatchState, new_match, start_match}
use networkprogramming_battl.Placements.{load_ships, ship_data, validate_ship_placement}
use networkprogramming_battl.Messages.{Event, DrawOfferMessage, DrawResponseMessage}
use networkprogramming_battl.Gameplay.{
  Database, Server, session_of, handle_ship_placement, handle_move, handle_resign,
  handle_draw_offer, handle_draw_response, get_match, placed, open_match, has, add, set_of, opened,
  create_match, to_both, ready_message, send_turn_update, ack,
}

has-add : (u v : ℕ) (xs : List ℕ) → has u xs ≡ true → has u (add v xs) ≡ true
has-add u v xs h = ground (arith, h)

module _ (database : Database) where
  open database use {Db}

  -- Without a valid session no gameplay message is answered, and nothing changes but that the
  -- database may forget the session.
  pub no_session :
      (w : Server Db) (token : List ℕ) (id : ℕ) (ships : List Ship) (target : Coordinate)
      (offer : DrawOfferMessage) (response : DrawResponseMessage) (fd now rand : ℕ)
      → (session_of database w token).1 ≡ 0
      → let w' = (session_of database w token).0 in
        (handle_ship_placement database w token id ships fd now rand ≡ some (w', []))
        × (handle_move database w token id target now ≡ (w', []))
        × (handle_resign database w token id now ≡ (w', []))
        × (handle_draw_offer database w token offer ≡ (w', []))
        × (handle_draw_response database w token response now ≡ (w', []))
  unfolding handle_ship_placement handle_move handle_resign handle_draw_offer handle_draw_response
  no_session w token id ships target offer response fd now rand e = ground (arith, e)

  -- What the branch of both_ready does where both texts load: the new match stands under the id.
  open_match_lem :
      (w : Server Db) (id player1 player2 now rand : ℕ) (board1 board2 : Board)
      → load_ships
          (new_match player1 player2).player1_board
          (database.get_ship_placement w.db id player1)
        ≡ some board1
      → load_ships
          (new_match player1 player2).player2_board
          (database.get_ship_placement w.db id player2)
        ≡ some board2
      → (w' : Server Db) × (events : List Event) × (open_match database w id player1 player2 now
            rand
          ≡ some (w', events))
        × (get_match database w' id ≡ some (opened player1 player2 board1 board2 now rand))
  unfolding open_match get_match
  open_match_lem w id player1 player2 now rand board1 board2 e₁ e₂ =
      let m = opened player1 player2 board1 board2 now rand in
      let created = create_match database w id player1 player2 in
      let w' : Server Db = record created { active_matches = insert id m created.active_matches } in
      (
        w',
        to_both w'.players player1 player2 (ready_message id player1 player2)
            ++ send_turn_update database w' id m.current_turn_player_id 1,
        rw (e₁, open_match, e₂),
        find-insert id id m created.active_matches ∙ rw (≡→eq id id refl),
      )

  -- Both players were ready before, as they are in a match under way: an accepted placement from
  -- any session then puts a match without moves, in its first turn, in the place of what was there.
  pub placement_restarts :
      (w : Server Db) (token : List ℕ) (id fd now rand player1 player2 : ℕ) (ships : List Ship)
      (ready : List ℕ) (board1 board2 : Board)
      → let user = (session_of database w token).1 in
        let saved =
          database.save_ship_placement
            (session_of database w token).0.db
            id
            user
            (ship_data ships) in
        user ≢ 0
        → validate_ship_placement ships ≡ true
        → saved.1 ≡ true
        → database.get_match_by_id saved.0 id ≡ some (player1, player2)
        → find id w.ready_players ≡ some ready
        → has player1 ready ≡ true
        → has player2 ready ≡ true
        → load_ships
            (new_match player1 player2).player1_board
            (database.get_ship_placement saved.0 id player1)
          ≡ some board1
        → load_ships
            (new_match player1 player2).player2_board
            (database.get_ship_placement saved.0 id player2)
          ≡ some board2
        → (w' : Server Db) × (events : List Event) × (handle_ship_placement database w token id
              ships fd now rand
            ≡ some (w', events))
          × (m : MatchState) × (get_match database w' id ≡ some m)
          × (m.move_history ≡ [])
          × (m.turn_number ≡ 1)
  unfolding handle_ship_placement new_match start_match
  placement_restarts w token id fd now rand player1 player2 ships ready board1 board2 s v k g r h₁
        h₂ e₁ e₂ =
      let user = (session_of database w token).1 in
      let saved =
        database.save_ship_placement (session_of database w token).0.db id user (ship_data ships) in
      let before = set_of (find id w.ready_players) in
      let w₁ : Server Db = record w {
        db = saved.0;
        ready_players = insert id (add user before) w.ready_players;
      } in
      let (w', events, eq, got) =
        open_match_lem w₁ id player1 player2 now rand board1 board2 e₁ e₂ in
      (
        w',
        ack fd id true (bytes "Ship placement accepted") ∷ events,
        rw (
          ≢→eq user 0 s,
          handle_ship_placement,
          v,
          k,
          placed,
          g,
          has-add player1 user before (ap (λ o. has player1 (set_of o)) r ∙ h₁),
          has-add player2 user before (ap (λ o. has player2 (set_of o)) r ∙ h₂),
          eq,
        ),
        opened player1 player2 board1 board2 now rand,
        got,
        refl,
        refl,
      )
