-- ===== src/Gameplay/Endings.antt =====
-- How matches end: by moves, resignation, agreement, timeout and disconnection.
use networkprogramming_battl.Base.{
  ℕ, ◌==◌, if◌then◌else◌, ≢→eq, true, false, ◌≡◌, ◌≢◌, ◌⊎◌, inl, inr, refl, sym, ◌∙◌, ap, none,
  some, List, [], ◌∷◌, Bool-cases, Option-cases, arith,
}
use networkprogramming_battl.Base.Map.{
  Map, find, find-erase, AllEntries, AllEntries-find, AllEntries-insert, AllEntries-erase,
  AllEntries-map, erase_all, erase_absent, AllEntries-erase_all, erase-insert, member,
}
use networkprogramming_battl.Base.Text.{bytes}
use networkprogramming_battl.Protocol.{
  Coordinate, GameResult, win, loss, draw, MatchEndReason, resign, draw_agreed, timeout,
}
use networkprogramming_battl.Board.{all_ships_sunk}
use networkprogramming_battl.Match.{MatchState, process_move, is_turn_timed_out, target_board}
use networkprogramming_battl.Match.Play.{
  other_player, IsSound, process_move-IsSound, process_move_runs,
}
use networkprogramming_battl.Gameplay.{
  Database, Server, session_of, result_for, get_match, finish, move_in_turn, handle_move,
  handle_resign, handle_draw_response, timed_out, end_timed_out, check_turn_timeouts, plays,
  matches_of, end_disconnected, end_matches_of, handle_player_disconnect,
}

abbrev pub opposite : GameResult → GameResult
opposite win = loss
opposite loss = win
opposite draw = draw

-- Where the winner is one of two different players, or 0 for a draw, the two are told opposite
-- results.
pub result_for-opposite :
    (winner player1 player2 : ℕ)
    → player1 ≢ player2
    → (winner ≡ 0) ⊎ (winner ≡ player1) ⊎ (winner ≡ player2)
    → result_for winner player2 ≡ opposite (result_for winner player1)
result_for-opposite winner player1 player2 d h = ground (arith, h)

-- A running match has no ship fleet sunk and a player to move.
abbrev pub IsRunning : ℕ → MatchState → Type 0
IsRunning id m = IsSound m × (m.is_active ≡ true)

-- A match that is not collected has time left.
timed_out-member :
    (P : ℕ → MatchState → Type 0) (ms : Map MatchState) (now : ℕ)
    → AllEntries P ms
    → AllEntries
        (λ id m. member id (timed_out ms now) ≡ false → P id m × (is_turn_timed_out m now ≡ false))
        ms
timed_out-member P [] now v = tt
timed_out-member P ((id, m) ∷ ms) now v =
    let rest = timed_out-member P ms now v.1 in
    elim (Bool-cases (is_turn_timed_out m now)) [
      | inl late ↦ (
        λ e. absurd (ground (arith, e, late)),
        AllEntries-map ms (λ j n f e. f (ground (arith, e, late))) rest,
      )
      | inr fine ↦
          (λ e. (v.0, fine), AllEntries-map ms (λ j n f e. f (ground (arith, e, fine))) rest)
    ]

-- A match that is not collected has two other players.
matches_of-member :
    (P : ℕ → MatchState → Type 0) (ms : Map MatchState) (user : ℕ)
    → AllEntries P ms
    → AllEntries
        (λ id m.
          member id (matches_of ms user) ≡ false
          → P id m × (m.player1_id ≢ user) × (m.player2_id ≢ user))
        ms
matches_of-member P [] user v = tt
matches_of-member P ((id, m) ∷ ms) user v =
    let rest = matches_of-member P ms user v.1 in
    elim (Bool-cases (plays m user)) [
      | inl own ↦ (
        λ e. absurd (ground (arith, e, own)),
        AllEntries-map ms (λ j n f e. f (ground (arith, e, own))) rest,
      )
      | inr other ↦ (
        λ e. (v.0, ground (arith, other), ground (arith, other)),
        AllEntries-map ms (λ j n f e. f (ground (arith, e, other))) rest,
      )
    ]

anything : (ms : Map MatchState) → AllEntries {0, 0} (λ id m. Unit) ms
anything [] = tt
anything ((id, m) ∷ ms) = (tt, anything ms)

module _ (database : Database) where
  open database use {Db}

  -- Every match that the server holds is under way.
  abbrev pub AllRunning : Server Db → Type 0
  AllRunning w = AllEntries IsRunning w.active_matches

  finish-AllRunning :
      (w : Server Db) (id : ℕ) (m : MatchState) (winner : ℕ) (reason : MatchEndReason)
      (text : List ℕ) (now : ℕ)
      → AllRunning w
      → AllRunning (finish database w id m winner reason text now).0
  unfolding finish
  finish-AllRunning w id m winner reason text now v =
      AllEntries-erase IsRunning id w.active_matches v

  -- Where all matches are under way, a message that claims a move leaves only matches under way,
  -- whoever sends it: the boards stay valid, and a match whose last ship sank is taken off the list.
  pub handle_move-AllRunning :
      (w : Server Db) (token : List ℕ) (id : ℕ) (target : Coordinate) (now : ℕ)
      → AllRunning w
      → AllRunning (handle_move database w token id target now).0
  unfolding handle_move finish
  handle_move-AllRunning w token id target now v =
      elim (Bool-cases ((session_of database w token).1 == 0)) [
        | inl nobody ↦ rw (nobody, handle_move) v
        | inr user ↦ elim (Option-cases (find id w.active_matches)) [
          | inl e ↦ rw (user, handle_move, e) v
          | inr (m, e) ↦
              elim (Bool-cases (m.current_turn_player_id == (session_of database w token).1)) [
                | inr other ↦ rw (user, handle_move, e, other) v
                | inl turn ↦
                    rw (user, handle_move, e, turn)
                      (moved m (session_of database w token).1
                        (AllEntries-find IsRunning id w.active_matches v e))
              ]
        ]
      ]
    where
      moved :
          (m : MatchState) (user : ℕ)
          → IsRunning id m
          → AllRunning
              (move_in_turn database (session_of database w token).0 id m user target now).0
      moved m user r =
          let x = process_move m user target now in
          elim (Bool-cases (all_ships_sunk (target_board x.0 user))) [
            | inl over ↦
                rw (over, move_in_turn)
                  (rw (erase-insert id x.0 w.active_matches)
                    (AllEntries-erase IsRunning id w.active_matches v))
            | inr on ↦
                rw (on, move_in_turn)
                  (AllEntries-insert IsRunning id x.0 w.active_matches
                    (
                      process_move-IsSound m user target now r.0,
                      process_move_runs m user target now r.1 on,
                    )
                    v)
          ]

  finish-other :
      (w : Server Db) (id other : ℕ) (m : MatchState) (winner : ℕ) (reason : MatchEndReason)
      (text : List ℕ) (now : ℕ)
      → get_match database (finish database w id m winner reason text now).0 other
        ≡ (if id == other then none else get_match database w other)
  unfolding finish get_match
  finish-other w id other m winner reason text now = find-erase id other w.active_matches

  -- From a valid session, where all matches are under way and the named match is there, a resignation
  -- and an agreed draw take exactly that match away: every other match stays, and the matches that are
  -- left are under way.
  pub resign_and_draw :
      (w : Server Db) (token : List ℕ) (id other now : ℕ) (m : MatchState)
      → AllRunning w
      → (session_of database w token).1 ≢ 0
      → get_match database w id ≡ some m
      → let resigned = (handle_resign database w token id now).0 in
        let agreed =
          (handle_draw_response database w token
            (record { match_id = id; accepted = true })
            now).0 in
        AllRunning resigned
        × AllRunning agreed
        × (get_match database resigned other
            ≡ (if id == other then none else get_match database w other))
        × (get_match database agreed other
            ≡ (if id == other then none else get_match database w other))
  unfolding handle_resign handle_draw_response get_match
  resign_and_draw w token id other now m v s e =
      let user = ≢→eq (session_of database w token).1 0 s in
      let w' = (session_of database w token).0 in
      rw (user, handle_resign, handle_draw_response, e)
        (
          finish-AllRunning w' id m (other_player m (session_of database w token).1) resign
              (bytes "Opponent resigned") now v,
          finish-AllRunning w' id m 0 draw_agreed (bytes "Draw agreed by both players") now v,
          finish-other w' id other m (other_player m (session_of database w token).1) resign
              (bytes "Opponent resigned") now,
          finish-other w' id other m 0 draw_agreed (bytes "Draw agreed by both players") now,
        )

  end_timed_out-erase_all :
      (ids : List ℕ) (w : Server Db) (now : ℕ)
      → (end_timed_out database w ids now).0.active_matches ≡ erase_all ids w.active_matches
  unfolding end_timed_out erase_all finish
  end_timed_out-erase_all [] w now = refl
  end_timed_out-erase_all (id ∷ ids) w now = elim (Option-cases (find id w.active_matches)) [
    | inl e ↦
        rw (e, end_timed_out)
          (end_timed_out-erase_all ids w now
            ∙ ap (erase_all ids) (sym (erase_absent id w.active_matches e)))
    | inr (m, e) ↦
        rw (e, end_timed_out)
          (end_timed_out-erase_all ids
            (finish database w id m (other_player m m.current_turn_player_id) timeout
              (bytes "Turn time limit exceeded") now).0
            now)
  ]

  end_matches_of-erase_all :
      (ids : List ℕ) (w : Server Db) (user now : ℕ)
      → (end_matches_of database w ids user now).0.active_matches ≡ erase_all ids w.active_matches
  unfolding end_matches_of erase_all end_disconnected
  end_matches_of-erase_all [] w user now = refl
  end_matches_of-erase_all (id ∷ ids) w user now = elim (Option-cases (find id w.active_matches)) [
    | inl e ↦
        rw (e, end_matches_of)
          (end_matches_of-erase_all ids w user now
            ∙ ap (erase_all ids) (sym (erase_absent id w.active_matches e)))
    | inr (m, e) ↦
        rw (e, end_matches_of)
          (end_matches_of-erase_all ids (end_disconnected database w id m user now).0 user now)
  ]

  -- Where all matches are under way, after the check of the clock the server holds only matches under
  -- way whose turn has not timed out.
  pub check_turn_timeouts_lem :
      (w : Server Db) (now : ℕ)
      → AllRunning w
      → AllEntries
          (λ id m. IsRunning id m × (is_turn_timed_out m now ≡ false))
          (check_turn_timeouts database w now).0.active_matches
  unfolding check_turn_timeouts
  check_turn_timeouts_lem w now v =
      let ids = timed_out w.active_matches now in
      rw (end_timed_out-erase_all ids w now) (
        AllEntries-erase_all (λ id m. IsRunning id m × (is_turn_timed_out m now ≡ false)) ids
          w.active_matches (timed_out-member IsRunning w.active_matches now v))

  -- After a disconnection the player is in no match.
  pub handle_player_disconnect_out :
      (w : Server Db) (user now : ℕ)
      → AllEntries
          (λ id m. (m.player1_id ≢ user) × (m.player2_id ≢ user))
          (handle_player_disconnect database w user now).0.active_matches
  unfolding handle_player_disconnect
  handle_player_disconnect_out w user now =
      let ids = matches_of w.active_matches user in
      rw (end_matches_of-erase_all ids w user now) (
        AllEntries-map _ (λ id m h. (h.1, h.2))
          (AllEntries-erase_all (λ id m. Unit × (m.player1_id ≢ user) × (m.player2_id ≢ user)) ids
            w.active_matches
            (matches_of-member (λ id m. Unit) w.active_matches user (anything w.active_matches))))

  -- Where all matches are under way, after a disconnection the server holds only matches under way,
  -- and the player is in none of them.
  pub handle_player_disconnect_lem :
      (w : Server Db) (user now : ℕ)
      → AllRunning w
      → AllEntries
          (λ id m. IsRunning id m × (m.player1_id ≢ user) × (m.player2_id ≢ user))
          (handle_player_disconnect database w user now).0.active_matches
  unfolding handle_player_disconnect
  handle_player_disconnect_lem w user now v =
      let ids = matches_of w.active_matches user in
      rw (end_matches_of-erase_all ids w user now) (
        AllEntries-erase_all
          (λ id m. IsRunning id m × (m.player1_id ≢ user) × (m.player2_id ≢ user)) ids
          w.active_matches (matches_of-member IsRunning w.active_matches user v))
