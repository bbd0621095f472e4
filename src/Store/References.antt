-- ===== src/Store/References.antt =====
-- The rows of matches, boards and moves keep their references, and so does every history.
use networkprogramming_battl.Base.{
  ℕ, ◌==◌, Bool-cases, ℤ, pos, inl, inr, Bool, true, ◌&&◌, ◌||◌, ◌≡◌, refl, ap, ◌∙◌, List, All,
  arith,
}
use networkprogramming_battl.Store.{
  Store, MatchRow, BoardRow, MoveRow, usable, is_user, is_match, has_match_id, update_where,
  with_status, completed, create_user, update_last_login, update_elo_rating, create_session,
  validate_session, delete_session, cleanup_expired_sessions, delete_user_sessions, create_match,
  update_match_status, end_match, save_ship_placement, save_move, new_match_row,
}
use networkprogramming_battl.Store.Queries.{
  Issued-append, Issued-update_where, exists-append, exists-update_where, All-map, All-append_one,
  All-update_where, update_where_none,
}
use networkprogramming_battl.Store.Integrity.{
  IsConsistent, IsWinner, create_user-IsConsistent, delete_session-IsConsistent,
  validate_session-IsConsistent, cleanup-IsConsistent, create_session-IsConsistent,
  update_user-IsConsistent,
}

-- The methods that write.
pub data Statement : Type 0 where
  creates_user : List ℕ → List ℕ → List ℕ → Statement
  updates_last_login : ℕ → Statement
  updates_elo_rating : ℕ → ℤ → Statement
  creates_session : ℕ → List ℕ → ℕ → Statement
  validates_session deletes_session : List ℕ → Statement
  cleans_up_sessions : Statement
  deletes_user_sessions : ℕ → Statement
  creates_match : ℕ → ℕ → Statement
  updates_match_status : ℕ → List ℕ → Statement
  ends_match : ℕ → ℕ → Statement
  saves_ship_placement : ℕ → ℕ → List ℕ → Statement
  saves_move : ℕ → ℕ → ℕ → ℤ → ℤ → List ℕ → Statement

unfoldable pub execute : Store → ℕ → Statement → Store
execute d now (creates_user username hash display) = (create_user d now username hash display).0
execute d now (updates_last_login id) = (update_last_login d now id).0
execute d now (updates_elo_rating id elo) = (update_elo_rating d id elo).0
execute d now (creates_session user token hours) = (create_session d now user token hours).0
execute d now (validates_session token) = (validate_session d now token).0
execute d now (deletes_session token) = (delete_session d token).0
execute d now cleans_up_sessions = (cleanup_expired_sessions d now).0
execute d now (deletes_user_sessions user) = (delete_user_sessions d user).0
execute d now (creates_match player1 player2) = (create_match d now player1 player2).0
execute d now (updates_match_status id status) = (update_match_status d id status).0
execute d now (ends_match id winner) = (end_match d now id winner).0
execute d now (saves_ship_placement id user text) = (save_ship_placement d id user text).0
execute d now (saves_move id player number x y result) =
    (save_move d now id player number x y result).0

module _ (d : Store) (v : IsConsistent d) where
  create_match-IsConsistent :
      (now player1 player2 : ℕ) → IsConsistent (create_match d now player1 player2).0
  unfolding create_match
  create_match-IsConsistent now player1 player2 =
      let m = new_match_row d now player1 player2 in
      let kept = λ (id : ℕ) (e : is_match d id ≡ true).
        exists-append (has_match_id id) d.matches m ∙ ap (λ b. b || (has_match_id id m)) e in
      elim (Bool-cases (usable d)) [
        | inr e ↦ rw (e, create_match) v
        | inl e ↦ elim (Bool-cases (is_user d player1 && is_user d player2)) [
          | inr n ↦ rw (e, create_match, n) v
          | inl u ↦
              rw (e, create_match, u)
                (record {
                  user_next = v.user_next;
                  session_next = v.session_next;
                  match_next = omega arith;
                  user_ids = v.user_ids;
                  session_ids = v.session_ids;
                  match_ids =
                      Issued-append (λ n. n.match_id) d.next_match_id d.matches m v.match_next refl
                        v.match_ids;
                  usernames = v.usernames;
                  tokens = v.tokens;
                  session_users = v.session_users;
                  match_users =
                      All-append_one _ d.matches m v.match_users
                        (ground (arith, u), ground (arith, u), inl refl);
                  board_rows =
                      All-map _ _ d.boards (λ b h. (kept b.match_id h.0, h.1)) v.board_rows;
                  move_rows = All-map _ _ d.moves (λ b h. (kept b.match_id h.0, h.1)) v.move_rows;
                })
        ]
      ]

  -- An UPDATE of matches that leaves ids and players alone.
  matches-IsConsistent :
      (p : MatchRow → Bool) (f : MatchRow → MatchRow)
      → ((m : MatchRow) → (f m).match_id ≡ m.match_id)
      → ((m : MatchRow) → (f m).player1_id ≡ m.player1_id)
      → ((m : MatchRow) → (f m).player2_id ≡ m.player2_id)
      → ((m : MatchRow) → IsWinner d m.winner_id → IsWinner d (f m).winner_id)
      → IsConsistent (record d { matches = update_where p f d.matches })
  matches-IsConsistent p f same one two won =
      let kept = λ (id : ℕ).
        exists-update_where (has_match_id id) p f d.matches (λ m. ap (λ k. k == id) (same m)) in
      record {
        user_next = v.user_next;
        session_next = v.session_next;
        match_next = v.match_next;
        user_ids = v.user_ids;
        session_ids = v.session_ids;
        match_ids =
            Issued-update_where (λ m. m.match_id) d.next_match_id p f d.matches same v.match_ids;
        usernames = v.usernames;
        tokens = v.tokens;
        session_users = v.session_users;
        match_users =
            All-update_where _ p f d.matches
              (λ m (h1, h2, h3).
                (ap (is_user d) (one m) ∙ h1, ap (is_user d) (two m) ∙ h2, won m h3))
              v.match_users;
        board_rows = All-map _ _ d.boards (λ b h. (kept b.match_id ∙ h.0, h.1)) v.board_rows;
        move_rows = All-map _ _ d.moves (λ b h. (kept b.match_id ∙ h.0, h.1)) v.move_rows;
      }

  update_match_status-IsConsistent :
      (id : ℕ) (status : List ℕ) → IsConsistent (update_match_status d id status).0
  unfolding update_match_status
  update_match_status-IsConsistent id status = elim (Bool-cases (usable d)) [
    | inr e ↦ rw (e, update_match_status) v
    | inl e ↦
        rw (e, update_match_status)
          (matches-IsConsistent (has_match_id id) (with_status status) (λ m. refl) (λ m. refl)
            (λ m. refl) (λ m h. h))
  ]

  end_match-IsConsistent : (now id winner : ℕ) → IsConsistent (end_match d now id winner).0
  unfolding end_match
  end_match-IsConsistent now id winner = elim (Bool-cases (usable d)) [
    | inr e ↦ rw (e, end_match) v
    | inl e ↦ elim (Bool-cases (is_user d winner)) [
      | inl u ↦
          rw (e, end_match, u)
            (ground (
              arith,
              matches-IsConsistent (has_match_id id) (completed now winner) (λ m. refl) (λ m. refl)
                  (λ m. refl) (λ m h. inr u),
            ))
      | inr n ↦ elim (Bool-cases (is_match d id)) [
        | inl f ↦ rw (e, end_match, f, n) v
        | inr f ↦
            rw (e, end_match, f)
              (rw (update_where_none (has_match_id id) (completed now winner) d.matches f) v)
      ]
    ]
  ]

  rows-IsConsistent :
      (bs : List BoardRow) (ms : List MoveRow)
      → All (λ b. (is_match d b.match_id ≡ true) × (is_user d b.user_id ≡ true)) bs
      → All (λ m. (is_match d m.match_id ≡ true) × (is_user d m.player_id ≡ true)) ms
      → IsConsistent (record d { boards = bs; moves = ms })
  rows-IsConsistent bs ms kept_boards kept_moves = record {
    user_next = v.user_next;
    session_next = v.session_next;
    match_next = v.match_next;
    user_ids = v.user_ids;
    session_ids = v.session_ids;
    match_ids = v.match_ids;
    usernames = v.usernames;
    tokens = v.tokens;
    session_users = v.session_users;
    match_users = v.match_users;
    board_rows = kept_boards;
    move_rows = kept_moves;
  }

  save-IsConsistent :
      (now id user number : ℕ) (x y : ℤ) (text : List ℕ)
      → IsConsistent (save_ship_placement d id user text).0
        × IsConsistent (save_move d now id user number x y text).0
  unfolding save_ship_placement save_move
  save-IsConsistent now id user number x y text = elim (Bool-cases (usable d)) [
    | inr e ↦ rw (e, save_ship_placement, save_move) (v, v)
    | inl e ↦ elim (Bool-cases (is_match d id && is_user d user)) [
      | inr n ↦ rw (e, save_ship_placement, save_move, n) (v, v)
      | inl u ↦
          rw (e, save_ship_placement, save_move, u)
            (
              rows-IsConsistent _ d.moves
                  (All-append_one _ d.boards _ v.board_rows (ground (arith, u), ground (arith, u)))
                  v.move_rows,
              rows-IsConsistent d.boards _ v.board_rows
                  (All-append_one _ d.moves _ v.move_rows (ground (arith, u), ground (arith, u))),
            )
    ]
  ]

-- Every writing method keeps a consistent database consistent: the ids of the users, of the sessions and
-- of the matches are positive, below the next id and distinct, the usernames and the tokens are
-- distinct, and every reference of a session, match, board or move leads to a row.
pub execute-IsConsistent :
    (d : Store) (now : ℕ) (st : Statement) → IsConsistent d → IsConsistent (execute d now st)
unfolding execute
execute-IsConsistent d now (creates_user username hash display) v =
    create_user-IsConsistent d v now username hash display
execute-IsConsistent d now (updates_last_login id) v =
    (update_user-IsConsistent d v now id (pos 0)).0
execute-IsConsistent d now (updates_elo_rating id elo) v =
    (update_user-IsConsistent d v now id elo).1
execute-IsConsistent d now (creates_session user token hours) v =
    create_session-IsConsistent d v now user token hours
execute-IsConsistent d now (validates_session token) v = validate_session-IsConsistent d v now token
execute-IsConsistent d now (deletes_session token) v = delete_session-IsConsistent d v token
execute-IsConsistent d now cleans_up_sessions v = (cleanup-IsConsistent d v now 0).0
execute-IsConsistent d now (deletes_user_sessions user) v = (cleanup-IsConsistent d v now user).1
execute-IsConsistent d now (creates_match player1 player2) v =
    create_match-IsConsistent d v now player1 player2
execute-IsConsistent d now (updates_match_status id status) v =
    update_match_status-IsConsistent d v id status
execute-IsConsistent d now (ends_match id winner) v = end_match-IsConsistent d v now id winner
execute-IsConsistent d now (saves_ship_placement id user text) v =
    (save-IsConsistent d v now id user 0 (pos 0) (pos 0) text).0
execute-IsConsistent d now (saves_move id player number x y result) v =
    (save-IsConsistent d v now id player number x y result).1
