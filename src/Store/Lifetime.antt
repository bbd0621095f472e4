-- ===== src/Store/Lifetime.antt =====
-- What becomes of a session, of a stored fleet, and of a match that ends as a draw.
use networkprogramming_battl.Base.{
  ℕ, ◌+◌, ◌*◌, ◌<◌, ltb, ≢→eq, if◌then◌else◌, true, false, ◌≡◌, ◌≢◌, List, [], ◌∷◌, ◌++◌, arith,
}
use networkprogramming_battl.Store.{
  Store, BoardRow, usable, exists, is_user, is_match, has_user_id, has_token, default_session,
  create_session, validate_session, new_session, end_match, save_ship_placement, get_ship_placement,
  is_board_of, no_board,
}
use networkprogramming_battl.Store.Queries.{
  text_eq_self, exists-append, select-append_new, select-append_old, exists-delete_where,
  exists_none-All,
}
use networkprogramming_battl.Store.Integrity.{IsConsistent}

-- User 0 is no one, and sessions are numbered from 1.
pub no_user_zero : (d : Store) → IsConsistent d → is_user d 0 ≡ false
no_user_zero d v = exists_none-All _ (has_user_id 0) d.users (λ u h. ground (arith, h)) v.user_ids.0

-- What a session that was created was checked for.
created :
    (d : Store) (now user : ℕ) (token : List ℕ) (hours : ℕ)
    → (create_session d now user token hours).1 ≢ 0
    → (usable d ≡ true) × (is_user d user ≡ true) × (exists (has_token token) d.sessions ≡ false)
unfolding create_session
created d now user token hours n = ground (arith, n)

-- Where a session was created in a consistent database: until it runs out, its token is that of its
-- user. After that it is nobody's, and the first to use it deletes it.
pub session_lifetime :
    (d : Store) (now user later : ℕ) (token : List ℕ) (hours : ℕ)
    → IsConsistent d
    → let made = create_session d now user token hours in
      made.1 ≢ 0
      → let used = validate_session made.0 later token in
        (used.1 ≡ (if ltb (now + hours * 3600) later then 0 else user))
        × (now + hours * 3600 < later → exists (has_token token) used.0.sessions ≡ false)
unfolding create_session validate_session
session_lifetime d now user later token hours v n =
    let (ok, known, free) = created d now user token hours n in
    let row = new_session d now user token hours in
    let found =
      select-append_new (has_token token) default_session d.sessions row free
        (text_eq_self token) in
    let fresh = ≢→eq d.next_session_id 0 (λ e. absurd (omega (arith, e, v.session_next))) in
    rw (ok, create_session, known, free, validate_session, found, ok, fresh)
      (
        ground (arith, ok),
        λ late.
            ground
              (arith, late, ok, exists-delete_where (has_token token) (d.sessions ++ row ∷ [])),
      )

-- In a consistent database, a match that is there cannot be recorded as a draw: winner 0 is no user,
-- the update is refused, and the match stays as it is.
pub draw_refused :
    (d : Store) (now id : ℕ)
    → IsConsistent d
    → is_match d id ≡ true
    → end_match d now id 0 ≡ (d, false)
unfolding end_match
draw_refused d now id v m = ground (arith, m, no_user_zero d v)

-- A player who had stored no fleet for a match and stores one: a fleet that is stored later does not
-- replace the one that is read.
pub first_placement :
    (d : Store) (id user : ℕ) (text again : List ℕ)
    → exists (is_board_of id user) d.boards ≡ false
    → let saved = save_ship_placement d id user text in
      saved.1 ≡ true
      → let later = save_ship_placement saved.0 id user again in
        (later.1 ≡ true) × (get_ship_placement later.0 id user ≡ text)
unfolding save_ship_placement get_ship_placement
first_placement d id user text again n s =
    let p = is_board_of id user in
    let row : BoardRow = record { match_id = id; user_id = user; ship_data = text } in
    let row' : BoardRow = record { match_id = id; user_id = user; ship_data = again } in
    ground (
      arith,
      s,
      select-append_old p no_board (d.boards ++ row ∷ []) row'
          (ground (arith, exists-append p d.boards row)),
      select-append_new p no_board d.boards row n (ground arith),
    )
