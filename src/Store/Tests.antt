-- ===== src/Store/Tests.antt =====
-- The theorems on the database at a store with one user, one session and one match.
use networkprogramming_battl.Base.{
  ◌+◌, ◌*◌, ◌<◌, ltb, ◌==◌, if◌then◌else◌, pos, inl, true, false, ◌≡◌, refl, [], ◌∷◌, arith,
}
use networkprogramming_battl.Base.Text.{bytes}
use networkprogramming_battl.Messages.{RegisterRequest}
use networkprogramming_battl.Passwords.Tests.{length_digest, filled, draws}
use networkprogramming_battl.Players.{PlayerManager}
use networkprogramming_battl.Accounts.{Desk, Client, login, handle_register, generate_session_token}
use networkprogramming_battl.Store.{
  Store, default_user, exists, has_token, create_session, delete_session, validate_session,
  end_match, save_ship_placement, get_ship_placement, text_eq, cleanup_expired_sessions,
  delete_where, count_where, new_match_row, new_session,
}
use networkprogramming_battl.Store.Integrity.{IsConsistent}
use networkprogramming_battl.Store.References.{execute, saves_move, execute-IsConsistent}
use networkprogramming_battl.Store.Lifetime.{session_lifetime, draw_refused, first_placement}
use networkprogramming_battl.Store.Passes.{issue, revoke, present, book, sessions_refine}
use networkprogramming_battl.Store.Handlers.{user_database, register-login_stored}

abbrev pub empty : Store
empty = record {
  is_open = true;
  healthy = true;
  users = [];
  next_user_id = 1;
  sessions = [];
  next_session_id = 1;
  matches = [];
  next_match_id = 1;
  boards = [];
  moves = [];
}

-- User 1 plays match 1 alone, and is logged in until time 3700.
abbrev pub small : Store
small = record empty {
  users = record default_user { user_id = 1; username = bytes "ann" } ∷ [];
  next_user_id = 2;
  sessions = new_session empty 100 1 (bytes "t") 1 ∷ [];
  next_session_id = 2;
  matches = new_match_row empty 100 1 1 ∷ [];
  next_match_id = 2;
}

pub small-IsConsistent : IsConsistent small
unfolding exists
small-IsConsistent = record {
  user_next = omega arith;
  session_next = omega arith;
  match_next = omega arith;
  user_ids = omega arith;
  session_ids = omega arith;
  match_ids = omega arith;
  usernames = (tt, tt);
  tokens = (tt, tt);
  session_users = (refl, tt);
  match_users = ((refl, refl, inl refl), tt);
  board_rows = tt;
  move_rows = tt;
}

execute-IsConsistent_example :
    IsConsistent (execute small 105 (saves_move 1 1 1 (pos 3) (pos 3) (bytes "miss")))
execute-IsConsistent_example =
    execute-IsConsistent small 105 (saves_move 1 1 1 (pos 3) (pos 3) (bytes "miss"))
      small-IsConsistent

session_lifetime_example :
    let used = validate_session (create_session small 200 1 (bytes "u") 24).0 90000 (bytes "u") in
    (used.1 ≡ (if ltb (200 + 24 * 3600) 90000 then 0 else 1))
    × (200 + 24 * 3600 < 90000 → exists (has_token (bytes "u")) used.0.sessions ≡ false)
unfolding create_session exists text_eq
session_lifetime_example =
    session_lifetime small 200 1 90000 (bytes "u") 24 small-IsConsistent
      (λ e. absurd (omega (arith, e)))

sessions_refine_example :
    let made = create_session small 200 1 (bytes "u") 24 in
    let used = validate_session small 200 (bytes "u") in
    (book made.0 (bytes "t") ≡ (
      if made.1 == 0
      then book small (bytes "t")
      else issue (book small) (bytes "u") 1 (200 + 24 * 3600) (bytes "t")))
    × (book (delete_session small (bytes "u")).0 (bytes "t")
        ≡ revoke (book small) (bytes "u") (bytes "t"))
    × (book used.0 (bytes "t") ≡ (present (book small) 200 (bytes "u")).0 (bytes "t"))
    × (used.1 ≡ (present (book small) 200 (bytes "u")).1)
sessions_refine_example =
    sessions_refine small 200 1 24 (bytes "u") (bytes "t") small-IsConsistent refl

draw_refused_test : end_match small 300 1 0 ≡ (small, false)
unfolding exists
draw_refused_test = draw_refused small 300 1 small-IsConsistent refl

first_placement_test :
    let later =
      save_ship_placement
        (save_ship_placement small 1 1 (bytes "0,0,0,0;")).0
        1
        1
        (bytes "0,0,5,0;") in
    (later.1 ≡ true) × (get_ship_placement later.0 1 1 ≡ bytes "0,0,0,0;")
unfolding exists save_ship_placement
first_placement_test = first_placement small 1 1 (bytes "0,0,0,0;") (bytes "0,0,5,0;") refl refl

abbrev bob : RegisterRequest
bob = record { username = bytes "bob"; password = bytes "fleet"; display_name = bytes "Bob" }

abbrev pub visitor : Client
visitor = record { connection = 5; authenticated = false; user_id = 0; session_token = [] }

abbrev pub nobody : PlayerManager
nobody = record { players = []; server_running = true }

register-login_stored_example :
    let s : Desk Store = record { db = small; players = nobody; client = visitor } in
    (login
      (user_database 500)
      length_digest
      (handle_register (user_database 500) length_digest s bob filled draws).0
      (record { username = bytes "bob"; password = bytes "fleet" })
      draws).1.success
    ≡ true
unfolding exists text_eq generate_session_token
register-login_stored_example =
    register-login_stored length_digest 500 small nobody visitor bob filled draws draws
      small-IsConsistent refl refl refl

expired_cleaned : cleanup_expired_sessions small 5000 ≡ (record small { sessions = [] }, 1)
unfolding cleanup_expired_sessions delete_where count_where
expired_cleaned = refl
