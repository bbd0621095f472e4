-- ===== src/Store/Handlers.antt =====
-- The database as the handlers use it: it fills the interfaces of Accounts and of Gameplay.
use networkprogramming_battl.Base.{
  ℕ, ◌==◌, if◌then◌else◌, ℤ, true, false, ◌<◌, ◌≡◌, sym, ap, ◌∙◌, subst, Option, none, some, List,
  arith,
}
use networkprogramming_battl.Base.Text.{bytes}
use networkprogramming_battl.Protocol.{ShotResult, miss, hit, sunk}
use networkprogramming_battl.Messages.{RegisterRequest}
use networkprogramming_battl.Passwords.{hash_password}
use networkprogramming_battl.Accounts.{
  UserDatabase, User, Desk, Client, login, handle_register, generate_session_token,
}
use networkprogramming_battl.Accounts.Login.{register-login}
use networkprogramming_battl.Gameplay.{Database}
use networkprogramming_battl.Players.{PlayerManager}
use networkprogramming_battl.Store
use networkprogramming_battl.Store.{
  Store, MatchRow, usable, exists, is_user, has_username, has_user_id, has_token, default_user,
  new_user, create_user, get_user_by_username, create_session, username_exists,
}
use networkprogramming_battl.Store.Queries.{text_eq_self, exists-append, select-append_new}
use networkprogramming_battl.Store.Integrity.{IsConsistent}

abbrev pub user_database : ℕ → UserDatabase
user_database now = record {
  Db = Store;
  is_open = λ d. d.is_open;
  username_exists = username_exists;
  create_user = λ d username hash display. create_user d now username hash display;
  get_user_by_username = get_user_by_username;
  get_user_by_id = Store.get_user_by_id;
  create_session = λ d user token hours. create_session d now user token hours;
  update_last_login = λ d user. (Store.update_last_login d now user).0;
  validate_session = λ d token. Store.validate_session d now token;
  delete_session = Store.delete_session;
}

-- result_str of handleMove
abbrev pub result_text : ShotResult → List ℕ
result_text miss = bytes "miss"
result_text hit = bytes "hit"
result_text sunk = bytes "sunk"

abbrev pub players_of : MatchRow → Option (ℕ × ℕ)
players_of m = if m.match_id == 0 then none else some (m.player1_id, m.player2_id)

abbrev pub elo_of : ℕ → User → Option ℤ
elo_of id u = if u.user_id == id then some u.elo_rating else none

abbrev pub match_database : (ℤ → ℤ → ℕ → ℤ) → ℕ → Database
match_database compute_elo now = record {
  Db = Store;
  validate_session = λ d token. Store.validate_session d now token;
  save_ship_placement = Store.save_ship_placement;
  get_ship_placement = Store.get_ship_placement;
  get_match_by_id = λ d id. players_of (Store.get_match_by_id d id);
  get_user_elo = λ d id. elo_of id (Store.get_user_by_id d id);
  update_elo_rating = λ d id elo. (Store.update_elo_rating d id elo).0;
  end_match = λ d id winner. (Store.end_match d now id winner).0;
  save_move = λ d id user number target result.
      (Store.save_move d now id user number target.col target.row (result_text result)).0;
  compute_elo = compute_elo;
}

module _ (d : Store) (now : ℕ) (name hash display : List ℕ) (ok : usable d ≡ true)
    (free : exists (has_username name) d.users ≡ false) where
  -- A new user is found under the name.
  create_user_found :
      get_user_by_username (create_user d now name hash display).0 name
      ≡ new_user d now name hash display
  unfolding create_user get_user_by_username
  create_user_found =
      rw (ok, create_user, free, get_user_by_username, ok)
        (select-append_new (has_username name) default_user d.users
          (new_user d now name hash display) free (text_eq_self name))

  create_user_open : (create_user d now name hash display).0.is_open ≡ true
  unfolding create_user
  create_user_open = ground (arith, ok, free)

  -- A new user can have a session under a token that is not in use.
  create_user_session :
      (token : List ℕ)
      → 0 < d.next_session_id
      → exists (has_token token) d.sessions ≡ false
      → 0 < (create_session (create_user d now name hash display).0 now d.next_user_id token 24).1
  unfolding create_user create_session
  create_user_session token n fresh =
      let u = new_user d now name hash display in
      ground (arith, ok, free, fresh, n, exists-append (has_user_id d.next_user_id) d.users u)

-- With an open, consistent database that runs its statements: who registers under a free name, and
-- then logs in with the same password while the drawn token is not in use, gets in.
pub register-login_stored :
    (digest : List ℕ → List ℕ) (now : ℕ) (d : Store) (pm : PlayerManager) (client : Client)
    (req : RegisterRequest) (random : Option (ℕ → ℕ)) (rand draws : ℕ → ℕ)
    → IsConsistent d
    → usable d ≡ true
    → exists (has_username req.username) d.users ≡ false
    → exists (has_token (generate_session_token d.next_user_id draws)) d.sessions ≡ false
    → let s : Desk Store = record { db = d; players = pm; client = client } in
      let s' = (handle_register (user_database now) digest s req random rand).0 in
      (login
        (user_database now)
        digest
        s'
        (record { username = req.username; password = req.password })
        draws).1.success
      ≡ true
register-login_stored digest now d pm client req random rand draws v ok free fresh =
    let name = req.username in
    let hash = hash_password digest random rand req.password in
    let made = create_user d now name hash req.display_name in
    let found = create_user_found d now name hash req.display_name ok free in
    let session =
      create_user_session d now name hash req.display_name ok free
        (generate_session_token d.next_user_id draws) v.session_next fresh in
    register-login (user_database now) digest (record { db = d; players = pm; client = client }) req
      random rand draws (ground (arith, ok)) (unfold username_exists in ground (arith, ok, free))
      (create_user_open d now name hash req.display_name ok free)
      (λ e. absurd (omega (arith, v.user_next, sym (ap (λ u. u.user_id) found) ∙ e)))
      (ap (λ u. u.password_hash) found)
      (subst
        (λ (u : User).
          0 < (create_session made.0 now u.user_id (generate_session_token u.user_id draws) 24).1)
        (sym found) session)
