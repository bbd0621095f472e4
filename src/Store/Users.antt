-- ===== src/Store/Users.antt =====
-- The operations of DatabaseManager on users (server/src/database.cpp).
use networkprogramming_battl.Base.{
  ℕ, ◌+◌, if◌then◌else◌, ℤ, pos, not, Bool, true, false, List, [], ◌∷◌, ◌++◌,
}
use networkprogramming_battl.Accounts.{User}
use networkprogramming_battl.Store.Tables.{
  Store, usable, default_user, exists, select, update_where, has_user_id, has_username,
}

abbrev pub new_user : Store → ℕ → List ℕ → List ℕ → List ℕ → User
new_user d now username password_hash display_name = record {
  user_id = d.next_user_id;
  username = username;
  password_hash = password_hash;
  display_name = display_name;
  elo_rating = pos 1000;
  created_at = now;
  last_login = 0;
}

-- the username is UNIQUE
unfoldable pub create_user : Store → ℕ → List ℕ → List ℕ → List ℕ → Store × ℕ
create_user d now username password_hash display_name =
    if not (usable d) then (d, 0) else if exists (has_username username) d.users then (d, 0) else (
      record d {
        users = d.users ++ new_user d now username password_hash display_name ∷ [];
        next_user_id = d.next_user_id + 1;
      },
      d.next_user_id,
    )

unfoldable pub get_user_by_username : Store → List ℕ → User
get_user_by_username d username =
    if not (usable d) then default_user else select (has_username username) default_user d.users

unfoldable pub get_user_by_id : Store → ℕ → User
get_user_by_id d id =
    if not (usable d) then default_user else select (has_user_id id) default_user d.users

abbrev pub logged_in : ℕ → User → User
logged_in now u = record u { last_login = now }

unfoldable pub update_last_login : Store → ℕ → ℕ → Store × Bool
update_last_login d now id =
    if not (usable d)
    then (d, false)
    else (record d { users = update_where (has_user_id id) (logged_in now) d.users }, true)

abbrev pub rated : ℤ → User → User
rated elo u = record u { elo_rating = elo }

unfoldable pub update_elo_rating : Store → ℕ → ℤ → Store × Bool
update_elo_rating d id elo =
    if not (usable d)
    then (d, false)
    else (record d { users = update_where (has_user_id id) (rated elo) d.users }, true)

unfoldable pub username_exists : Store → List ℕ → Bool
username_exists d username =
    if not (usable d) then false else exists (has_username username) d.users
