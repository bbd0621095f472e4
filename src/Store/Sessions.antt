-- ===== src/Store/Sessions.antt =====
-- The operations of DatabaseManager on sessions (server/src/database.cpp).
use networkprogramming_battl.Base.{
  ℕ, ◌+◌, ◌*◌, ltb, ◌==◌, if◌then◌else◌, not, Bool, true, false, List, [], ◌∷◌, ◌++◌,
}
use networkprogramming_battl.Store.Tables.{
  Store, Session, usable, default_session, exists, select, delete_where, count_where, has_token,
  is_user,
}

abbrev pub new_session : Store → ℕ → ℕ → List ℕ → ℕ → Session
new_session d now user token hours = record {
  session_id = d.next_session_id;
  user_id = user;
  session_token = token;
  created_at = now;
  expires_at = now + hours * 3600;
}

-- the user is a FOREIGN KEY, and the token is UNIQUE
unfoldable pub create_session : Store → ℕ → ℕ → List ℕ → ℕ → Store × ℕ
create_session d now user token hours =
    if not (usable d)
    then (d, 0)
    else if not (is_user d user)
    then (d, 0)
    else if exists (has_token token) d.sessions
    then (d, 0)
    else (
      record d {
        sessions = d.sessions ++ new_session d now user token hours ∷ [];
        next_session_id = d.next_session_id + 1;
      },
      d.next_session_id,
    )

unfoldable pub get_session_by_token : Store → List ℕ → Session
get_session_by_token d token =
    if not (usable d) then default_session else select (has_token token) default_session d.sessions

-- Session::isExpired
abbrev pub is_expired : ℕ → Session → Bool
is_expired now s = ltb s.expires_at now

unfoldable pub delete_session : Store → List ℕ → Store × Bool
delete_session d token =
    if not (usable d)
    then (d, false)
    else (record d { sessions = delete_where (has_token token) d.sessions }, true)

unfoldable pub validate_session : Store → ℕ → List ℕ → Store × ℕ
unfolding delete_session get_session_by_token
validate_session d now token =
    let session = get_session_by_token d token in
    if session.session_id == 0
    then (d, 0)
    else if is_expired now session
    then ((delete_session d token).0, 0)
    else (d, session.user_id)

unfoldable pub cleanup_expired_sessions : Store → ℕ → Store × ℕ
cleanup_expired_sessions d now = if not (usable d) then (d, 0) else (
  record d { sessions = delete_where (is_expired now) d.sessions },
  count_where (is_expired now) d.sessions,
)

unfoldable pub delete_user_sessions : Store → ℕ → Store × Bool
delete_user_sessions d user =
    if not (usable d)
    then (d, false)
    else (record d { sessions = delete_where (λ s. s.user_id == user) d.sessions }, true)
