-- ===== src/Store/Tables.antt =====
-- The tables that initializeSchema creates (server/src/database.cpp), and the queries on rows.
use networkprogramming_battl.Base.{
  ℕ, suc, ◌==◌, if◌then◌else◌, ℤ, pos, Bool, true, false, ◌&&◌, ◌||◌, List, [], ◌∷◌,
}
use networkprogramming_battl.Accounts.{User}

pub record Session : Type 0 where
  pub session_id : ℕ
  pub user_id : ℕ
  pub session_token : List ℕ
  pub created_at : ℕ
  pub expires_at : ℕ

-- the struct Match, a row of `matches`
pub record MatchRow : Type 0 where
  pub match_id : ℕ
  pub player1_id : ℕ
  pub player2_id : ℕ
  pub winner_id : ℕ
  pub status : List ℕ
  pub created_at : ℕ
  pub ended_at : ℕ

-- a row of `match_boards`
pub record BoardRow : Type 0 where
  pub match_id : ℕ
  pub user_id : ℕ
  pub ship_data : List ℕ

-- a row of `match_moves`
pub record MoveRow : Type 0 where
  pub match_id : ℕ
  pub player_id : ℕ
  pub move_number : ℕ
  pub x : ℤ
  pub y : ℤ
  pub result : List ℕ
  pub timestamp : ℕ

-- `is_open` is `db_ != nullptr`; `healthy` says that SQLite prepares and runs what it is given, so
-- that only a constraint can make a statement fail.
pub record Store : Type 0 where
  pub is_open : Bool
  pub healthy : Bool
  pub users : List User
  pub next_user_id : ℕ
  pub sessions : List Session
  pub next_session_id : ℕ
  pub matches : List MatchRow
  pub next_match_id : ℕ
  pub boards : List BoardRow
  pub moves : List MoveRow

abbrev pub usable : Store → Bool
usable d = d.is_open && d.healthy

-- User::User, Session::Session and Match::Match
abbrev pub default_user : User
default_user = record {
  user_id = 0;
  username = [];
  password_hash = [];
  display_name = [];
  elo_rating = pos 1000;
  created_at = 0;
  last_login = 0;
}

abbrev pub default_session : Session
default_session = record {
  session_id = 0;
  user_id = 0;
  session_token = [];
  created_at = 0;
  expires_at = 0;
}

abbrev pub default_match : MatchRow
default_match = record {
  match_id = 0;
  player1_id = 0;
  player2_id = 0;
  winner_id = 0;
  status = [];
  created_at = 0;
  ended_at = 0;
}

-- `=` of texts
unfoldable pub text_eq : List ℕ → List ℕ → Bool
text_eq [] [] = true
text_eq [] (b ∷ t) = false
text_eq (a ∷ s) [] = false
text_eq (a ∷ s) (b ∷ t) = a == b && text_eq s t

module _ {ℓ} {A : Type ℓ} where
  -- SELECT COUNT(*) FROM rows WHERE p, compared with 0
  unfoldable pub exists : (A → Bool) → List A → Bool
  exists p [] = false
  exists p (x ∷ xs) = p x || exists p xs

  -- the first row of SELECT FROM rows WHERE p, or the default
  unfoldable pub select : (A → Bool) → A → List A → A
  select p d [] = d
  select p d (x ∷ xs) = if p x then x else select p d xs

  -- UPDATE rows SET f WHERE p
  unfoldable pub update_where : (A → Bool) → (A → A) → List A → List A
  update_where p f [] = []
  update_where p f (x ∷ xs) = (if p x then f x else x) ∷ update_where p f xs

  -- DELETE FROM rows WHERE p
  unfoldable pub delete_where : (A → Bool) → List A → List A
  delete_where p [] = []
  delete_where p (x ∷ xs) = if p x then delete_where p xs else x ∷ delete_where p xs

  -- sqlite3_changes after such a DELETE
  unfoldable pub count_where : (A → Bool) → List A → ℕ
  count_where p [] = 0
  count_where p (x ∷ xs) = if p x then suc (count_where p xs) else count_where p xs

abbrev pub has_user_id : ℕ → User → Bool
has_user_id id u = u.user_id == id

abbrev pub has_username : List ℕ → User → Bool
has_username name u = text_eq u.username name

abbrev pub has_token : List ℕ → Session → Bool
has_token token s = text_eq s.session_token token

abbrev pub has_match_id : ℕ → MatchRow → Bool
has_match_id id m = m.match_id == id

abbrev pub is_board_of : ℕ → ℕ → BoardRow → Bool
is_board_of id user b = b.match_id == id && b.user_id == user

-- what FOREIGN KEY checks
abbrev pub is_user : Store → ℕ → Bool
is_user d id = exists (has_user_id id) d.users

abbrev pub is_match : Store → ℕ → Bool
is_match d id = exists (has_match_id id) d.matches
