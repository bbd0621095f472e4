-- ===== src/Accounts/Tests.antt =====
-- The theorems on accounts at a store of one user.
use networkprogramming_battl.Base.{
  ℕ, pos, true, false, ◌≡◌, ◌≢◌, ◌↔◌, refl, List, [], ◌∷◌, length, arith,
}
use networkprogramming_battl.Base.Text.{bytes}
use networkprogramming_battl.Protocol.{offline}
use networkprogramming_battl.Messages.{
  RegisterRequest, LoginRequest, LoginResponse, login_response, Event,
}
use networkprogramming_battl.Players.{get_player_status}
use networkprogramming_battl.Passwords.{hash_password, generate_salt}
use networkprogramming_battl.Passwords.Tests.{length_digest, filled, draws}
use networkprogramming_battl.Accounts.{
  UserDatabase, User, Client, Desk, reply, generate_session_token, print_decimal, random_digits,
  login, handle_register, handle_login, handle_logout,
}
use networkprogramming_battl.Accounts.Login.{
  MayLogin, IsIn, handle_login_lem, handle_logout_lem, register-login,
}

abbrev nobody : User
nobody = record {
  user_id = 0;
  username = [];
  password_hash = [];
  display_name = [];
  elo_rating = pos 1000;
  created_at = 0;
  last_login = 0;
}

-- The state is the hash of user 1, who is called "ann", or no text before the registration.
abbrev store : UserDatabase
store = record {
  Db = List ℕ;
  is_open = λ db. true;
  username_exists = λ db name. elim db [ [] ↦ false | _ ∷ _ ↦ true ];
  create_user = λ db name hash display. (hash, 1);
  get_user_by_username = λ db name. elim db [
    | [] ↦ nobody
    | b ∷ hash ↦ record nobody {
      user_id = 1;
      username = bytes "ann";
      password_hash = b ∷ hash;
      display_name = bytes "Ann";
    }
  ];
  get_user_by_id = λ db user. nobody;
  create_session = λ db user token hours. (db, 1);
  update_last_login = λ db user. db;
  validate_session = λ db token. (db, length token);
  delete_session = λ db token. (db, true);
}

abbrev visitor : Client
visitor = record { connection = 5; authenticated = false; user_id = 0; session_token = [] }

abbrev desk : Desk (List ℕ)
desk = record {
  db = [];
  players = record { players = []; server_running = true };
  client = visitor;
}

abbrev ann : RegisterRequest
ann = record { username = bytes "ann"; password = bytes "fleet"; display_name = bytes "Ann" }

abbrev ann_in : LoginRequest
ann_in = record { username = bytes "ann"; password = bytes "fleet" }

register-login_test :
    (login store length_digest
      (handle_register store length_digest desk ann filled draws).0
      ann_in
      draws).1.success
    ≡ true
unfolding hash_password generate_salt
register-login_test =
    register-login store length_digest desk ann filled draws draws refl refl refl
      (λ e. absurd (omega (arith, e))) refl (omega arith)

handle_login_lem_example :
    let x = handle_login store length_digest desk ann_in draws in
    (resp : LoginResponse) × (rest : List Event) × (x.1
      ≡ reply visitor (login_response resp) ∷ rest)
    × ((resp.success ≡ true) ↔ MayLogin store length_digest desk ann_in draws)
    × (resp.success ≡ true → IsIn store length_digest x.0 resp 0 (generate_session_token 0 draws))
    × (resp.success ≡ false → (x.0.players ≡ desk.players) × (x.0.client ≡ visitor))
handle_login_lem_example = handle_login_lem store length_digest desk ann_in draws

handle_logout_lem_test :
    let s' = (handle_logout store length_digest desk (1 ∷ 1 ∷ [])).0 in
    (◌≢◌ {A = ℕ} 2 0 → get_player_status s'.players 2 ≡ offline)
    × (◌≢◌ {A = ℕ} 2 7 → get_player_status s'.players 7 ≡ get_player_status desk.players 7)
handle_logout_lem_test = handle_logout_lem store length_digest desk (1 ∷ 1 ∷ []) 7 refl

token_of_305 : generate_session_token 305 draws ≡ bytes "token_305_77777777777777777777777777777777"
unfolding generate_session_token print_decimal random_digits
token_of_305 = refl
