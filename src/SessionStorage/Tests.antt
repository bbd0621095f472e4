-- ===== src/SessionStorage/Tests.antt =====
-- The session file of one user.
use networkprogramming_battl.Base.{pos, true, ◌≡◌, refl, none, arith}
use networkprogramming_battl.Base.Text.{bytes}
use networkprogramming_battl.SessionStorage.{
  Session, save_session, refused, loaded, load_session, clear_session,
}
use networkprogramming_battl.SessionStorage.RoundTrip.{load-save}

abbrev ann : Session
ann = record {
  user_id = 42;
  session_token = bytes "t0k";
  username = bytes "ann";
  display_name = bytes "Ann B";
  elo_rating = pos 1016;
}

load-save_example : load_session (save_session none ann true).0 ≡ loaded ann
load-save_example =
    load-save none ann (omega arith) refl (refl, (refl, (refl, tt))) (refl, (refl, (refl, tt)))
      (refl, (refl, (refl, (refl, (refl, tt)))))

cleared_test : load_session (clear_session (save_session none ann true).0) ≡ refused
unfolding load_session clear_session
cleared_test = refl
