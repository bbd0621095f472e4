-- ===== src/Challenges/Tests.antt =====
-- The theorems on challenges at a manager with one challenge, and its life.
use networkprogramming_battl.Base.{
  ℕ, ◌<◌, pos, true, false, ◌≡◌, ◌≢◌, ◌↔◌, refl, [], ◌∷◌, none, some, arith,
}
use networkprogramming_battl.Base.Map.{find, AllEntries}
use networkprogramming_battl.Base.Text.{bytes}
use networkprogramming_battl.Protocol.{available}
use networkprogramming_battl.Messages.{ChallengeRequest, ChallengeResponse}
use networkprogramming_battl.Players.{PlayerData, PlayerManager, get_player_status}
use networkprogramming_battl.Challenges.{
  PendingChallenge, ChallengeManager, validate_challenge, send_challenge, respond_to_challenge,
  cancel_challenge, check_expired_challenges, remove_player_challenges,
}
use networkprogramming_battl.Challenges.Pending.{
  IsOrderly, validate_challenge_iff, operations-IsOrderly, respond_to_challenge_once,
  check_expired_challenges_lem, remove_player_challenges_lem,
}

abbrev ada : PlayerData
ada = record {
  user_id = 1;
  username = bytes "ada";
  display_name = bytes "Ada";
  elo_rating = pos 1000;
  status = available;
  client = 5;
}

abbrev lobby : PlayerManager
lobby = record {
  players = (1, ada) ∷ (2, record ada { user_id = 2; client = 6 }) ∷ [];
  server_running = true;
}

abbrev duel : PendingChallenge
duel = record {
  challenge_id = 1;
  challenger_id = 1;
  target_id = 2;
  time_limit = 60;
  random_placement = false;
  created_at = 100;
  expires_at = 160;
}

abbrev waiting : ChallengeManager
waiting = record { challenges = (1, duel) ∷ []; next_challenge_id = 2 }

waiting-IsOrderly : IsOrderly waiting
waiting-IsOrderly =
    (record { own_id = refl; two_players = λ e. absurd (omega arith); minute = refl }, tt)

abbrev back : ChallengeRequest
back = record { target_user_id = 1; time_limit = 60; random_placement = true }

abbrev agree : ChallengeResponse
agree = record { challenge_id = 1; accepted = true }

validate_challenge_iff_test : (validate_challenge lobby 1 2 ≡ none) ↔ (
    (get_player_status lobby 2 ≡ available)
    × (get_player_status lobby 1 ≡ available)
    × (◌≢◌ {A = ℕ} 1 2))
validate_challenge_iff_test = validate_challenge_iff lobby 1 2

operations-IsOrderly_example :
    IsOrderly (send_challenge waiting lobby 2 back 110).0
    × IsOrderly (respond_to_challenge waiting lobby 2 agree 9).0
    × IsOrderly (cancel_challenge waiting 1)
    × IsOrderly (check_expired_challenges waiting lobby 110).0
    × IsOrderly (remove_player_challenges waiting 2)
operations-IsOrderly_example =
    operations-IsOrderly waiting lobby 2 back agree 9 1 110 waiting-IsOrderly

respond_to_challenge_once_example :
    (respond_to_challenge (respond_to_challenge waiting lobby 2 agree 9).0 lobby 2 agree 10).3
    ≡ false
unfolding respond_to_challenge find
respond_to_challenge_once_example =
    respond_to_challenge_once waiting lobby 2 agree 9 lobby 2 agree 10 refl refl

check_expired_challenges_lem_test :
    let m' = (check_expired_challenges waiting lobby 110).0 in
    AllEntries (λ id c. 110 < c.expires_at) m'.challenges
    × ((id : ℕ) (c : PendingChallenge)
        → find id waiting.challenges ≡ some c
        → 110 < c.expires_at
        → find id m'.challenges ≡ some c)
check_expired_challenges_lem_test = check_expired_challenges_lem waiting lobby 110

remove_player_challenges_lem_test :
    let m' = remove_player_challenges waiting 3 in
    AllEntries (λ id c. (c.challenger_id ≢ 3) × (c.target_id ≢ 3)) m'.challenges
    × ((id : ℕ) (c : PendingChallenge)
        → find id waiting.challenges ≡ some c
        → c.challenger_id ≢ 3
        → c.target_id ≢ 3
        → find id m'.challenges ≡ some c)
remove_player_challenges_lem_test = remove_player_challenges_lem waiting 3
