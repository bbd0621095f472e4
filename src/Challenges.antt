-- ===== src/Challenges.antt =====
-- ChallengeManager (server/include/challenge_manager.h, server/src/challenge_manager.cpp).
-- The time is an argument. The match id that the database gives to a new match, 0 where it is
-- missing or fails, is the argument `created`. The player manager, which the class reaches by a
-- pointer, is passed in and returned where it changes. What is sent is returned as events.
pub mod Pending
mod Tests
use networkprogramming_battl.Base.{
  ℕ, ◌+◌, ◌%◌, ◌^◌, ltb, leb, ◌==◌, if◌then◌else◌, not, Bool, true, false, ◌||◌, Option, none, some,
  List, [], ◌∷◌, ◌++◌,
}
use networkprogramming_battl.Base.Map.{Map, find, insert, erase, keep}
use networkprogramming_battl.Base.Text.{bytes, safe_str_copy}
use networkprogramming_battl.Protocol.{PlayerStatus, offline, online, available, in_game, busy}
use networkprogramming_battl.Messages.{
  ChallengeRequest, ChallengeReceived, ChallengeResponse, ChallengeResult, default_result,
  MatchStartMessage, Payload, challenge_received, challenge_result, match_start, Event, send,
}
use networkprogramming_battl.Players.{
  PlayerManager, is_available, get_player_status, get_player_info, get_client_connection,
  is_player_online, update_player_status,
}

pub record PendingChallenge : Type 0 where
  pub challenge_id : ℕ
  pub challenger_id : ℕ
  pub target_id : ℕ
  pub time_limit : ℕ
  pub random_placement : Bool
  pub created_at : ℕ
  pub expires_at : ℕ

pub record ChallengeManager : Type 0 where
  pub challenges : Map PendingChallenge
  pub next_challenge_id : ℕ

abbrev pub challenge_timeout_seconds : ℕ
challenge_timeout_seconds = 60

unfoldable pub new_manager : ChallengeManager
new_manager = record { challenges = []; next_challenge_id = 1 }

-- a message to a player who has a connection
abbrev pub to_player : PlayerManager → ℕ → Bool → Payload → List Event
to_player pm u sized payload = elim (get_client_connection pm u) [
  | none ↦ []
  | some c ↦ send c sized payload ∷ []
]

-- the reason for a refusal, by the status of the target
abbrev pub refusal : PlayerStatus → List ℕ
refusal in_game = bytes "Target player is already in a game"
refusal busy = bytes "Target player is busy"
refusal _ = bytes "Target player is not available"

-- `none` is a valid challenge, and otherwise the error is given
unfoldable pub validate_challenge : PlayerManager → ℕ → ℕ → Option (List ℕ)
validate_challenge pm challenger target =
    if not (is_player_online pm target)
    then some (bytes "Target player is not online")
    else if not (is_available (get_player_status pm target))
    then some (refusal (get_player_status pm target))
    else if not (is_available (get_player_status pm challenger))
    then some (bytes "You must be available to send a challenge")
    else if challenger == target
    then some (bytes "Cannot challenge yourself")
    else none

abbrev pub failure : ℕ → List ℕ → Payload
failure id error =
    challenge_result
      (record default_result { challenge_id = id; error_message = safe_str_copy 128 error })

-- notifyChallenger, which is called with a text only
pub notify_challenger : PlayerManager → PendingChallenge → Bool → List ℕ → List Event
notify_challenger pm c accepted error = to_player pm c.challenger_id true (
    challenge_result (record {
      challenge_id = c.challenge_id;
      success = accepted;
      match_id = 0;
      error_message = safe_str_copy 128 error;
    }))

pub notify_target : PlayerManager → PendingChallenge → List Event
notify_target pm c =
    let info = get_player_info pm c.challenger_id in
    to_player pm c.target_id true (
      challenge_received (record {
        challenge_id = c.challenge_id;
        challenger_id = c.challenger_id;
        challenger_name = safe_str_copy 64 info.display_name;
        challenger_elo = info.elo_rating;
        time_limit = c.time_limit;
        random_placement = c.random_placement;
        expires_at = c.expires_at;
      }))

-- the challenge that sendChallenge files
abbrev pub new_challenge : ℕ → ℕ → ChallengeRequest → ℕ → PendingChallenge
new_challenge id challenger request now = record {
  challenge_id = id;
  challenger_id = challenger;
  target_id = request.target_user_id;
  time_limit = request.time_limit;
  random_placement = request.random_placement;
  created_at = now;
  expires_at = now + challenge_timeout_seconds;
}

unfoldable pub send_challenge :
    ChallengeManager
    → PlayerManager
    → ℕ
    → ChallengeRequest
    → ℕ
    → ChallengeManager × List Event × Bool
unfolding notify_target
send_challenge m pm challenger request now =
    elim (validate_challenge pm challenger request.target_user_id) [
      | some error ↦ (m, to_player pm challenger false (failure 0 error), false)
      | none ↦
          let c = new_challenge m.next_challenge_id challenger request now in
          (
            record {
              challenges = insert m.next_challenge_id c m.challenges;
              next_challenge_id = (m.next_challenge_id + 1) % 2 ^ 32;
            },
            notify_target pm c,
            true,
          )
    ]

-- the message that tells one player of the match
abbrev pub start_message : PlayerManager → ℕ → ℕ → PendingChallenge → Bool → Payload
start_message pm id opponent c first = match_start (record {
  match_id = id;
  opponent_id = opponent;
  opponent_name = safe_str_copy 64 (get_player_info pm opponent).display_name;
  opponent_elo = (get_player_info pm opponent).elo_rating;
  time_limit = c.time_limit;
  you_go_first = first;
})

-- the accepted branch of respondToChallenge
unfoldable pub accept : PlayerManager → PendingChallenge → ℕ → PlayerManager × List Event
accept pm c created =
    if created == 0
    then (pm, notify_challenger pm c false (bytes "Failed to create match"))
    else (let one = update_player_status pm c.challenger_id in_game in
        let two = update_player_status one.0 c.target_id in_game in
        (
          two.0,
          to_player pm c.challenger_id true (start_message pm created c.target_id c true)
              ++ (to_player pm c.target_id true (start_message pm created c.challenger_id c false)
                  ++ (one.1 ++ two.1)),
        ))

-- respondToChallenge with the challenge that was found
unfoldable pub answer :
    ChallengeManager
    → PlayerManager
    → ℕ
    → ChallengeResponse
    → ℕ
    → PendingChallenge
    → ChallengeManager × PlayerManager × List Event × Bool
answer m pm responder response created c =
    if c.target_id == responder
    then (let m' : ChallengeManager = record m {
      challenges = erase response.challenge_id m.challenges;
    } in
        if response.accepted
        then (m', (accept pm c created).0, (accept pm c created).1, true)
        else (m', pm, notify_challenger pm c false (bytes "Challenge declined"), true))
    else (m, pm, [], false)

unfoldable pub respond_to_challenge :
    ChallengeManager
    → PlayerManager
    → ℕ
    → ChallengeResponse
    → ℕ
    → ChallengeManager × PlayerManager × List Event × Bool
unfolding answer accept notify_challenger
respond_to_challenge m pm responder response created =
    elim (find response.challenge_id m.challenges) [
      | none ↦ (
        m,
        pm,
        to_player pm responder false
            (failure response.challenge_id (bytes "Challenge not found or expired")),
        false,
      )
      | some c ↦ answer m pm responder response created c
    ]

unfoldable pub cancel_challenge : ChallengeManager → ℕ → ChallengeManager
cancel_challenge m id = record m { challenges = erase id m.challenges }

abbrev pub expired : ℕ → ℕ → PendingChallenge → Bool
expired now id c = leb c.expires_at now

-- the notifications of checkExpiredChallenges, over the expired challenges
pub expiry_events : PlayerManager → Map PendingChallenge → List Event
expiry_events pm [] = []
expiry_events pm ((id, c) ∷ cs) =
    notify_challenger pm c false (bytes "Challenge timed out")
    ++ (to_player pm c.target_id false (failure c.challenge_id (bytes "Challenge timed out"))
        ++ expiry_events pm cs)

unfoldable pub check_expired_challenges :
    ChallengeManager → PlayerManager → ℕ → ChallengeManager × List Event
check_expired_challenges m pm now = (
  record m { challenges = keep (λ id c. not (expired now id c)) m.challenges },
  expiry_events pm (keep (expired now) m.challenges),
)

abbrev pub concerns : ℕ → ℕ → PendingChallenge → Bool
concerns u id c = c.challenger_id == u || c.target_id == u

unfoldable pub remove_player_challenges : ChallengeManager → ℕ → ChallengeManager
remove_player_challenges m u = record m {
  challenges = keep (λ id c. not (concerns u id c)) m.challenges;
}
