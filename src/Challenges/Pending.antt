-- ===== src/Challenges/Pending.antt =====
-- The life of a pending challenge.
use networkprogramming_battl.Base.{
  ℕ, ◌+◌, ◌<◌, ◌==◌, not, true, false, ◌≡◌, ◌≢◌, ◌↔◌, inl, inr, refl, none, some, Option-cases,
  Bool-cases, arith,
}
use networkprogramming_battl.Base.Map.{
  find, keep, find-erase, find-keep, AllEntries, AllEntries-map, AllEntries-insert,
  AllEntries-erase, AllEntries-keep, keep-passes,
}
use networkprogramming_battl.Protocol.{available}
use networkprogramming_battl.Messages.{ChallengeRequest, ChallengeResponse}
use networkprogramming_battl.Players.{PlayerManager, get_player_status, is_player_online}
use networkprogramming_battl.Challenges.{
  PendingChallenge, ChallengeManager, challenge_timeout_seconds, validate_challenge, new_challenge,
  send_challenge, answer, respond_to_challenge, cancel_challenge, expired, check_expired_challenges,
  concerns, remove_player_challenges,
}

-- A challenge is valid exactly between two different players of whom both can be challenged.
pub validate_challenge_iff :
    (pm : PlayerManager) (challenger target : ℕ)
    → (validate_challenge pm challenger target ≡ none) ↔ (
        (get_player_status pm target ≡ available)
        × (get_player_status pm challenger ≡ available)
        × (challenger ≢ target))
unfolding validate_challenge get_player_status is_player_online
validate_challenge_iff pm challenger target = ground arith

-- A filed challenge stands under its own id, is between two players, and has an expiry field a minute
-- after its creation.
pub record IsPending (id : ℕ) (c : PendingChallenge) : Type 0 where
  pub own_id : c.challenge_id ≡ id
  pub two_players : c.challenger_id ≢ c.target_id
  pub minute : c.expires_at ≡ c.created_at + challenge_timeout_seconds

abbrev pub IsOrderly : ChallengeManager → Type 0
IsOrderly m = AllEntries IsPending m.challenges

module _ (m : ChallengeManager) (pm : PlayerManager) (user : ℕ) where
  send_challenge-IsOrderly :
      (request : ChallengeRequest) (now : ℕ)
      → IsOrderly m
      → IsOrderly (send_challenge m pm user request now).0
  unfolding send_challenge
  send_challenge-IsOrderly request now v =
      elim (Option-cases (validate_challenge pm user request.target_user_id)) [
        | inr (error, e) ↦ rw (e, send_challenge) v
        | inl e ↦
            rw (e, send_challenge)
              (AllEntries-insert IsPending m.next_challenge_id
                (new_challenge m.next_challenge_id user request now) m.challenges
                (record {
                  own_id = refl;
                  two_players = ((validate_challenge_iff pm user request.target_user_id).0 e).2;
                  minute = refl;
                })
                v)
      ]

  respond_to_challenge-IsOrderly :
      (response : ChallengeResponse) (created : ℕ)
      → IsOrderly m
      → IsOrderly (respond_to_challenge m pm user response created).0
  unfolding respond_to_challenge
  respond_to_challenge-IsOrderly response created v =
      let fewer = AllEntries-erase IsPending response.challenge_id m.challenges v in
      elim (Option-cases (find response.challenge_id m.challenges)) [
        | inl e ↦ rw (e, respond_to_challenge) v
        | inr (c, e) ↦
            rw (e, respond_to_challenge)
              (elim (Bool-cases (c.target_id == user)) [
                | inr other ↦ rw (other, answer) v
                | inl own ↦ elim (Bool-cases response.accepted) [
                  | inl yes' ↦ rw (own, answer, yes') fewer
                  | inr no' ↦ rw (own, answer, no') fewer
                ]
              ])
      ]

  -- A response that succeeds comes from the challenged player, and takes the challenge away.
  pub respond_to_challenge_consumes :
      (response : ChallengeResponse) (created : ℕ)
      → (respond_to_challenge m pm user response created).3 ≡ true
      → (c : PendingChallenge) × (find response.challenge_id m.challenges ≡ some c)
        × (c.target_id ≡ user)
        × (find response.challenge_id (respond_to_challenge m pm user response created).0.challenges
            ≡ none)
  unfolding respond_to_challenge
  respond_to_challenge_consumes response created h =
      elim (Option-cases (find response.challenge_id m.challenges)) [
        | inl e ↦ absurd (ground (arith, e))
        | inr (c, e) ↦ (
          c,
          e,
          ground (arith, e),
          ground (arith, e, find-erase response.challenge_id response.challenge_id m.challenges),
        )
      ]

-- A challenge is answered once: after a response that succeeded, a further response to it fails,
-- whoever sends it.
pub respond_to_challenge_once :
    (m : ChallengeManager) (pm : PlayerManager) (user : ℕ) (response : ChallengeResponse)
    (created : ℕ) (pm' : PlayerManager) (user' : ℕ) (response' : ChallengeResponse) (created' : ℕ)
    → (respond_to_challenge m pm user response created).3 ≡ true
    → response'.challenge_id ≡ response.challenge_id
    → (respond_to_challenge
        (respond_to_challenge m pm user response created).0
        pm'
        user'
        response'
        created').3
      ≡ false
respond_to_challenge_once m pm user response created pm' user' response' created' h e =
    let (c, _, _, gone) = respond_to_challenge_consumes m pm user response created h in
    unanswered (respond_to_challenge m pm user response created).0 (rw e gone)
  where
    unanswered :
        (n : ChallengeManager)
        → find response'.challenge_id n.challenges ≡ none
        → (respond_to_challenge n pm' user' response' created').3 ≡ false
    unanswered n gone = unfold respond_to_challenge in rw (gone, respond_to_challenge)

-- Every operation keeps filed challenges that are in order so.
pub operations-IsOrderly :
    (m : ChallengeManager) (pm : PlayerManager) (user : ℕ) (request : ChallengeRequest)
    (response : ChallengeResponse) (created id now : ℕ)
    → IsOrderly m
    → IsOrderly (send_challenge m pm user request now).0
      × IsOrderly (respond_to_challenge m pm user response created).0
      × IsOrderly (cancel_challenge m id)
      × IsOrderly (check_expired_challenges m pm now).0
      × IsOrderly (remove_player_challenges m user)
operations-IsOrderly m pm user request response created id now v = (
  send_challenge-IsOrderly m pm user request now v,
  respond_to_challenge-IsOrderly m pm user response created v,
  (unfold cancel_challenge in AllEntries-erase IsPending id m.challenges v),
  (unfold check_expired_challenges in
      AllEntries-keep IsPending (λ i c. not (expired now i c)) m.challenges v),
  (unfold remove_player_challenges in
      AllEntries-keep IsPending (λ i c. not (concerns user i c)) m.challenges v),
)

-- The expiry check leaves exactly the challenges that have time left.
pub check_expired_challenges_lem :
    (m : ChallengeManager) (pm : PlayerManager) (now : ℕ)
    → let m' = (check_expired_challenges m pm now).0 in
      AllEntries (λ id c. now < c.expires_at) m'.challenges
      × ((id : ℕ) (c : PendingChallenge)
          → find id m.challenges ≡ some c
          → now < c.expires_at
          → find id m'.challenges ≡ some c)
unfolding check_expired_challenges
check_expired_challenges_lem m pm now =
    let p = λ (i : ℕ) (c : PendingChallenge). not (expired now i c) in
    (
      AllEntries-map (keep p m.challenges) (λ i c t. ground (arith, t))
          (keep-passes p m.challenges),
      λ id c e t. find-keep p id m.challenges c e (ground (arith, t)),
    )

-- A removed player is in no challenge any more, and the challenges of others stay.
pub remove_player_challenges_lem :
    (m : ChallengeManager) (user : ℕ)
    → let m' = remove_player_challenges m user in
      AllEntries (λ id c. (c.challenger_id ≢ user) × (c.target_id ≢ user)) m'.challenges
      × ((id : ℕ) (c : PendingChallenge)
          → find id m.challenges ≡ some c
          → c.challenger_id ≢ user
          → c.target_id ≢ user
          → find id m'.challenges ≡ some c)
unfolding remove_player_challenges
remove_player_challenges_lem m user =
    let p = λ (i : ℕ) (c : PendingChallenge). not (concerns user i c) in
    (
      AllEntries-map (keep p m.challenges) (λ i c t. ground (arith, t))
          (keep-passes p m.challenges),
      λ id c e t u. find-keep p id m.challenges c e (ground (arith, t, u)),
    )
