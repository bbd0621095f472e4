-- ===== src/Routing/Steps.antt =====
-- Every state that the server reaches is in order.
use networkprogramming_battl.Base.{
  ℕ, ◌==◌, Bool-cases, Option-cases, ℤ, inl, inr, true, ◌&&◌, ◌≡◌, refl, Option, none, some, List,
  [],
}
use networkprogramming_battl.Base.Map.{
  find, AllEntries, AllEntries-insert, AllEntries-erase, AllEntries-modify,
}
use networkprogramming_battl.Protocol.{PlayerStatus}
use networkprogramming_battl.Messages.{ChallengeRequest, ChallengeResponse, Event}
use networkprogramming_battl.Players.{
  PlayerManager, with_status, add_player, remove_player, update_player_status,
}
use networkprogramming_battl.Players.Roster.{IsFiled}
use networkprogramming_battl.Challenges.{ChallengeManager, respond_to_challenge, accept, answer}
use networkprogramming_battl.Challenges.Pending.{IsOrderly, operations-IsOrderly}
use networkprogramming_battl.Accounts.{Client}
use networkprogramming_battl.Store.{Store}
use networkprogramming_battl.Store.Integrity.{IsConsistent}
use networkprogramming_battl.Store.References.{execute, creates_match, execute-IsConsistent}
use networkprogramming_battl.Network.{Request}
use networkprogramming_battl.Routing.State.{
  World, Moment, handle_challenge_send, create_match_for, handle_challenge_response,
  accept_connection, route_message, remove_client, check_timeouts,
}
use networkprogramming_battl.Routing.Kept.{Keeps}
use networkprogramming_battl.Routing.Desks.{KeepsRoster}

-- A server that has been started on a database.
abbrev pub started : Store → World
started d = record {
  game = record {
    db = d;
    players = record { players = []; server_running = true };
    active_matches = [];
    ready_players = [];
  };
  pending = record { challenges = []; next_challenge_id = 1 };
  clients = [];
  total_connections = 0;
}

module _ (digest : List ℕ → List ℕ) (compute_elo : ℤ → ℤ → ℕ → ℤ) where
  -- What happens to the server: a connection comes under a free descriptor, a message of one is
  -- routed, a connection ends, and the timeouts are checked. Any number of connections take turns.
  pub data Step : World → World → Type 0 where
    accepts : (w : World) (fd : ℕ) → find fd w.clients ≡ none → Step w (accept_connection w fd)
    routes :
        (w w' : World) (fd : ℕ) (c : Client) (r : Request) (t : Moment) (events : List Event)
        → find fd w.clients ≡ some c
        → route_message digest compute_elo w c r t ≡ some (w', events)
        → Step w w'
    removes : (w : World) (fd now : ℕ) → Step w (remove_client digest compute_elo w fd now).0
    checks : (w : World) (now : ℕ) → Step w (check_timeouts digest compute_elo w now).0

  pub data Reachable (d : Store) : World → Type 0 where
    start : Reachable d (started d)
    next : {w w' : World} → Reachable d w → Step w w' → Reachable d w'

-- The database keeps its references, the players and the connections are filed under their own ids,
-- and the challenges are in order.
pub record IsSound (w : World) : Type 0 where
  pub db : IsConsistent w.game.db
  pub players : IsFiled w.game.players
  pub pending : IsOrderly w.pending
  pub clients : AllEntries (λ fd c. c.connection ≡ fd) w.clients

updated-IsFiled :
    (pm : PlayerManager) (u : ℕ) (status : PlayerStatus)
    → IsFiled pm
    → IsFiled (update_player_status pm u status).0
unfolding update_player_status
updated-IsFiled pm u status f = elim (Option-cases (find u pm.players)) [
  | inl n ↦ rw (n, update_player_status) f
  | inr (x, n) ↦
      rw (n, update_player_status)
        (AllEntries-modify (λ k d. d.user_id ≡ k) u (with_status status) pm.players (λ k d h. h) f)
]

removed-IsFiled : (pm : PlayerManager) (u : ℕ) → IsFiled pm → IsFiled (remove_player pm u).0
unfolding remove_player
removed-IsFiled pm u f = elim (Option-cases (find u pm.players)) [
  | inl n ↦ rw (n, remove_player) f
  | inr (x, n) ↦ rw (n, remove_player) (AllEntries-erase (λ k d. d.user_id ≡ k) u pm.players f)
]

added-IsFiled :
    (pm : PlayerManager) (client u : ℕ) (username display : List ℕ) (elo : ℤ)
    → IsFiled pm
    → IsFiled (add_player pm client u username display elo).0
unfolding add_player
added-IsFiled pm client u username display elo f =
    AllEntries-insert (λ k d. d.user_id ≡ k) u _ pm.players refl f

pub keeps : Keeps IsConsistent IsFiled
keeps = record { statement = execute-IsConsistent; updated = updated-IsFiled }

pub roster : KeepsRoster IsFiled
roster = record { added = added-IsFiled; removed = removed-IsFiled }

-- What respondToChallenge leaves of the roster.
answered-IsFiled :
    (m : ChallengeManager) (pm : PlayerManager) (user created : ℕ) (resp : ChallengeResponse)
    → IsFiled pm
    → IsFiled (respond_to_challenge m pm user resp created).1
unfolding respond_to_challenge answer accept
answered-IsFiled m pm user created resp f =
    elim (Option-cases (find resp.challenge_id m.challenges)) [
      | inl n ↦ rw (n, respond_to_challenge) f
      | inr (c, n) ↦ elim (Bool-cases (c.target_id == user)) [
        | inr other ↦ rw (n, respond_to_challenge, other) f
        | inl own ↦ elim (Bool-cases resp.accepted) [
          | inr no' ↦ rw (n, respond_to_challenge, own, no') f
          | inl yes' ↦ elim (Bool-cases (created == 0)) [
            | inl z ↦ rw (n, respond_to_challenge, own, yes', z) f
            | inr z ↦
                rw (n, respond_to_challenge, own, yes', z)
                  (updated-IsFiled _ _ _ (updated-IsFiled _ _ _ f))
          ]
        ]
      ]
    ]

created-IsConsistent :
    (w : World) (user : ℕ) (resp : ChallengeResponse) (now : ℕ)
    → IsConsistent w.game.db
    → IsConsistent (create_match_for w user resp now).0
unfolding create_match_for execute
created-IsConsistent w user resp now v =
    elim (Option-cases (find resp.challenge_id w.pending.challenges)) [
      | inl n ↦ rw (n, create_match_for) v
      | inr (c, n) ↦ elim (Bool-cases ((c.target_id == user) && resp.accepted)) [
        | inr b ↦ rw (n, create_match_for, b) v
        | inl b ↦
            rw (n, create_match_for, b)
              (execute-IsConsistent w.game.db now (creates_match c.challenger_id c.target_id) v)
      ]
    ]

-- A fault of loadShips leaves no state.
abbrev pub Sound : Option (World × List Event) → Type 0
Sound none = Unit
Sound (some x) = IsSound x.0

pub challenged-IsSound :
    (w : World) (c : Client) (req : ChallengeRequest) (resp : ChallengeResponse) (now : ℕ)
    → IsSound w
    → IsSound (handle_challenge_send w c req now).0
      × IsSound (handle_challenge_response w c resp now).0
unfolding handle_challenge_send handle_challenge_response
challenged-IsSound w c req resp now s =
    let made = create_match_for w c.user_id resp now in
    let orderly =
      operations-IsOrderly w.pending w.game.players c.user_id req resp made.1 0 now s.pending in
    elim (Bool-cases c.authenticated) [
      | inr n ↦ rw (n, handle_challenge_send, handle_challenge_response) (s, s)
      | inl a ↦
          rw (a, handle_challenge_send, handle_challenge_response)
            (
              record { db = s.db; players = s.players; pending = orderly.0; clients = s.clients },
              record {
                db = created-IsConsistent w c.user_id resp now s.db;
                players = answered-IsFiled w.pending w.game.players c.user_id made.1 resp s.players;
                pending = orderly.1;
                clients = s.clients;
              },
            )
    ]
