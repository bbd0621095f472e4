-- ===== src/Routing/Invariant.antt =====
-- Every state that the server reaches is in order: the steps, one by one.
use networkprogramming_battl.Base.{
  ℕ, Bool-cases, Option-cases, ℤ, inl, inr, pos, false, ◌≡◌, refl, subst, Option, none, some, List,
  [],
}
use networkprogramming_battl.Base.Map.{find, AllEntries-insert, AllEntries-erase}
use networkprogramming_battl.Protocol.{Coordinate}
use networkprogramming_battl.Messages.{
  ChallengeRequest, ChallengeResponse, DrawOfferMessage, DrawResponseMessage, Event,
}
use networkprogramming_battl.Accounts.{Client, Desk}
use networkprogramming_battl.Gameplay.{
  Server, check_turn_timeouts, timed_out, handle_player_disconnect, matches_of,
}
use networkprogramming_battl.Store.{Store}
use networkprogramming_battl.Store.Integrity.{IsConsistent}
use networkprogramming_battl.Players.Roster.{IsFiled}
use networkprogramming_battl.Network.{
  asks_register, asks_login, asks_logout, asks_validation, asks_players, challenges,
  answers_challenge, places_ships, moves, resigns, offers_draw, answers_draw, Request,
}
use networkprogramming_battl.Routing.State.{
  World, Moment, desk_of, after_desk, after_game, after_placement, accept_connection, route_message,
  remove_client, check_timeouts,
}
use networkprogramming_battl.Routing.Kept.{
  IsGood, games-Good, end_timed_out-Good, end_matches_of-Good, Placed, handle_ship_placement-Placed,
}
use networkprogramming_battl.Routing.Desks.{
  IsGoodDesk, handle_register-Good, handle_login-Good, handle_logout-Good,
  handle_validate_session-Good,
}
use networkprogramming_battl.Routing.Steps.{
  Step, accepts, routes, removes, checks, Reachable, start, next, IsSound, Sound, keeps, roster,
  challenged-IsSound,
}

desk-IsSound :
    (w : World) (fd : ℕ) (x : Desk Store)
    → IsSound w
    → IsGoodDesk IsConsistent IsFiled fd x
    → IsSound (after_desk w (x, [])).0
desk-IsSound w fd x s g = record {
  db = g.db;
  players = g.players;
  pending = s.pending;
  clients =
      AllEntries-insert (λ k c. c.connection ≡ k) x.client.connection x.client w.clients refl
        s.clients;
}

game-IsSound :
    (w : World) (x : Server Store × List Event)
    → IsSound w
    → IsGood IsConsistent IsFiled x
    → IsSound (after_game w x).0
game-IsSound w x s g = record {
  db = g.db;
  players = g.players;
  pending = s.pending;
  clients = s.clients;
}

placement-Sound :
    (compute_elo : ℤ → ℤ → ℕ → ℤ) (now : ℕ) (w : World) (o : Option (Server Store × List Event))
    → IsSound w
    → Placed keeps compute_elo now o
    → Sound (after_placement w o)
placement-Sound compute_elo now w none s g = tt
placement-Sound compute_elo now w (some x) s g = game-IsSound w x s g

module _ (digest : List ℕ → List ℕ) (compute_elo : ℤ → ℤ → ℕ → ℤ) where
  route_message-Sound :
      (w : World) (c : Client) (r : Request) (t : Moment)
      → IsSound w
      → Sound (route_message digest compute_elo w c r t)
  unfolding route_message
  route_message-Sound w c r t s =
      let g : IsGoodDesk IsConsistent IsFiled c.connection (desk_of w c) = record {
        db = s.db;
        players = s.players;
        connection = refl;
      } in
      let desk = desk-IsSound w c.connection in
      let no_target : Coordinate = record { row = pos 0; col = pos 0 } in
      let no_request : ChallengeRequest = record {
        target_user_id = 0;
        time_limit = 0;
        random_placement = false;
      } in
      let no_answer : ChallengeResponse = record { challenge_id = 0; accepted = false } in
      let no_offer : DrawOfferMessage = record { match_id = 0 } in
      let no_reply : DrawResponseMessage = record { match_id = 0; accepted = false } in
      let games = games-Good keeps compute_elo t.now w.game r.token in
      elim r.query
        as (λ q. Sound (route_message digest compute_elo w c (record r { query = q }) t)) [
          | asks_register req ↦
              desk _ s (
                handle_register-Good keeps roster digest t.now c.connection _ req t.random t.rand g)
          | asks_login req ↦
              desk _ s (handle_login-Good keeps roster digest t.now c.connection _ req t.draws g)
          | asks_logout token ↦
              desk _ s (handle_logout-Good keeps roster digest t.now c.connection _ token g)
          | asks_validation token ↦
              desk _ s
                (handle_validate_session-Good keeps roster digest t.now c.connection _ token g)
          | asks_players ↦ s
          | challenges req ↦ (challenged-IsSound w c req no_answer t.now s).0
          | answers_challenge resp ↦ (challenged-IsSound w c no_request resp t.now s).1
          | places_ships id ships ↦ placement-Sound compute_elo t.now w _ s (
              handle_ship_placement-Placed keeps compute_elo t.now w.game r.token id ships
                c.connection t.now (t.rand 0) s.db s.players)
          | moves id target ↦
              game-IsSound w _ s (games id target no_offer no_reply t.now s.db s.players).0
          | resigns id ↦
              game-IsSound w _ s (games id no_target no_offer no_reply t.now s.db s.players).1
          | offers_draw msg ↦
              game-IsSound w _ s (games 0 no_target msg no_reply t.now s.db s.players).2
          | answers_draw msg ↦
              game-IsSound w _ s (games 0 no_target no_offer msg t.now s.db s.players).3
        ]

  remove_client-IsSound :
      (w : World) (fd now : ℕ) → IsSound w → IsSound (remove_client digest compute_elo w fd now).0
  unfolding remove_client handle_player_disconnect
  remove_client-IsSound w fd now s = elim (Option-cases (find fd w.clients)) [
    | inl n ↦ rw (n, remove_client) s
    | inr (c, n) ↦
        let left = AllEntries-erase (λ k x. x.connection ≡ k) fd w.clients s.clients in
        let g =
          end_matches_of-Good keeps compute_elo now (matches_of w.game.active_matches c.user_id)
            w.game c.user_id now s.db s.players in
        elim (Bool-cases c.authenticated) [
          | inr a ↦
              rw (n, remove_client, a)
                (record { db = s.db; players = s.players; pending = s.pending; clients = left })
          | inl a ↦
              rw (n, remove_client, a)
                (record {
                  db = g.db;
                  players = roster.removed _ c.user_id g.players;
                  pending = s.pending;
                  clients = left;
                })
        ]
  ]

  Step-IsSound : {w w' : World} → Step digest compute_elo w w' → IsSound w → IsSound w'
  unfolding accept_connection check_timeouts check_turn_timeouts
  Step-IsSound (accepts w fd free) s = record {
    db = s.db;
    players = s.players;
    pending = s.pending;
    clients = AllEntries-insert (λ k c. c.connection ≡ k) fd _ w.clients refl s.clients;
  }
  Step-IsSound (routes w w' fd c r t events there e) s =
      subst Sound e (route_message-Sound w c r t s)
  Step-IsSound (removes w fd now) s = remove_client-IsSound w fd now s
  Step-IsSound (checks w now) s = game-IsSound w _ s (
      end_timed_out-Good keeps compute_elo now (timed_out w.game.active_matches now) w.game now s.db
        s.players)

  -- Started on a consistent database, the server is in order in every state that it reaches: the
  -- database is consistent, players and connections are filed under their own ids, and every pending
  -- challenge is between two different players, is filed under its own id, and has a field
  -- expires_at that is its field created_at and 60 seconds.
  pub Reachable-IsSound :
      (d : Store) (w : World) → IsConsistent d → Reachable digest compute_elo d w → IsSound w
  Reachable-IsSound d _ v start = record { db = v; players = tt; pending = tt; clients = tt }
  Reachable-IsSound d _ v (next r step) = Step-IsSound step (Reachable-IsSound d _ v r)
