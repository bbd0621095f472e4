-- ===== src/Routing/Kept.antt =====
-- What every statement of the database and every change of the roster keeps, the handlers keep.
use networkprogramming_battl.Base.{
  ℕ, ◌==◌, if◌then◌else◌, Bool-cases, Option-cases, ℤ, inl, inr, Bool, true, false, ◌&&◌, subst,
  Option, none, some, List, [], ◌∷◌,
}
use networkprogramming_battl.Base.Map.{find, insert}
use networkprogramming_battl.Base.Text.{bytes}
use networkprogramming_battl.Protocol.{
  Coordinate, Ship, PlayerStatus, MatchEndReason, resign, timeout, draw_agreed,
}
use networkprogramming_battl.Match.{MatchState, new_match}
use networkprogramming_battl.Placements.{load_ships, ship_data, validate_ship_placement}
use networkprogramming_battl.Match.Play.{other_player}
use networkprogramming_battl.Challenges.{to_player}
use networkprogramming_battl.Messages.{
  DrawOfferMessage, DrawResponseMessage, draw_offer, draw_response, Event,
}
use networkprogramming_battl.Players.{PlayerManager, update_player_status}
use networkprogramming_battl.Gameplay.{
  Database, Server, session_of, finish, remove_match, send_match_end, move_in_turn, handle_move,
  handle_resign, handle_draw_offer, handle_draw_response, end_timed_out, end_disconnected,
  end_matches_of, add, set_of, has, ack, open_match, placed, handle_ship_placement, create_match,
}
use networkprogramming_battl.Store
use networkprogramming_battl.Store.{Store}
use networkprogramming_battl.Store.Handlers.{match_database, players_of}
use networkprogramming_battl.Store.References.{
  Statement, updates_elo_rating, validates_session, ends_match, saves_ship_placement, saves_move,
  execute,
}

-- A property of the database and one of the roster, and that each change keeps it.
pub record Keeps (P : Store → Type 0) (Q : PlayerManager → Type 0) : Type 0 where
  pub statement : (d : Store) (now : ℕ) (st : Statement) → P d → P (execute d now st)
  pub updated :
      (pm : PlayerManager) (u : ℕ) (status : PlayerStatus)
      → Q pm
      → Q (update_player_status pm u status).0

-- Both branches of a test, and of a lookup.
pub pick {ℓ κ} :
    {A : Type ℓ} (R : A → Type κ) (b : Bool) (x y : A) → R x → R y → R (if b then x else y)
pick R true x y hx hy = hx
pick R false x y hx hy = hy

pick_found {ℓ κ ι} :
    {A : Type ℓ} {B : Type κ} (R : B → Type ι) (o : Option A) (n : B) (f : A → B)
    → R n
    → ((a : A) → R (f a))
    → R (elim o [ none ↦ n | some a ↦ f a ])
pick_found R none n f hn hf = hn
pick_found R (some a) n f hn hf = hf a

pub record IsGood (P : Store → Type 0) (Q : PlayerManager → Type 0) (x : Server Store × List Event)
    : Type 0 where
  pub db : P x.0.db
  pub players : Q x.0.players

module _ {P : Store → Type 0} {Q : PlayerManager → Type 0} (keeps : Keeps P Q)
    (compute_elo : ℤ → ℤ → ℕ → ℤ) (now : ℕ) where
  abbrev pub database : Database
  database = match_database compute_elo now

  abbrev pub Good : Server Store × List Event → Type 0
  Good x = IsGood P Q x

  -- What is sent does not matter.
  resent : (x : Server Store × List Event) (events : List Event) → Good x → Good (x.0, events)
  resent x events g = record { db = g.db; players = g.players }

  finish-Good :
      (w : Server Store) (id : ℕ) (m : MatchState) (winner : ℕ) (reason : MatchEndReason)
      (text : List ℕ) (t : ℕ)
      → P w.db
      → Q w.players
      → Good (finish database w id m winner reason text t)
  unfolding finish send_match_end remove_match execute
  finish-Good w id m winner reason text t p q = record {
    db = keeps.statement _ now (ends_match id winner) (
        keeps.statement _ now (updates_elo_rating m.player2_id _)
          (keeps.statement _ now (updates_elo_rating m.player1_id _) p));
    players = keeps.updated _ _ _ (keeps.updated _ _ _ q);
  }

  move_in_turn-Good :
      (w : Server Store) (id : ℕ) (m : MatchState) (user : ℕ) (target : Coordinate) (t : ℕ)
      → P w.db
      → Q w.players
      → Good (move_in_turn database w id m user target t)
  unfolding move_in_turn execute
  move_in_turn-Good w id m user target t p q =
      let saved = keeps.statement w.db now (saves_move id user _ _ _ _) p in
      pick Good _ _ _ (resent _ _ (finish-Good _ id _ _ _ _ t saved q))
        (record { db = saved; players = q })

  -- Every handler of a game first checks the session.
  checked : (w : Server Store) (token : List ℕ) → P w.db → P (session_of database w token).0.db
  unfolding execute
  checked w token p = keeps.statement w.db now (validates_session token) p

  gated :
      (w : Server Store) (token : List ℕ) (id : ℕ) (f : MatchState → Server Store × List Event)
      → P w.db
      → Q w.players
      → ((m : MatchState) → P (session_of database w token).0.db → Good (f m))
      → let s = session_of database w token in
        Good (
          if s.1 == 0
          then (s.0, [])
          else elim (find id s.0.active_matches) [ none ↦ (s.0, []) | some m ↦ f m ])
  gated w token id f p q good =
      let s = session_of database w token in
      let p' = checked w token p in
      pick Good (s.1 == 0) (s.0, []) _ (record { db = p'; players = q })
        (pick_found Good (find id s.0.active_matches) (s.0, []) f (record { db = p'; players = q })
          (λ m. good m p'))

  pub games-Good :
      (w : Server Store) (token : List ℕ) (id : ℕ) (target : Coordinate) (offer : DrawOfferMessage)
      (response : DrawResponseMessage) (t : ℕ)
      → P w.db
      → Q w.players
      → Good (handle_move database w token id target t)
        × Good (handle_resign database w token id t)
        × Good (handle_draw_offer database w token offer)
        × Good (handle_draw_response database w token response t)
  unfolding handle_move handle_resign handle_draw_offer handle_draw_response
  games-Good w token id target offer response t p q =
      let s = session_of database w token in
      (
        gated w token id
            (λ m.
              if m.current_turn_player_id == s.1
              then move_in_turn database s.0 id m s.1 target t
              else (s.0, []))
            p q
            (λ m p'.
              pick Good (m.current_turn_player_id == s.1) _ (s.0, [])
                (move_in_turn-Good s.0 id m s.1 target t p' q) (record { db = p'; players = q })),
        gated w token id
            (λ m.
              finish database s.0 id m (other_player m s.1) resign (bytes "Opponent resigned") t)
            p q (λ m p'. finish-Good s.0 id m _ _ _ t p' q),
        gated w token offer.match_id
            (λ m. (s.0, to_player s.0.players (other_player m s.1) true (draw_offer offer))) p q
            (λ m p'. record { db = p'; players = q }),
        gated w token response.match_id
            (λ m.
              if response.accepted
              then finish database s.0 response.match_id m 0 draw_agreed
                  (bytes "Draw agreed by both players") t
              else (s.0, to_player s.0.players (other_player m s.1) true (draw_response response)))
            p q
            (λ m p'.
              pick Good response.accepted _ _ (finish-Good s.0 response.match_id m _ _ _ t p' q)
                (record { db = p'; players = q })),
      )

  pub end_timed_out-Good :
      (ids : List ℕ) (w : Server Store) (t : ℕ)
      → P w.db
      → Q w.players
      → Good (end_timed_out database w ids t)
  unfolding end_timed_out
  end_timed_out-Good [] w t p q = record { db = p; players = q }
  end_timed_out-Good (id ∷ ids) w t p q = elim (Option-cases (find id w.active_matches)) [
    | inl n ↦ rw (n, end_timed_out) (end_timed_out-Good ids w t p q)
    | inr (m, n) ↦
        let g =
          finish-Good w id m (other_player m m.current_turn_player_id) timeout
            (bytes "Turn time limit exceeded") t p q in
        rw (n, end_timed_out) (resent _ _ (end_timed_out-Good ids _ t g.db g.players))
  ]

  end_disconnected-Good :
      (w : Server Store) (id : ℕ) (m : MatchState) (user t : ℕ)
      → P w.db
      → Q w.players
      → Good (end_disconnected database w id m user t)
  unfolding end_disconnected send_match_end remove_match execute
  end_disconnected-Good w id m user t p q = record {
    db = keeps.statement _ now (updates_elo_rating m.player2_id _) (
        keeps.statement _ now (updates_elo_rating m.player1_id _)
          (keeps.statement _ now (ends_match id (other_player m user)) p));
    players = keeps.updated _ _ _ q;
  }

  pub end_matches_of-Good :
      (ids : List ℕ) (w : Server Store) (user t : ℕ)
      → P w.db
      → Q w.players
      → Good (end_matches_of database w ids user t)
  unfolding end_matches_of
  end_matches_of-Good [] w user t p q = record { db = p; players = q }
  end_matches_of-Good (id ∷ ids) w user t p q = elim (Option-cases (find id w.active_matches)) [
    | inl n ↦ rw (n, end_matches_of) (end_matches_of-Good ids w user t p q)
    | inr (m, n) ↦
        let g = end_disconnected-Good w id m user t p q in
        rw (n, end_matches_of) (resent _ _ (end_matches_of-Good ids _ user t g.db g.players))
  ]

  abbrev pub Placed : Option (Server Store × List Event) → Type 0
  Placed none = Unit
  Placed (some x) = Good x

  open_match-Placed :
      (w : Server Store) (id player1 player2 t coin : ℕ)
      → P w.db
      → Q w.players
      → Placed (open_match database w id player1 player2 t coin)
  unfolding open_match create_match
  open_match-Placed w id player1 player2 t coin p q =
      let text = Store.get_ship_placement w.db id in
      elim (Option-cases (load_ships (new_match player1 player2).player1_board (text player1))) [
        | inl n ↦ rw (n, open_match) tt
        | inr (b1, n) ↦
            elim (Option-cases
              (load_ships (new_match player1 player2).player2_board (text player2))) [
                | inl k ↦ rw (n, open_match, k) tt
                | inr (b2, k) ↦ rw (n, open_match, k) (record { db = p; players = q })
              ]
      ]

  placed-Placed :
      (w : Server Store) (user id fd t coin : ℕ)
      → P w.db
      → Q w.players
      → Placed (placed database w user id fd t coin)
  unfolding placed
  placed-Placed w user id fd t coin p q =
      let ready = add user (set_of (find id w.ready_players)) in
      let w' : Server Store = record w { ready_players = insert id ready w.ready_players } in
      elim (Option-cases (players_of (Store.get_match_by_id w.db id))) [
        | inl n ↦ rw (n, placed) (record { db = p; players = q })
        | inr ((p1, p2), n) ↦ elim (Bool-cases (has p1 ready && has p2 ready)) [
          | inr b ↦ rw (n, placed, b) (record { db = p; players = q })
          | inl b ↦
              let g = open_match-Placed w' id p1 p2 t coin p q in
              elim (Option-cases (open_match database w' id p1 p2 t coin)) [
                | inl k ↦ rw (n, placed, b, k) tt
                | inr (x, k) ↦ rw (n, placed, b, k) (resent x _ (subst Placed k g))
              ]
        ]
      ]

  pub handle_ship_placement-Placed :
      (w : Server Store) (token : List ℕ) (id : ℕ) (ships : List Ship) (fd t coin : ℕ)
      → P w.db
      → Q w.players
      → Placed (handle_ship_placement database w token id ships fd t coin)
  unfolding handle_ship_placement execute
  handle_ship_placement-Placed w token id ships fd t coin p q =
      let v = (session_of database w token).0 in
      let user = (session_of database w token).1 in
      let p' = checked w token p in
      let saved = Store.save_ship_placement v.db id user (ship_data ships) in
      let p'' = keeps.statement v.db now (saves_ship_placement id user (ship_data ships)) p' in
      pick Placed (user == 0) (some (v, [])) _ (record { db = p'; players = q })
        (pick Placed (validate_ship_placement ships) _
          (some (v, ack fd id false (bytes "Invalid ship placement") ∷ []))
          (pick Placed saved.1 (placed database (record v { db = saved.0 }) user id fd t coin)
            (some
              (record v { db = saved.0 }, ack fd id false (bytes "Failed to save board data") ∷ []))
            (placed-Placed (record v { db = saved.0 }) user id fd t coin p'' q)
            (record { db = p''; players = q }))
          (record { db = p'; players = q }))
