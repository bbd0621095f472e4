-- ===== src/Routing/State.antt =====
-- The state of Server and of its handlers, and what it does (server/src/server.cpp).
use networkprogramming_battl.Base.{
  ℕ, ◌+◌, leb, ◌==◌, if◌then◌else◌, ℤ, false, not, ◌&&◌, Option, none, some, List, [], ◌∷◌, ◌++◌,
  length, take,
}
use networkprogramming_battl.Base.Map.{Map, find, insert, erase}
use networkprogramming_battl.Messages.{ChallengeRequest, ChallengeResponse, player_list, Event}
use networkprogramming_battl.Players.{PlayerManager, get_online_players, remove_player}
use networkprogramming_battl.Challenges.{ChallengeManager, send_challenge, respond_to_challenge}
use networkprogramming_battl.Gameplay.{
  Server, handle_ship_placement, handle_move, handle_resign, handle_draw_offer,
  handle_draw_response, check_turn_timeouts, handle_player_disconnect,
}
use networkprogramming_battl.Accounts.{
  Client, Desk, reply, handle_register, handle_login, handle_logout, handle_validate_session,
}
use networkprogramming_battl.Store.{Store, create_match}
use networkprogramming_battl.Store.Handlers.{user_database, match_database}
use networkprogramming_battl.Network.{
  asks_register, asks_login, asks_logout, asks_validation, asks_players, challenges,
  answers_challenge, places_ships, moves, resigns, offers_draw, answers_draw, Request,
}

pub record World : Type 0 where
  pub game : Server Store
  pub pending : ChallengeManager
  pub clients : Map Client
  pub total_connections : ℕ

-- The time, and what the sources of random numbers would give.
pub record Moment : Type 0 where
  pub now : ℕ
  pub random : Option (ℕ → ℕ)
  pub rand : ℕ → ℕ
  pub draws : ℕ → ℕ

-- PlayerHandler::handlePlayerListRequest
unfoldable pub handle_player_list_request : PlayerManager → Client → List Event
handle_player_list_request pm c =
    let online = get_online_players pm in
    let count = if leb (length online) 100 then length online else 100 in
    reply c (player_list (record { count = count; players = take count online })) ∷ []

-- ChallengeHandler::handleChallengeSend
unfoldable pub handle_challenge_send : World → Client → ChallengeRequest → ℕ → World × List Event
handle_challenge_send w c req now =
    let x = send_challenge w.pending w.game.players c.user_id req now in
    if not c.authenticated then (w, []) else (record w { pending = x.0 }, x.1)

-- ChallengeManager::createMatch, which respondToChallenge calls for an accepted challenge only
unfoldable pub create_match_for : World → ℕ → ChallengeResponse → ℕ → Store × ℕ
create_match_for w user resp now = elim (find resp.challenge_id w.pending.challenges) [
  | none ↦ (w.game.db, 0)
  | some c ↦
      if (c.target_id == user) && resp.accepted
      then create_match w.game.db now c.challenger_id c.target_id
      else (w.game.db, 0)
]

-- ChallengeHandler::handleChallengeResponse
unfoldable pub handle_challenge_response :
    World → Client → ChallengeResponse → ℕ → World × List Event
unfolding create_match_for
handle_challenge_response w c resp now =
    let made = create_match_for w c.user_id resp now in
    let x = respond_to_challenge w.pending w.game.players c.user_id resp made.1 in
    if not c.authenticated
    then (w, [])
    else (record w { pending = x.0; game = record w.game { db = made.0; players = x.1 } }, x.2)

-- A handler of accounts works at the desk of the client, and a handler of games on the games.
abbrev pub desk_of : World → Client → Desk Store
desk_of w c = record { db = w.game.db; players = w.game.players; client = c }

abbrev pub after_desk : World → Desk Store × List Event → World × List Event
after_desk w x = (
  record w {
    game = record w.game { db = x.0.db; players = x.0.players };
    clients = insert x.0.client.connection x.0.client w.clients;
  },
  x.1,
)

abbrev pub after_game : World → Server Store × List Event → World × List Event
after_game w x = (record w { game = x.0 }, x.1)

abbrev pub after_placement :
    World → Option (Server Store × List Event) → Option (World × List Event)
after_placement w none = none
after_placement w (some x) = some (after_game w x)

-- acceptConnections, for one connection
unfoldable pub accept_connection : World → ℕ → World
accept_connection w fd = record w {
  total_connections = w.total_connections + 1;
  clients =
      insert fd (record { connection = fd; authenticated = false; user_id = 0; session_token = [] })
        w.clients;
}

module _ (digest : List ℕ → List ℕ) (compute_elo : ℤ → ℤ → ℕ → ℤ) where
  -- routeMessage; `none` is a fault of loadShips
  unfoldable pub route_message : World → Client → Request → Moment → Option (World × List Event)
  unfolding handle_player_list_request handle_challenge_send handle_challenge_response
  route_message w c r t =
      let users = user_database t.now in
      let matches = match_database compute_elo t.now in
      elim r.query [
        | asks_register req ↦
            some (after_desk w (handle_register users digest (desk_of w c) req t.random t.rand))
        | asks_login req ↦ some (after_desk w (handle_login users digest (desk_of w c) req t.draws))
        | asks_logout token ↦ some (after_desk w (handle_logout users digest (desk_of w c) token))
        | asks_validation token ↦
            some (after_desk w (handle_validate_session users digest (desk_of w c) token))
        | asks_players ↦ some (w, handle_player_list_request w.game.players c)
        | challenges req ↦ some (handle_challenge_send w c req t.now)
        | answers_challenge resp ↦ some (handle_challenge_response w c resp t.now)
        | places_ships id ships ↦
            after_placement w
              (handle_ship_placement matches w.game r.token id ships c.connection t.now (t.rand 0))
        | moves id target ↦ some (after_game w (handle_move matches w.game r.token id target t.now))
        | resigns id ↦ some (after_game w (handle_resign matches w.game r.token id t.now))
        | offers_draw msg ↦ some (after_game w (handle_draw_offer matches w.game r.token msg))
        | answers_draw msg ↦
            some (after_game w (handle_draw_response matches w.game r.token msg t.now))
      ]

  -- removeClient
  unfoldable pub remove_client : World → ℕ → ℕ → World × List Event
  remove_client w fd now = elim (find fd w.clients) [
    | none ↦ (w, [])
    | some c ↦
        let w' : World = record w { clients = erase fd w.clients } in
        let ended =
          handle_player_disconnect (match_database compute_elo now) w.game c.user_id now in
        let gone = remove_player ended.0.players c.user_id in
        if c.authenticated
        then (record w' { game = record ended.0 { players = gone.0 } }, ended.1 ++ gone.1)
        else (w', [])
  ]

  -- one round of timeoutCheckerThread
  unfoldable pub check_timeouts : World → ℕ → World × List Event
  check_timeouts w now =
      after_game w (check_turn_timeouts (match_database compute_elo now) w.game now)
