-- ===== src/Routing/Connections.antt =====
-- What the end of a connection leaves, and the list of players on its way to the client.
use networkprogramming_battl.Base.{
  ℕ, ◌==◌, eq→≡, leb, if◌then◌else◌, Bool-cases, Option-cases, ℤ, inl, inr, true, ◌≡◌, ◌≢◌, refl,
  sym, ap, ◌∙◌, subst, none, some, List, [], ◌∷◌, length, take, length-take, arith,
}
use networkprogramming_battl.Base.Map.{
  find, find-erase, find-modify_self, find-modify_other, AllEntries,
}
use networkprogramming_battl.Protocol.{PlayerStatus, offline}
use networkprogramming_battl.Messages.{PlayerInfoMessage, player_list, send}
use networkprogramming_battl.Players.{
  PlayerManager, with_status, get_player_status, is_player_online, get_online_players,
  remove_player, update_player_status,
}
use networkprogramming_battl.Players.Roster.{remove_player_statuses}
use networkprogramming_battl.Accounts.{Client}
use networkprogramming_battl.Gameplay.{handle_player_disconnect, matches_of}
use networkprogramming_battl.Gameplay.Endings.{handle_player_disconnect_out}
use networkprogramming_battl.Store.Handlers.{match_database}
use networkprogramming_battl.Network.{
  Network, told_players, copy_players, receive, handle_player_list_response,
}
use networkprogramming_battl.Network
use networkprogramming_battl.Routing.State.{World, handle_player_list_request, remove_client}
use networkprogramming_battl.Routing.Kept.{Keeps, end_matches_of-Good}

module _ (digest : List ℕ → List ℕ) (compute_elo : ℤ → ℤ → ℕ → ℤ) (w : World) (fd now : ℕ)
    (c : Client) where
  -- After the end of a connection whose client is authenticated, the server does not know the
  -- connection, the client's user is offline, and no match has that user.
  pub remove_client_lem :
      find fd w.clients ≡ some c
      → c.authenticated ≡ true
      → let w' = (remove_client digest compute_elo w fd now).0 in
        (find fd w'.clients ≡ none)
        × (get_player_status w'.game.players c.user_id ≡ offline)
        × AllEntries
            (λ id m. (m.player1_id ≢ c.user_id) × (m.player2_id ≢ c.user_id))
            w'.game.active_matches
  unfolding remove_client
  remove_client_lem n a =
      let ended =
        (handle_player_disconnect (match_database compute_elo now) w.game c.user_id now).0 in
      let out =
        handle_player_disconnect_out (match_database compute_elo now) w.game c.user_id now in
      let gone = (remove_player_statuses ended.players c.user_id 0).0 in
      rw (n, remove_client, a) (ground (arith, find-erase fd fd w.clients), gone, out)

updated_online :
    (u : ℕ) (pm : PlayerManager) (v : ℕ) (status : PlayerStatus)
    → is_player_online pm u ≡ true
    → is_player_online (update_player_status pm v status).0 u ≡ true
unfolding is_player_online update_player_status
updated_online u pm v status e = elim (Option-cases (find v pm.players)) [
  | inl n ↦ rw (n, update_player_status) e
  | inr (d, n) ↦ elim (Bool-cases (v == u)) [
    | inr other ↦
        rw
          (
            n,
            update_player_status,
            is_player_online,
            find-modify_other v u (with_status status) pm.players other,
          )
          e
    | inl same ↦
        subst (λ k. is_player_online (update_player_status pm v status).0 k ≡ true) (eq→≡ v u same)
          (rw
            (
              n,
              update_player_status,
              is_player_online,
              find-modify_self v (with_status status) pm.players d n,
            )
            refl)
  ]
]

removed_online :
    (u v : ℕ) (pm : PlayerManager)
    → v ≢ u
    → is_player_online pm u ≡ true
    → is_player_online (remove_player pm v).0 u ≡ true
unfolding is_player_online remove_player
removed_online u v pm other e = ground (arith, other, e, find-erase v u pm.players)

online_keeps : (u : ℕ) → Keeps (λ d. Unit) (λ pm. is_player_online pm u ≡ true)
online_keeps u = record { statement = λ d now st p. tt; updated = updated_online u }

copy_players_whole : (xs : List PlayerInfoMessage) → copy_players (length xs) xs ≡ xs
unfolding copy_players
copy_players_whole [] = refl
copy_players_whole (x ∷ xs) = ap (λ l. x ∷ l) (copy_players_whole xs)

module _ (digest : List ℕ → List ℕ) (compute_elo : ℤ → ℤ → ℕ → ℤ) (w : World) (fd now : ℕ)
    (c : Client) where
  -- A connection forgets the user of an earlier login: at its end, every other user who is online
  -- stays so, also one who had logged in on this connection before.
  pub earlier_login_stays :
      (u : ℕ)
      → find fd w.clients ≡ some c
      → c.user_id ≢ u
      → is_player_online w.game.players u ≡ true
      → is_player_online (remove_client digest compute_elo w fd now).0.game.players u ≡ true
  unfolding remove_client handle_player_disconnect is_player_online remove_player
  earlier_login_stays u n other e =
      let g =
        end_matches_of-Good (online_keeps u) compute_elo now
          (matches_of w.game.active_matches c.user_id) w.game c.user_id now tt e in
      elim (Bool-cases c.authenticated) [
        | inr a ↦ rw (n, remove_client, a) e
        | inl a ↦ rw (n, remove_client, a) (removed_online u c.user_id _ other g.players)
      ]

-- Whoever is online, and however many: the server's answer to a client's request for the list of
-- players is read whole by the client that waits for it, which is told the first 100 players.
pub list_request_received :
    (pm : PlayerManager) (c : Client) (n : Network)
    → n.pending_request ≡ Network.player_list
    → let online = get_online_players pm in
      let count = if leb (length online) 100 then length online else 100 in
      (handle_player_list_request pm c
        ≡ send c.connection true
            (player_list (record { count = count; players = take count online }))
          ∷ [])
      × (receive n (player_list (record { count = count; players = take count online }))
          ≡ some (
            record n { pending_request = Network.no_request },
            told_players true (take count online) ∷ [],
          ))
unfolding receive handle_player_list_response handle_player_list_request
list_request_received pm c n p =
    let online = get_online_players pm in
    let count = if leb (length online) 100 then length online else 100 in
    let fits : leb count 100 ≡ true = ground arith in
    let exact : length (take count online) ≡ count = length-take count online (ground arith) in
    let whole : copy_players count (take count online) ≡ take count online =
      ap (λ k. copy_players k (take count online)) (sym exact)
      ∙ copy_players_whole (take count online) in
    (refl, rw (p, fits, whole) refl)
