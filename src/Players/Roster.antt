-- ===== src/Players/Roster.antt =====
-- What the player manager reports, and that what it broadcasts is what it reports.
use networkprogramming_battl.Base.{
  ℕ, ◌==◌, if◌then◌else◌, eq→≡, ≢→eq, ℤ, true, ◌≡◌, ◌≢◌, inl, inr, refl, some, List, [], ◌∷◌,
  Option-cases, Bool-cases, arith,
}
use networkprogramming_battl.Base.Map.{
  Map, find, find-insert, find-erase, find-modify_self, find-modify_other, AllEntries,
  AllEntries-find,
}
use networkprogramming_battl.Protocol.{PlayerStatus, offline, available}
use networkprogramming_battl.Messages.{PlayerInfoMessage, Event, broadcast}
use networkprogramming_battl.Players.{
  PlayerData, PlayerManager, is_available, get_player_status, get_client_connection,
  get_online_players, get_available_players, online_infos, available_infos,
  broadcast_player_status_update, add_player, remove_player, update_player_status, with_status,
}

-- One broadcast, of this status under this id.
abbrev pub Says : List Event → ℕ → PlayerStatus → Type 0
Says (broadcast x ∷ []) u status = (x.user_id ≡ u) × (x.status ≡ status)
Says _ u status = ⊥

-- A change of the roster: what is reported then, and what a running server broadcast.
abbrev pub Announces : PlayerManager × List Event → ℕ → PlayerStatus → Type 0
Announces (pm, events) u status =
    (get_player_status pm u ≡ status) × (pm.server_running ≡ true → Says events u status)

-- Each entry is filed under its own id.
abbrev pub IsFiled : PlayerManager → Type 0
IsFiled pm = AllEntries (λ k d. d.user_id ≡ k) pm.players

module _ (pm : PlayerManager) (u : ℕ) where
  pub add_player-Announces :
      (client : ℕ) (username display_name : List ℕ) (elo : ℤ)
      → Announces (add_player pm client u username display_name elo) u available
  unfolding get_player_status add_player broadcast_player_status_update
  add_player-Announces client username display_name elo =
      let d : PlayerData = record {
        user_id = u;
        username = username;
        display_name = display_name;
        elo_rating = elo;
        status = available;
        client = client;
      } in
      ground (arith, find-insert u u d pm.players)

  pub remove_player-Announces :
      (d : PlayerData) → find u pm.players ≡ some d → Announces (remove_player pm u) u offline
  unfolding get_player_status remove_player broadcast_player_status_update
  remove_player-Announces d e = ground (arith, e, find-erase u u pm.players)

  -- A removed player is offline, and no other status changes.
  pub remove_player_statuses :
      (w : ℕ)
      → let pm' = (remove_player pm u).0 in
        (get_player_status pm' u ≡ offline)
        × (u ≢ w → get_player_status pm' w ≡ get_player_status pm w)
  unfolding get_player_status remove_player
  remove_player_statuses w =
      (ground (arith, find-erase u u pm.players), λ d. ground (arith, d, find-erase u w pm.players))

  pub update_player_status-Announces :
      (status : PlayerStatus) (d : PlayerData)
      → IsFiled pm
      → find u pm.players ≡ some d
      → Announces (update_player_status pm u status) u status
  unfolding get_player_status update_player_status broadcast_player_status_update
  update_player_status-Announces status d f e = ground (
    arith,
    e,
    find-modify_self u (with_status status) pm.players d e,
    AllEntries-find (λ k x. x.user_id ≡ k) u pm.players f e,
  )

-- Where every player is filed under the own id: after a login, a removal and a status change of a
-- player who is there, the manager reports the new status, and a running server broadcasts exactly
-- that status under the player's id.
pub announces :
    (pm : PlayerManager) (u : ℕ) (d : PlayerData) (client : ℕ) (username display_name : List ℕ)
    (elo : ℤ) (status : PlayerStatus)
    → IsFiled pm
    → find u pm.players ≡ some d
    → Announces (add_player pm client u username display_name elo) u available
      × Announces (remove_player pm u) u offline
      × Announces (update_player_status pm u status) u status
announces pm u d client username display_name elo status f e = (
  add_player-Announces pm u client username display_name elo,
  remove_player-Announces pm u d e,
  update_player_status-Announces pm u status d f e,
)

-- The infos of a list that are available.
abbrev pub pick_available : List PlayerInfoMessage → List PlayerInfoMessage
pick_available [] = []
pick_available (x ∷ xs) = if is_available x.status then x ∷ pick_available xs else pick_available xs

available_infos-pick : (m : Map PlayerData) → available_infos m ≡ pick_available (online_infos m)
available_infos-pick [] = refl
available_infos-pick ((k, d) ∷ m) = ground (arith, available_infos-pick m)

-- The players who can be challenged are the online players with the status `available`, in the same
-- order.
pub get_available_players_lem :
    (pm : PlayerManager) → get_available_players pm ≡ pick_available (get_online_players pm)
unfolding get_available_players get_online_players
get_available_players_lem pm = available_infos-pick pm.players

-- A status change leaves every other player's status and connection as they were.
pub update_player_status_frame :
    (pm : PlayerManager) (u w : ℕ) (status : PlayerStatus)
    → u ≢ w
    → let pm' = (update_player_status pm u status).0 in
      (get_player_status pm' w ≡ get_player_status pm w)
      × (get_client_connection pm' w ≡ get_client_connection pm w)
unfolding get_player_status get_client_connection update_player_status
update_player_status_frame pm u w status h =
    ground (arith, find-modify_other u w (with_status status) pm.players (≢→eq u w h))

-- A status change moves no connection.
pub get_client_connection-update :
    (pm : PlayerManager) (u w : ℕ) (status : PlayerStatus)
    → get_client_connection (update_player_status pm u status).0 w ≡ get_client_connection pm w
unfolding get_client_connection update_player_status
get_client_connection-update pm u w status = elim (Bool-cases (u == w)) [
  | inr other ↦ ground (arith, find-modify_other u w (with_status status) pm.players other)
  | inl same ↦ elim (Option-cases (find w pm.players)) [
    | inl e ↦ ground (arith, eq→≡ u w same, e)
    | inr (d, e) ↦
        ground (arith, eq→≡ u w same, e, find-modify_self w (with_status status) pm.players d e)
  ]
]
