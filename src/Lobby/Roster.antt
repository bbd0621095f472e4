-- ===== src/Lobby/Roster.antt =====
-- The list of the lobby against the players of the server (client/src/ui_lobby.cpp).
use networkprogramming_battl.Base.{
  ℕ, ◌≤◌, leb, length, take_all, ◌==◌, eq→≡, ≢→eq, ℤ, true, ◌≡◌, ◌≢◌, refl, subst, sym, inl, inr,
  ◌∙◌, none, some, List, [], ◌∷◌, map, Bool-cases, Option-cases, arith,
}
use networkprogramming_battl.Base.Map.{
  Map, find, find-insert, AllEntries, AllEntries-insert, AllEntries-erase, AllEntries-modify,
}
use networkprogramming_battl.Protocol.{PlayerStatus, offline, available}
use networkprogramming_battl.Messages.{PlayerInfoMessage, player_list, Event, broadcast, send}
use networkprogramming_battl.Players.{
  PlayerData, PlayerManager, get_player_status, online_infos, get_online_players, add_player,
  remove_player, update_player_status, with_status,
}
use networkprogramming_battl.Players.Roster.{
  IsFiled, Says, add_player-Announces, remove_player-Announces, update_player_status-Announces,
  update_player_status_frame, remove_player_statuses,
}
use networkprogramming_battl.Accounts.{Client}
use networkprogramming_battl.Routing.{handle_player_list_request}
use networkprogramming_battl.Lobby.{Row, Lobby, listed_row, on_player_list, update_rows}
use networkprogramming_battl.Lobby.Rows.{
  row_status, IsDistinct, update_rows-IsDistinct, row_status-update_rows,
}

-- The calls that change the roster of the server.
pub data Call : Type 0 where
  logs_in : ℕ → ℕ → List ℕ → List ℕ → ℤ → Call
  leaves : ℕ → Call
  changes : ℕ → PlayerStatus → Call

abbrev pub call : PlayerManager → Call → PlayerManager × List Event
call pm (logs_in client u username display_name elo) =
    add_player pm client u username display_name elo
call pm (leaves u) = remove_player pm u
call pm (changes u status) = update_player_status pm u status

-- the list of a client whose screen stays the lobby, after what the server sent
abbrev pub tell : List Event → List Row → List Row
tell [] rs = rs
tell (broadcast x ∷ es) rs = tell es (update_rows x rs)
tell (send _ _ _ ∷ es) rs = tell es rs

abbrev pub follow : PlayerManager → List Row → List Call → PlayerManager × List Row
follow pm rs [] = (pm, rs)
follow pm rs (c ∷ cs) = follow (call pm c).0 (tell (call pm c).1 rs) cs

-- The list shows each player at most once, and with the status that the server reports.
abbrev pub Follows : List Row → PlayerManager → Type 0
Follows rs pm = IsDistinct rs × ((w : ℕ) → row_status w rs ≡ get_player_status pm w)

-- What one broadcast does to the list, where it says the one status that changes.
tell-Follows :
    (pm pm' : PlayerManager) (u : ℕ) (status : PlayerStatus) (rs : List Row) (es : List Event)
    → Says es u status
    → get_player_status pm' u ≡ status
    → ((w : ℕ) → u ≢ w → get_player_status pm' w ≡ get_player_status pm w)
    → Follows rs pm
    → Follows (tell es rs) pm'
tell-Follows pm pm' u status rs (broadcast x ∷ []) says own others (d, shown) =
    (update_rows-IsDistinct x rs d, told)
  where
    told : (w : ℕ) → row_status w (update_rows x rs) ≡ get_player_status pm' w
    told w = elim (Bool-cases (x.user_id == w)) [
      | inl same ↦
          let u≡w = sym says.0 ∙ eq→≡ x.user_id w same in
          ground (
            arith,
            row_status-update_rows x w rs d,
            same,
            says.1,
            subst (λ v. get_player_status pm' v ≡ status) u≡w own,
          )
      | inr other ↦
          let u≢w : u ≢ w = λ e. ground (arith, other, says.0, e) in
          ground (arith, row_status-update_rows x w rs d, other, shown w, others w u≢w)
    ]
tell-Follows pm pm' u status rs [] says own others h = absurd says
tell-Follows pm pm' u status rs (broadcast x ∷ e ∷ es) says own others h = absurd says
tell-Follows pm pm' u status rs (send _ _ _ ∷ es) says own others h = absurd says

-- Each entry is filed under its own id, and the server runs.
abbrev IsReady : PlayerManager → Type 0
IsReady pm = IsFiled pm × (pm.server_running ≡ true)

-- What a call leaves: the list follows, on a manager that is ready for the next call.
abbrev Keeps : List Row → PlayerManager × List Event → Type 0
Keeps rs (pm, es) = Follows (tell es rs) pm × IsReady pm

module _ (pm : PlayerManager) (ready : IsReady pm) where
  add_player-IsReady :
      (client u : ℕ) (username display_name : List ℕ) (elo : ℤ)
      → IsReady (add_player pm client u username display_name elo).0
  unfolding add_player
  add_player-IsReady client u username display_name elo =
      (AllEntries-insert (λ k d. d.user_id ≡ k) u _ pm.players refl ready.0, ready.1)

  remove_player-IsReady : (u : ℕ) → IsReady (remove_player pm u).0
  unfolding remove_player
  remove_player-IsReady u = elim (Option-cases (find u pm.players)) [
    | inl e ↦ rw (remove_player, e) ready
    | inr (d, e) ↦
        rw (remove_player, e)
          (AllEntries-erase (λ k d. d.user_id ≡ k) u pm.players ready.0, ready.1)
  ]

  update_player_status-IsReady :
      (u : ℕ) (status : PlayerStatus) → IsReady (update_player_status pm u status).0
  unfolding update_player_status
  update_player_status-IsReady u status = elim (Option-cases (find u pm.players)) [
    | inl e ↦ rw (update_player_status, e) ready
    | inr (d, e) ↦
        rw (update_player_status, e)
          (
            AllEntries-modify (λ k d. d.user_id ≡ k) u (with_status status) pm.players (λ j v h. h)
                ready.0,
            ready.1,
          )
  ]

  add_player_statuses :
      (client u : ℕ) (username display_name : List ℕ) (elo : ℤ) (w : ℕ)
      → u ≢ w
      → get_player_status (add_player pm client u username display_name elo).0 w
        ≡ get_player_status pm w
  unfolding add_player get_player_status
  add_player_statuses client u username display_name elo w h =
      let d : PlayerData = record {
        user_id = u;
        username = username;
        display_name = display_name;
        elo_rating = elo;
        status = available;
        client = client;
      } in
      ground (arith, find-insert u w d pm.players, ≢→eq u w h)

-- Without an entry these calls do nothing.
absent_player :
    (pm : PlayerManager) (u : ℕ) (status : PlayerStatus)
    → find u pm.players ≡ none
    → (remove_player pm u ≡ (pm, [])) × (update_player_status pm u status ≡ (pm, []))
unfolding remove_player update_player_status
absent_player pm u status e = (rw (remove_player, e) refl, rw (update_player_status, e) refl)

module _ (pm : PlayerManager) (ready : IsReady pm) (rs : List Row) (h : Follows rs pm) where
  call-Keeps : (c : Call) → Keeps rs (call pm c)
  call-Keeps (logs_in client u username display_name elo) =
      let r = add_player pm client u username display_name elo in
      let a = add_player-Announces pm u client username display_name elo in
      let ready' = add_player-IsReady pm ready client u username display_name elo in
      let others = add_player_statuses pm ready client u username display_name elo in
      (tell-Follows pm r.0 u available rs r.1 (a.1 ready'.1) a.0 others h, ready')
  call-Keeps (leaves u) = elim (Option-cases (find u pm.players)) [
    | inl e ↦ subst (Keeps rs) (sym (absent_player pm u offline e).0) (h, ready)
    | inr (d, e) ↦
        let r = remove_player pm u in
        let a = remove_player-Announces pm u d e in
        let ready' = remove_player-IsReady pm ready u in
        (
          tell-Follows pm r.0 u offline rs r.1 (a.1 ready'.1) a.0
              (λ w. (remove_player_statuses pm u w).1) h,
          ready',
        )
  ]
  call-Keeps (changes u status) = elim (Option-cases (find u pm.players)) [
    | inl e ↦ subst (Keeps rs) (sym (absent_player pm u status e).1) (h, ready)
    | inr (d, e) ↦
        let r = update_player_status pm u status in
        let a = update_player_status-Announces pm u status d ready.0 e in
        let ready' = update_player_status-IsReady pm ready u status in
        (
          tell-Follows pm r.0 u status rs r.1 (a.1 ready'.1) a.0
              (λ w n. (update_player_status_frame pm u w status n).0) h,
          ready',
        )
  ]

follow-Follows :
    (cs : List Call) (pm : PlayerManager) (rs : List Row)
    → IsReady pm
    → Follows rs pm
    → let s = follow pm rs cs in Follows s.1 s.0
follow-Follows [] pm rs ready h = h
follow-Follows (c ∷ cs) pm rs ready h =
    let k = call-Keeps pm ready rs h c in
    follow-Follows cs (call pm c).0 (tell (call pm c).1 rs) k.1 k.0

-- The list that a request for the players shows has the status of each that the server reports.
listed-statuses :
    (w : ℕ) (m : Map PlayerData)
    → AllEntries (λ k d. d.user_id ≡ k) m
    → row_status w (map listed_row (online_infos m))
      ≡ elim (find w m) as (λ x. PlayerStatus) [ none ↦ offline | some d ↦ d.status ]
unfolding find
listed-statuses w [] f = refl
listed-statuses w ((k, d) ∷ m) f = ground (arith, f.0, listed-statuses w m f.1)

-- the players of the server's answer to a list request
abbrev pub players_in : List Event → List PlayerInfoMessage
players_in (send _ _ (player_list r) ∷ _) = r.players
players_in _ = []

-- The answer has every online player where there are at most 100.
answered_players_whole :
    (pm : PlayerManager) (c : Client)
    → length (get_online_players pm) ≤ 100
    → players_in (handle_player_list_request pm c) ≡ get_online_players pm
unfolding handle_player_list_request
answered_players_whole pm c few =
    let online = get_online_players pm in
    let fits : leb (length online) 100 ≡ true = ground arith in
    rw (handle_player_list_request, fits) (take_all online)

-- On a running server with at most 100 players online, where every player is filed under the own id: a
-- client whose list shows the players of the server's answer to its request, each once, and then
-- takes in, in order, what the server broadcasts at any sequence of logins, departures and status
-- changes, shows each player at most once, and each with the status that the server reports at the
-- end.
pub follow-Follows_listed :
    (pm : PlayerManager) (c : Client) (lobby : Lobby) (cs : List Call)
    → IsFiled pm
    → pm.server_running ≡ true
    → length (get_online_players pm) ≤ 100
    → let shown =
        (on_player_list lobby true
          (players_in (handle_player_list_request pm c))).player_list_store in
      IsDistinct shown → let s = follow pm shown cs in Follows s.1 s.0
unfolding get_online_players get_player_status on_player_list
follow-Follows_listed pm c lobby cs f running few d =
    let start =
      subst (λ l. (w : ℕ) → row_status w (map listed_row l) ≡ get_player_status pm w)
        (sym (answered_players_whole pm c few)) (λ w. listed-statuses w pm.players f) in
    follow-Follows cs pm (map listed_row (players_in (handle_player_list_request pm c)))
      (f, running) (d, start)
