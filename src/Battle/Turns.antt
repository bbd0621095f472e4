-- ===== src/Battle/Turns.antt =====
-- Whose turn it is after a shot, a move of the computer opponent, or the end of the time.
use networkprogramming_battl.Base.{
  ℕ, zero, suc, ◌+◌, ◌≤◌, ◌<◌, if◌then◌else◌, pos, Bool, true, false, not, ◌&&◌, ◌||◌, ◌≡◌, ◌⊎◌,
  ◌%◌, refl, ap, none, some, ◌∷◌, inl, inr, Bool-cases, arith,
}
use networkprogramming_battl.Protocol.{Coordinate, ShotResult}
use networkprogramming_battl.Board.{
  Board, is_fresh, Draws, drawn_pos, board_size, get_cell, process_shot, all_ships_sunk,
}
use networkprogramming_battl.Board.Cells.{point}
use networkprogramming_battl.Battle.State.{
  victory, defeat, Ui, player_board, turn_seconds, switch_turn,
}
use networkprogramming_battl.Battle.Fire.{
  is_hit, is_online, local_shot, after_shot, execute_fire_at_target, on_turn_timer_expired,
  turn_timer_callback,
}
use networkprogramming_battl.Battle.Bot.{bot_aim, bot_shot, bot_take_turn}
use networkprogramming_battl.Battle.Spent.{spent}
use networkprogramming_battl.Battle.Wear.{process_shot-spends}

-- What a local shot does to the rest of the state.
pub record IsPlayed (u u' : Ui) (x : Board × ShotResult) : Type 0 where
  pub board : u'.opponent_board ≡ x.0
  pub counted : u'.shots_fired ≡ suc u.shots_fired
  pub scored : u'.hits_count ≡ u.hits_count + (if is_hit x.1 then 1 else 0)
  pub released : u'.selected_target ≡ none
  pub turn : u'.is_player_turn ≡ (all_ships_sunk x.0 || is_hit x.1)
  pub timed : u'.timer_running ≡ not (all_ships_sunk x.0)
  pub bot :
      u'.bot_calls
      ≡ u.bot_calls + (if u.is_bot_mode && not (all_ships_sunk x.0 || is_hit x.1) then 1 else 0)
  pub told : u'.popups ≡ (if all_ships_sunk x.0 then victory ∷ u.popups else u.popups)

after_shot-IsPlayed :
    (u : Ui) (x : Board × ShotResult) → u.is_player_turn ≡ true → IsPlayed u (after_shot u x) x
unfolding after_shot
after_shot-IsPlayed u x t = record {
  board = ground arith;
  counted = ground arith;
  scored = ground arith;
  released = ground arith;
  turn = ground (arith, t);
  timed = ground arith;
  bot = ground (arith, t);
  told = ground arith;
}

-- A shot fired on the player's turn, where no match is on, is counted, and counted as a hit where it
-- is one; the target is released; the turn passes exactly when the shot missed and did not end the
-- game; the computer opponent is called exactly when it passes in a game against it; and the victory
-- is told, and the clock stopped, exactly when all ships have sunk.
pub fire-IsPlayed :
    (u : Ui) (p : Coordinate) (accepted : Bool)
    → u.is_player_turn ≡ true
    → is_online u ≡ false
    → u.selected_target ≡ some p
    → (execute_fire_at_target u accepted ≡ (after_shot u (local_shot u.opponent_board p), true))
      × IsPlayed u (execute_fire_at_target u accepted).0 (local_shot u.opponent_board p)
unfolding execute_fire_at_target
fire-IsPlayed u p accepted turn off e =
    let fired : execute_fire_at_target u accepted
        ≡ (after_shot u (local_shot u.opponent_board p), true) =
      ground (arith, turn, off, e) in
    (fired, rw fired (after_shot-IsPlayed u (local_shot u.opponent_board p) turn))

-- The number of the draw with which the i-th attempt starts, from draw k on: two draws for each.
abbrev pub attempt : ℕ → ℕ → ℕ
attempt k zero = k
attempt k (suc i) = attempt (k + 2) i

abbrev pub drawn_fresh : Draws → Board → ℕ → Bool
drawn_fresh rand b k = is_fresh (get_cell b (drawn_pos rand k).row (drawn_pos rand k).col)

-- The aim is the first cell drawn that was not shot at, and none of the n attempts gave one before.
pub record IsFirst (rand : Draws) (b : Board) (k n i : ℕ) : Type 0 where
  pub early : i < n
  pub aims : bot_aim rand b k n ≡ some (drawn_pos rand (attempt k i))
  pub fresh : drawn_fresh rand b (attempt k i) ≡ true
  pub earlier : (j : ℕ) → j < i → drawn_fresh rand b (attempt k j) ≡ false

pub record IsBlocked (rand : Draws) (b : Board) (k n : ℕ) : Type 0 where
  pub aims : bot_aim rand b k n ≡ none
  pub none_fresh : (j : ℕ) → j < n → drawn_fresh rand b (attempt k j) ≡ false

bot_aim_lem :
    (rand : Draws) (b : Board) (k n : ℕ) → IsBlocked rand b k n ⊎ ((i : ℕ) × IsFirst rand b k n i)
unfolding bot_aim
bot_aim_lem rand b k zero =
    inl (record { aims = refl; none_fresh = λ i h. absurd (omega (arith, h)) })
bot_aim_lem rand b k (suc n) = elim (Bool-cases (drawn_fresh rand b k)) [
  | inl e ↦ inr (
    0,
    record {
      early = omega arith;
      aims = rw (e, bot_aim) refl;
      fresh = e;
      earlier = λ j h. absurd (omega (arith, h));
    },
  )
  | inr e ↦ elim (bot_aim_lem rand b (k + 2) n) [
    | inl f ↦ inl (record { aims = rw (e, bot_aim) f.aims; none_fresh = later n e f.none_fresh })
    | inr (i, f) ↦ inr (
      suc i,
      record {
        early = omega (arith, f.early);
        aims = rw (e, bot_aim) f.aims;
        fresh = f.fresh;
        earlier = later i e f.earlier;
      },
    )
  ]
]
  where
    later :
        (m : ℕ)
        → drawn_fresh rand b k ≡ false
        → ((j : ℕ) → j < m → drawn_fresh rand b (attempt (k + 2) j) ≡ false)
        → (j : ℕ) → j < suc m
        → drawn_fresh rand b (attempt k j) ≡ false
    later m e f zero h = e
    later m e f (suc j) h = f j (omega (arith, h))

-- What a shot of the computer opponent at a cell does.
pub record IsAnswered (u u' : Ui) (p : Coordinate) : Type 0 where
  pub board : player_board u' ≡ (process_shot (player_board u) p).0
  pub spends : suc (spent (player_board u)) ≤ spent (player_board u')
  pub turn : u'.is_player_turn ≡ not (is_hit (process_shot (player_board u) p).1)
  pub again :
      u'.bot_calls ≡ u.bot_calls + (if is_hit (process_shot (player_board u) p).1 then 1 else 0)
  pub told : u'.popups ≡ (if all_ships_sunk (player_board u') then defeat ∷ u.popups else u.popups)
  pub other : u'.opponent_board ≡ u.opponent_board

bot_shot-IsAnswered :
    (u : Ui) (r c : ℕ)
    → u.is_player_turn ≡ false
    → r < board_size
    → c < board_size
    → is_fresh (get_cell (player_board u) (pos r) (pos c)) ≡ true
    → IsAnswered u (bot_shot u (point r c)) (point r c)
unfolding bot_shot get_cell
bot_shot-IsAnswered u r c t h k e =
    let board : player_board (bot_shot u (point r c))
        ≡ (process_shot (player_board u) (point r c)).0 =
      ground arith in
    record {
      board = board;
      spends = rw board (process_shot-spends (player_board u) r c h k (ground (arith, e, h, k)));
      turn = ground (arith, t);
      again = ground arith;
      told = rw board (ground arith);
      other = ground arith;
    }

bot_acts :
    (rand : Draws) (u : Ui)
    → u.is_player_turn ≡ false
    → u.is_bot_mode ≡ true
    → (bot_aim rand (player_board u) 0 100 ≡ none → bot_take_turn rand u ≡ switch_turn u)
      × ((p : Coordinate)
          → bot_aim rand (player_board u) 0 100 ≡ some p
          → bot_take_turn rand u ≡ bot_shot u p)
unfolding bot_take_turn
bot_acts rand u t m = (λ e. ground (arith, t, m, e), λ p e. ground (arith, t, m, e))

-- The two outcomes of a turn of the computer opponent.
abbrev pub BotTurn : Draws → Ui → Ui → Type 0
BotTurn rand u u' =
    (IsBlocked rand (player_board u) 0 100 × (u' ≡ switch_turn u))
    ⊎ ((i : ℕ) × IsFirst rand (player_board u) 0 100 i
        × IsAnswered u u' (drawn_pos rand (attempt 0 i)))

-- On its turn the computer opponent shoots at the first cell drawn, in 100 attempts, that was not shot
-- at: one more cell of the player's board is spent, the turn passes exactly when it misses, it is called
-- again exactly when it hits, and a defeat is told exactly when all ships have sunk. Where no attempt
-- gives such a cell, the player has the turn, the clock runs from 20 seconds again, and nothing else
-- changes.
pub bot_take_turn_lem :
    (rand : Draws) (u : Ui)
    → u.is_player_turn ≡ false
    → u.is_bot_mode ≡ true
    → BotTurn rand u (bot_take_turn rand u)
bot_take_turn_lem rand u t m = elim (bot_aim_lem rand (player_board u) 0 100) [
  | inl f ↦ inl (f, (bot_acts rand u t m).0 f.aims)
  | inr (i, f) ↦
      let k = attempt 0 i in
      inr (
        i,
        f,
        rw ((bot_acts rand u t m).1 (drawn_pos rand k) f.aims) (
            bot_shot-IsAnswered u (rand k % board_size) (rand (k + 1) % board_size) t (omega arith)
              (omega arith) f.fresh),
      )
]

-- n seconds of the turn's clock
abbrev pub run_clock : ℕ → Ui → Ui
run_clock zero u = u
run_clock (suc n) u = run_clock n (turn_timer_callback u)

-- What the end of the time does, whoever's turn it was.
pub record IsPassed (u u' : Ui) : Type 0 where
  pub turn : u'.is_player_turn ≡ not u.is_player_turn
  pub released : u'.selected_target ≡ none
  pub restarted : u'.turn_time_remaining ≡ turn_seconds
  pub running : u'.timer_running ≡ true
  pub bot : u'.bot_calls ≡ u.bot_calls + (if u.is_bot_mode && u.is_player_turn then 1 else 0)

last_second-IsPassed : (u : Ui) → u.turn_time_remaining ≡ pos 1 → IsPassed u (turn_timer_callback u)
unfolding turn_timer_callback on_turn_timer_expired
last_second-IsPassed u e = record {
  turn = ground (arith, e);
  released = ground (arith, e);
  restarted = ground (arith, e);
  running = ground (arith, e);
  bot = ground (arith, e);
}

-- While seconds are left, only the clock changes.
second_left :
    (u : Ui) (n : ℕ)
    → u.turn_time_remaining ≡ pos (suc (suc n))
    → turn_timer_callback u ≡ record u { turn_time_remaining = pos (suc n) }
unfolding turn_timer_callback
second_left u n e = ground (arith, e)

-- A turn with n + 1 seconds on the clock lasts for n seconds in which only the clock changes, and passes
-- with the next one: the target is released, the clock starts again at 20 seconds, and the computer
-- opponent is called exactly when the player's turn ran out in a game against it.
pub turn_expires :
    (u : Ui) (n : ℕ)
    → u.turn_time_remaining ≡ pos (suc n)
    → (run_clock n u ≡ record u { turn_time_remaining = pos 1 }) × IsPassed u (run_clock (suc n) u)
turn_expires u zero e = (ap (λ z. record u { turn_time_remaining = z }) e, last_second-IsPassed u e)
turn_expires u (suc n) e =
    let (waits, g) = turn_expires (record u { turn_time_remaining = pos (suc n) }) n refl in
    rw (second_left u n e) (
      waits,
      record {
        turn = g.turn;
        released = g.released;
        restarted = g.restarted;
        running = g.running;
        bot = g.bot;
      },
    )
