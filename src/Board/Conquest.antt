-- ===== src/Board/Conquest.antt =====
-- Who shoots at every square wins.
use networkprogramming_battl.Base.{
  ℕ, ◌<◌, eq→≡, Bool-cases, inl, inr, int_eq, ℤ, pos, negsuc, Bool, true, false, ◌&&◌, ◌||◌, ◌≡◌,
  ◌≢◌, refl, ◌∙◌, List, [], ◌∷◌, length, arith,
}
use networkprogramming_battl.Protocol.{Coordinate}
use networkprogramming_battl.Board.{
  Board, CellState, cell_empty, cell_ship, cell_miss, cell_hit, cell_sunk, inside, num_ships,
  board_size, shoot_cell, shoot_at, process_shot, all_ships_sunk,
}
use networkprogramming_battl.Board.Fleet.{IsValid}
use networkprogramming_battl.Board.Shots.{process_shot-IsValid}
use networkprogramming_battl.Board.Victory.{shoot_all, length-process_shot, all_ships_sunk_iff}

-- A shot at a square leaves no floating cell there, and makes none elsewhere.
shoot_cell_clears :
    (b : Board) (r c : ℕ) (s : CellState) (i j : ℕ)
    → b.grid r c ≡ s
    → ((shoot_cell b r c s).0.grid r c ≢ cell_ship)
      × (b.grid i j ≢ cell_ship → (shoot_cell b r c s).0.grid i j ≢ cell_ship)
unfolding shoot_cell
shoot_cell_clears b r c cell_ship i j e = (λ f. ground (arith, f), λ n f. ground (arith, n, f))
shoot_cell_clears b r c cell_empty i j e = (λ f. ground (arith, f), λ n f. ground (arith, n, f))
shoot_cell_clears b r c cell_miss i j e = (λ f. ground (arith, e, f), λ n. n)
shoot_cell_clears b r c cell_hit i j e = (λ f. ground (arith, e, f), λ n. n)
shoot_cell_clears b r c cell_sunk i j e = (λ f. ground (arith, e, f), λ n. n)

shoot_at_keeps :
    (b : Board) (z w : ℤ) (i j : ℕ)
    → b.grid i j ≢ cell_ship
    → (shoot_at b z w).0.grid i j ≢ cell_ship
unfolding shoot_at
shoot_at_keeps b (pos r) (pos c) i j n = elim (Bool-cases (inside r c)) [
  | inl k ↦ rw (k, shoot_at) ((shoot_cell_clears b r c (b.grid r c) i j refl).1 n)
  | inr k ↦ rw (k, shoot_at) n
]
shoot_at_keeps b (pos r) (negsuc c) i j n = n
shoot_at_keeps b (negsuc r) w i j n = n

shoot_at_clears :
    (b : Board) (r c : ℕ)
    → r < board_size
    → c < board_size
    → (shoot_at b (pos r) (pos c)).0.grid r c ≢ cell_ship
unfolding shoot_at
shoot_at_clears b r c h k =
    let i : inside r c ≡ true = ground (arith, h, k) in
    rw (i, shoot_at) ((shoot_cell_clears b r c (b.grid r c) 0 0 refl).0)

-- Is the square among the targets?
unfoldable pub visits : List Coordinate → ℕ → ℕ → Bool
visits [] r c = false
visits (p ∷ ps) r c = int_eq p.row (pos r) && int_eq p.col (pos c) || visits ps r c

shoot_all_keeps :
    (ps : List Coordinate) (b : Board) (i j : ℕ)
    → b.grid i j ≢ cell_ship
    → (shoot_all b ps).grid i j ≢ cell_ship
unfolding shoot_all process_shot
shoot_all_keeps [] b i j n = n
shoot_all_keeps (p ∷ ps) b i j n =
    shoot_all_keeps ps (process_shot b p).0 i j (shoot_at_keeps b p.row p.col i j n)

hit_clears :
    (b : Board) (z w : ℤ) (r c : ℕ)
    → r < board_size
    → c < board_size
    → (int_eq z (pos r) && int_eq w (pos c)) ≡ true
    → (shoot_at b z w).0.grid r c ≢ cell_ship
hit_clears b (pos a) (pos d) r c h k e =
    let row : a ≡ r = eq→≡ a r (ground (arith, e)) in
    let col : d ≡ c = eq→≡ d c (ground (arith, e)) in rw (row, col) (shoot_at_clears b r c h k)
hit_clears b (pos a) (negsuc d) r c h k e = absurd (ground (arith, e))
hit_clears b (negsuc a) w r c h k e = absurd (ground (arith, e))

shoot_all_clears :
    (ps : List Coordinate) (b : Board) (r c : ℕ)
    → r < board_size
    → c < board_size
    → visits ps r c ≡ true
    → (shoot_all b ps).grid r c ≢ cell_ship
unfolding shoot_all process_shot visits
shoot_all_clears [] b r c h k e = absurd (ground (arith, e))
shoot_all_clears (p ∷ ps) b r c h k e =
    elim (Bool-cases (int_eq p.row (pos r) && int_eq p.col (pos c))) [
      | inl here ↦
          shoot_all_keeps ps (process_shot b p).0 r c (hit_clears b p.row p.col r c h k here)
      | inr later ↦ shoot_all_clears ps (process_shot b p).0 r c h k (ground (arith, e, later))
    ]

shoot_all-IsValid :
    (ps : List Coordinate) (b : Board)
    → IsValid b
    → IsValid (shoot_all b ps) × (length (shoot_all b ps).ships ≡ length b.ships)
unfolding shoot_all
shoot_all-IsValid [] b v = (v, refl)
shoot_all-IsValid (p ∷ ps) b v =
    let rest = shoot_all-IsValid ps (process_shot b p).0 (process_shot-IsValid b p v) in
    (rest.0, rest.1 ∙ length-process_shot b p)

-- On a valid board with five ships, shots that go to every square of the board, in any order and with
-- any others between them, sink the fleet.
pub every_square_wins :
    (b : Board) (ps : List Coordinate)
    → IsValid b
    → length b.ships ≡ num_ships
    → ((r c : ℕ) → r < board_size → c < board_size → visits ps r c ≡ true)
    → all_ships_sunk (shoot_all b ps) ≡ true
every_square_wins b ps v five all =
    let end = shoot_all-IsValid ps b v in
    (all_ships_sunk_iff (shoot_all b ps) end.0).1
      (end.1 ∙ five, λ r c h k. shoot_all_clears ps b r c h k (all r c h k))
