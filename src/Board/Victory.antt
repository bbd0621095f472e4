-- ===== src/Board/Victory.antt =====
-- When the board counts as sunk, and what a shot reports.
use networkprogramming_battl.Base.{
  ℕ, ◌≤◌, ◌<◌, ℤ, pos, negsuc, true, false, ◌≡◌, ◌≢◌, ◌↔◌, inl, inr, refl, List, [], ◌∷◌, length,
  All, Bool-cases, arith,
}
use networkprogramming_battl.Protocol.{Coordinate, Ship}
use networkprogramming_battl.Board.{
  Board, Grid, CellState, cell_empty, cell_ship, cell_miss, cell_hit, cell_sunk, covers, inside,
  num_ships, board_size, shoot_cell, shoot_at, process_shot, all_ships_sunk,
}
use networkprogramming_battl.Board.Cells.{point, live-covers, live_none}
use networkprogramming_battl.Board.Shots.{process_shot-IsValid, length-strike_fleet}
use networkprogramming_battl.Board.Fleet.{IsAfloat, sunk_count, owned, IsValid}

sunk_count-le : (ss : List Ship) → sunk_count ss ≤ length ss
sunk_count-le [] = omega arith
sunk_count-le (s ∷ ss) = ground (arith, sunk_count-le ss)

-- Where all ships have sunk, no covered cell floats.
sunk_clear :
    (g : Grid) (ss : List Ship) (r c : ℕ)
    → All (IsAfloat g) ss
    → sunk_count ss ≡ length ss
    → owned ss r c ≡ true
    → g r c ≢ cell_ship
sunk_clear g [] r c a k o e = cc
sunk_clear g (s ∷ ss) r c a k o e = elim (Bool-cases (covers s (point r c) 0 s.length)) [
  | inl h ↦
      ground (arith, live-covers g r c s 0 s.length e h, a.0.flagged, a.0.counted, sunk_count-le ss)
  | inr h ↦ sunk_clear g ss r c a.1 (ground (arith, sunk_count-le ss)) (ground (arith, h)) e
]

-- Where no cell floats, all ships have sunk.
clear_sunk :
    (g : Grid) (ss : List Ship)
    → ((r c : ℕ) → owned ss r c ≡ true → g r c ≢ cell_ship)
    → All (IsAfloat g) ss
    → sunk_count ss ≡ length ss
clear_sunk g [] h a = refl
clear_sunk g (s ∷ ss) h a = ground (
  arith,
  live_none g s 0 s.length (λ r c e. h r c (ground (arith, e))),
  a.0.flagged,
  a.0.counted,
  clear_sunk g ss (λ r c e. h r c (ground (arith, e))) a.1,
)

owned_clear :
    (g : Grid) (ss : List Ship)
    → ((r c : ℕ) → owned ss r c ≡ true → inside r c ≡ true)
    → ((r c : ℕ) → r < board_size → c < board_size → g r c ≢ cell_ship)
    → (r c : ℕ) → owned ss r c ≡ true
    → g r c ≢ cell_ship
owned_clear g ss i h r c o = ground (arith, i r c o, h r c)

-- On a valid board the flag of victory is up exactly when five ships were placed and no cell of the
-- grid floats any more.
pub all_ships_sunk_iff :
    (b : Board)
    → IsValid b
    → (all_ships_sunk b ≡ true) ↔ (
        (length b.ships ≡ num_ships)
        × ((r c : ℕ) → r < board_size → c < board_size → b.grid r c ≢ cell_ship))
unfolding all_ships_sunk
all_ships_sunk_iff b v = (
  λ e. (
    ground (arith, v.remaining, sunk_count-le b.ships, v.slots),
    λ r c h k f.
        sunk_clear b.grid b.ships r c v.fleet.afloat
          (ground (arith, v.remaining, sunk_count-le b.ships, v.slots))
          (v.fleet.manned r c (ground arith) f) f,
  ),
  λ h. ground (
    arith,
    v.remaining,
    clear_sunk b.grid b.ships (owned_clear b.grid b.ships v.fleet.aboard h.1) v.fleet.afloat,
  ),
)

-- Shots in a row.
unfoldable pub shoot_all : Board → List Coordinate → Board
shoot_all b [] = b
shoot_all b (p ∷ ps) = shoot_all (process_shot b p).0 ps

pub length-process_shot :
    (b : Board) (p : Coordinate) → length (process_shot b p).0.ships ≡ length b.ships
unfolding process_shot shoot_at shoot_cell
length-process_shot b p = length-shoot_at b p.row p.col
  where
    length-shoot_cell :
        (a : Board) (r c : ℕ) (s : CellState) → length (shoot_cell a r c s).0.ships ≡ length a.ships
    length-shoot_cell a r c cell_ship = length-strike_fleet (point r c) a.ships
    length-shoot_cell a r c cell_empty = refl
    length-shoot_cell a r c cell_miss = refl
    length-shoot_cell a r c cell_hit = refl
    length-shoot_cell a r c cell_sunk = refl

    length-shoot_at : (a : Board) (z w : ℤ) → length (shoot_at a z w).0.ships ≡ length a.ships
    length-shoot_at a (pos r) (pos c) = elim (Bool-cases (inside r c)) [
      | inl i ↦ rw (i, shoot_at) (length-shoot_cell a r c (a.grid r c))
      | inr o ↦ rw (o, shoot_at)
    ]
    length-shoot_at a (pos r) (negsuc c) = refl
    length-shoot_at a (negsuc r) w = refl

-- A valid board with fewer than five ships is never counted as sunk, whatever is shot at.
pub short_fleet :
    (b : Board) (ps : List Coordinate)
    → IsValid b
    → length b.ships < num_ships
    → all_ships_sunk (shoot_all b ps) ≡ false
unfolding shoot_all
short_fleet b [] v h = elim (Bool-cases (all_ships_sunk b)) [
  | inl e ↦ absurd (omega (arith, ((all_ships_sunk_iff b v).0 e).0))
  | inr e ↦ e
]
short_fleet b (p ∷ ps) v h =
    short_fleet (process_shot b p).0 ps (process_shot-IsValid b p v)
      (omega (arith, length-process_shot b p))
