-- ===== src/Board/Fleet.antt =====
-- The invariant of a board: the ships lie apart, their counters agree with the grid, and
-- `ships_remaining` counts the ships that have not sunk.
use networkprogramming_battl.Base.{
  ℕ, ◌+◌, ◌-◌, ◌≤◌, ◌<◌, leb, if◌then◌else◌, pos, Bool, true, false, ◌||◌, ◌≡◌, List, [], ◌∷◌,
  length, All,
}
use networkprogramming_battl.Protocol.{Ship}
use networkprogramming_battl.Board.{Board, Grid, cell_ship, covers, num_ships, inside}
use networkprogramming_battl.Board.Cells.{live, marked, point}

pub record IsAfloat (g : Grid) (s : Ship) : Type 0 where
  pub straight : s.orientation ≤ 1
  pub small : s.length ≤ 5
  pub solid : 0 < s.length
  pub counted : s.hits + live g s 0 s.length ≡ s.length
  pub drawn : marked g s 0 s.length ≡ true
  pub flagged : s.is_sunk ≡ leb s.length s.hits

-- No cell of the board belongs to both ships.
abbrev pub Apart : Ship → Ship → Type 0
Apart s t =
    (r c : ℕ) → covers s (point r c) 0 s.length ≡ true → covers t (point r c) 0 t.length ≡ false

abbrev pub Disjoint : List Ship → Type 0
Disjoint [] = Unit {0}
Disjoint (s ∷ ss) = All (Apart s) ss × Disjoint ss

abbrev pub sunk_count : List Ship → ℕ
sunk_count [] = 0
sunk_count (s ∷ ss) = (if s.is_sunk then 1 else 0) + sunk_count ss

-- The cell belongs to some ship.
abbrev pub owned : List Ship → ℕ → ℕ → Bool
owned [] r c = false
owned (s ∷ ss) r c = covers s (point r c) 0 s.length || owned ss r c

pub record IsFleet (g : Grid) (ships : List Ship) : Type 0 where
  pub afloat : All (IsAfloat g) ships
  pub disjoint : Disjoint ships
  pub aboard : (r c : ℕ) → owned ships r c ≡ true → inside r c ≡ true
  pub manned : (r c : ℕ) → inside r c ≡ true → g r c ≡ cell_ship → owned ships r c ≡ true

pub record IsValid (b : Board) : Type 0 where
  pub fleet : IsFleet b.grid b.ships
  pub slots : length b.ships + length b.spare ≡ num_ships
  pub remaining : b.ships_remaining ≡ pos (num_ships - sunk_count b.ships)
