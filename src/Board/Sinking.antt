-- ===== src/Board/Sinking.antt =====
-- A mark `cell_sunk` on a cell that does not float (setCell, common/src/game_state.cpp).
use networkprogramming_battl.Base.{
  ℕ, ℤ, pos, negsuc, true, false, ◌≡◌, refl, List, [], ◌∷◌, All, inl, inr, Bool-cases, arith,
}
use networkprogramming_battl.Protocol.{Ship}
use networkprogramming_battl.Board.{
  Board, Grid, cell_sunk, is_ship, covers, update, inside, get_cell, set_cell,
}
use networkprogramming_battl.Board.Cells.{point, live-update_quiet, marked-update, live-covers}
use networkprogramming_battl.Board.Fleet.{IsAfloat, IsFleet, IsValid}

module _ (g : Grid) (r c : ℕ) (quiet : is_ship (g r c) ≡ false) where
  sunk-IsAfloat : (s : Ship) → IsAfloat g s → IsAfloat (update g r c cell_sunk) s
  sunk-IsAfloat s a = record {
    straight = a.straight;
    small = a.small;
    solid = a.solid;
    counted = omega (arith, a.counted, live-update_quiet g r c cell_sunk s 0 s.length quiet refl);
    drawn = marked-update g r c cell_sunk s 0 s.length refl a.drawn;
    flagged = a.flagged;
  }

  sunk-All : (ss : List Ship) → All (IsAfloat g) ss → All (IsAfloat (update g r c cell_sunk)) ss
  sunk-All [] a = tt
  sunk-All (s ∷ ss) a = (sunk-IsAfloat s a.0, sunk-All ss a.1)

  sunk-IsFleet : (ss : List Ship) → IsFleet g ss → IsFleet (update g r c cell_sunk) ss
  sunk-IsFleet ss f = record {
    afloat = sunk-All ss f.afloat;
    disjoint = f.disjoint;
    aboard = f.aboard;
    manned = λ a b i e. ground (arith, f.manned a b i, e);
  }

-- The mark keeps a valid board valid.
pub set_cell-IsValid :
    (b : Board) (z w : ℤ)
    → is_ship (get_cell b z w) ≡ false
    → IsValid b
    → IsValid (set_cell b z w cell_sunk)
unfolding get_cell set_cell
set_cell-IsValid b (pos r) (pos c) q v = elim (Bool-cases (inside r c)) [
  | inl i ↦
      rw (i, set_cell)
        (record {
          fleet = sunk-IsFleet b.grid r c (ground (arith, q, i)) b.ships v.fleet;
          slots = v.slots;
          remaining = v.remaining;
        })
  | inr o ↦ rw (o, set_cell) v
]
set_cell-IsValid b (pos r) (negsuc c) q v = v
set_cell-IsValid b (negsuc r) w q v = v

-- No cell of a sunk ship floats.
pub sunk_quiet :
    (g : Grid) (s : Ship) (r c : ℕ)
    → IsAfloat g s
    → s.is_sunk ≡ true
    → covers s (point r c) 0 s.length ≡ true
    → is_ship (g r c) ≡ false
sunk_quiet g s r c a k o = elim (Bool-cases (is_ship (g r c))) [
  | inl e ↦
      absurd (ground (arith, a.flagged, a.counted, live-covers g r c s 0 s.length (ground arith) o))
  | inr e ↦ e
]
