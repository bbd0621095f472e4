-- ===== src/Board/Removal.antt =====
-- `removeShip` undoes `placeShip`.
use networkprogramming_battl.Base.{
  ℕ, zero, suc, if◌then◌else◌, ℤ, pos, negsuc, int_eq, Bool, true, false, ◌&&◌, ◌≡◌, ◌≢◌, refl, ap,
  ◌∙◌, Option, some, List, [], ◌∷◌, ◌++◌, All, inl, inr, Bool-cases, arith,
}
use networkprogramming_battl.Protocol.{Coordinate, Ship, get_ship_length}
use networkprogramming_battl.Board.{
  Board, CellState, cell_empty, cell_ship, is_ship, Grid, update, read, write, cell_row, cell_col,
  covers, new_ship, place_ship, take_ship, unmark_ship, remove_ship, last_ship, zero_ship,
}
use networkprogramming_battl.Board.Cells.{point}
use networkprogramming_battl.Board.Marks.{OnBoard, OnBoard-other, Fits-OnBoard, Fits-covers}
use networkprogramming_battl.Board.Placement.{accepted-Placed}

-- The floating cells of the ship are emptied, and no other cell changes.
abbrev Clears : Grid → Ship → ℕ → ℕ → Grid → Type 0
Clears g s j n g' =
    (r c : ℕ) → g' r c ≡ (if covers s (point r c) j n && is_ship (g r c) then cell_empty else g r c)

abbrev unmark_cell : Grid → ℤ → ℤ → CellState → Option Grid
unmark_cell g z w cell = if is_ship cell then write g z w cell_empty else some g

unmark_point :
    (g : Grid) (z w : ℤ) (x : CellState)
    → read g z w ≡ some x
    → (g' : Grid) × (unmark_cell g z w x ≡ some g')
      × ((r c : ℕ)
          → g' r c ≡ (
              if (int_eq z (pos r) && int_eq w (pos c)) && is_ship (g r c)
              then cell_empty
              else g r c))
unmark_point g (pos a) (pos b) x e = elim (Bool-cases (is_ship x)) [
  | inl k ↦ (update g a b cell_empty, ground arith, λ r c. ground (arith, e, k))
  | inr k ↦ (g, ground arith, λ r c. ground (arith, e, k))
]
unmark_point g (pos a) (negsuc b) x e = absurd (ground arith)
unmark_point g (negsuc a) w x e = absurd (ground arith)

unmark_ship-Clears :
    (g : Grid) (s : Ship) (j n : ℕ)
    → OnBoard g s j n
    → (g' : Grid) × (unmark_ship g s j n ≡ some g') × Clears g s j n g'
unfolding unmark_ship covers
unmark_ship-Clears g s j zero o = (g, refl, λ r c. refl)
unmark_ship-Clears g s j (suc n) o =
    let (g₁, e₁, m₁) =
      unmark_point g (cell_row s.position s.orientation j) (cell_col s.position s.orientation j)
        o.0.0 o.0.1 in
    let (g₂, e₂, m₂) = unmark_ship-Clears g₁ s (suc j) n (OnBoard-other g g₁ s (suc j) n o.1) in
    (g₂, rw (o.0.1, unmark_ship, e₁) e₂, λ r c. ground (arith, m₁ r c, m₂ r c))

take_ship-snoc :
    (ss : List Ship) (s : Ship)
    → All (λ t. t.type ≢ s.type) ss
    → take_ship s.type (ss ++ s ∷ []) ≡ some (s, ss)
take_ship-snoc [] s h = ground arith
take_ship-snoc (t ∷ ss) s h = ground (arith, take_ship-snoc ss s h.1)

restored :
    (covered : Bool) (old drawn cleared : CellState)
    → cleared ≡ (if covered && is_ship drawn then cell_empty else drawn)
    → drawn ≡ (if covered then cell_ship else old)
    → (covered ≡ true → old ≡ cell_empty)
    → cleared ≡ old
restored true old drawn cleared e h k = ground (arith, k refl)
restored false old drawn cleared e h k = ground arith

-- Where no ship of the type was on the board, taking the placed ship back restores the grid, the
-- ships and the counter.
pub place-remove :
    (b b' : Board) (type : ℕ) (p : Coordinate) (o : ℕ)
    → All (λ t. t.type ≢ type) b.ships
    → place_ship b type p o ≡ some (b', true)
    → (b'' : Board) × (remove_ship b' type ≡ some (b'', true))
      × ((r c : ℕ) → b''.grid r c ≡ b.grid r c)
      × (b''.ships ≡ b.ships)
      × (b''.ships_remaining ≡ b.ships_remaining)
unfolding remove_ship
place-remove b b' type p o h e =
    let s = new_ship type p o in
    let n = get_ship_length type in
    let d = accepted-Placed b b' type p o e in
    let (g, eg, m) =
      unmark_ship-Clears b'.grid s 0 n
        (OnBoard-other b.grid b'.grid s 0 n (Fits-OnBoard b.grid s 0 n d.fits)) in
    (
      record b' { grid = g; ships = b.ships; spare = last_ship zero_ship b'.ships ∷ b'.spare },
      rw (ap (take_ship type) d.ships ∙ take_ship-snoc b.ships s h, remove_ship, eg),
      λ r c.
          restored (covers s (point r c) 0 n) (b.grid r c) (b'.grid r c) (g r c) (m r c)
            (d.marks r c) (Fits-covers b.grid s r c 0 n d.fits),
      refl,
      d.remaining,
    )
