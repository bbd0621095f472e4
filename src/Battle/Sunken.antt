-- ===== src/Battle/Sunken.antt =====
-- A ship that lies across and that the server reports as sunk.
use networkprogramming_battl.Base.{
  ℕ, zero, suc, ◌+◌, ◌-◌, ◌≤◌, ◌<◌, ltb, leb, ◌==◌, if◌then◌else◌, ℤ, pos, int_eq, Bool, true,
  false, ◌&&◌, ◌||◌, ◌≡◌, refl, ap, ◌∙◌, some, arith,
}
use networkprogramming_battl.Protocol.{horizontal, get_ship_length}
use networkprogramming_battl.Board.{
  Board, cell_sunk, is_empty, board_size, get_cell, set_cell, place_ship, is_valid_placement,
  is_free,
}
use networkprogramming_battl.Board.Cells.{point}
use networkprogramming_battl.Battle.Reveal.{
  is_cell_hit, Direction, left, right, up, down, step_row, step_col, scan, beside, Extent, scan_row,
  mark_neighbours, reveal_orientation, reveal_corner, place_revealed, reveal_sunk,
}
use networkprogramming_battl.Battle.Marking.{set_cell-grid, set_cell-ships}
use networkprogramming_battl.Battle.Scans.{
  get_cell_other, hit_step, reaches, IsRun, IsScanned, scan-IsScanned,
}

-- The steps of a scan are not at the target.
target_apart :
    (d : Direction) (r c j : ℕ)
    → 0 < j
    → (int_eq (pos r) (step_row d (pos r) j) && int_eq (pos c) (step_col d (pos c) j)) ≡ false
target_apart left r c j h = ground arith
target_apart right r c j h = ground arith
target_apart up r c j h = ground arith
target_apart down r c j h = ground arith

-- A run on a board is one on a board with the same hits.
IsRun-same :
    (d : Direction) (row col : ℤ) (b b' : Board) (i n : ℕ)
    → ((j : ℕ) → i ≤ j → hit_step d row col b' j ≡ hit_step d row col b j)
    → IsRun d row col b i n
    → IsRun d row col b' i n
IsRun-same d row col b b' i zero s r = s i (omega arith) ∙ r
IsRun-same d row col b b' i (suc n) s r = (
  s i (omega arith) ∙ r.0,
  IsRun-same d row col b b' (suc i) n (λ j h. s j (omega (arith, h))) r.1,
)

target_same :
    (d : Direction) (b : Board) (r c j : ℕ)
    → 1 ≤ j
    → hit_step d (pos r) (pos c) (set_cell b (pos r) (pos c) cell_sunk) j
      ≡ hit_step d (pos r) (pos c) b j
target_same d b r c j h = ap is_cell_hit (
    get_cell_other b (pos r) (pos c) (step_row d (pos r) j) (step_col d (pos c) j) cell_sunk
      (target_apart d r c j h))

reaches_left :
    (r c i n x y : ℕ)
    → n + i ≤ suc c
    → 1 ≤ i
    → reaches left (pos r) (pos c) i n x y ≡ (x == r && leb (suc c) (y + n + i) && leb (y + i) c)
unfolding reaches
reaches_left r c i zero x y h k = ground arith
reaches_left r c i (suc n) x y h k = ground (arith, reaches_left r c (suc i) n x y)

reaches_right :
    (r c i n x y : ℕ)
    → reaches right (pos r) (pos c) i n x y ≡ (x == r && leb (c + i) y && ltb y (c + n + i))
unfolding reaches
reaches_right r c i zero x y = ground arith
reaches_right r c i (suc n) x y = ground (arith, reaches_right r c (suc i) n x y)

ship_length : (type : ℕ) → type < 5 → (n : ℕ) × (get_ship_length type ≡ suc n)
ship_length type t = (get_ship_length type - 1, ground (arith, t))

occupied :
    (b : Board) (r c n : ℕ)
    → r < board_size
    → c < board_size
    → is_empty (b.grid r c) ≡ false
    → is_free b.grid (point r c) horizontal 0 (suc n) ≡ some false
unfolding is_free
occupied b r c n h k e = ground (arith, h, k, e)

-- No ship is placed where the first cell is taken.
place_refused :
    (b : Board) (type r c : ℕ)
    → type < 5
    → r < board_size
    → c < board_size
    → is_empty (b.grid r c) ≡ false
    → place_ship b type (point r c) horizontal ≡ some (b, false)
unfolding place_ship is_valid_placement
place_refused b type r c t h k e =
    let (n, l) = ship_length type t in ground (arith, l, occupied b r c n h k e)

module _ (b : Board) (r c l m : ℕ) (h : r < board_size) (w : c + m < board_size) (v : l ≤ c) where
  abbrev target_sunk : Board
  target_sunk = set_cell b (pos r) (pos c) cell_sunk

  left_IsScanned :
      IsRun left (pos r) (pos c) b 1 l
      → IsScanned left
          (pos r)
          (pos c)
          1
          l
          target_sunk
          (scan left (pos r) (pos c) 1 board_size target_sunk)
  left_IsScanned runs =
      scan-IsScanned left (pos r) (pos c) target_sunk 1 l board_size (omega (arith, w, v))
        (IsRun-same left (pos r) (pos c) b target_sunk 1 l (target_same left b r c) runs)

  -- The marks to the left are not in the way of the scan to the right.
  right_same :
      (b' : Board) (j : ℕ)
      → IsScanned left (pos r) (pos c) 1 l target_sunk (b', l)
      → 1 ≤ j
      → hit_step right (pos r) (pos c) b' j ≡ hit_step right (pos r) (pos c) b j
  unfolding get_cell
  right_same b' j s k = ground (
    arith,
    s.marks r (c + j),
    reaches_left r c 1 l r (c + j) (omega (arith, v)) (omega arith),
    set_cell-grid b (pos r) (pos c) cell_sunk r (c + j),
  )

  abbrev row_marked : Extent
  row_marked = scan_row target_sunk (pos r) (pos c)

  record IsRowMarked : Type 0 where
    lefts : row_marked.lefts ≡ l
    rights : row_marked.rights ≡ m
    none_along : row_marked.ups + row_marked.downs ≡ 0
    ups : row_marked.ups ≡ 0
    ships : row_marked.board.ships ≡ b.ships
    marks :
        (x y : ℕ)
        → row_marked.board.grid x y
          ≡ (if x == r && leb (c - l) y && leb y (c + m) then cell_sunk else b.grid x y)

  scan_row-IsRowMarked :
      IsRun left (pos r) (pos c) b 1 l → IsRun right (pos r) (pos c) b 1 m → IsRowMarked
  unfolding scan_row
  scan_row-IsRowMarked ls rs =
      let s = left_IsScanned ls in
      let done = scan left (pos r) (pos c) 1 board_size target_sunk in
      let t = scan-IsScanned right (pos r) (pos c) done.0 1 m board_size (omega (arith, w)) (
        IsRun-same right (pos r) (pos c) b done.0 1 m
          (λ j k.
            right_same done.0 j (record { counted = refl; ships = s.ships; marks = s.marks }) k)
          rs) in
      record {
        lefts = s.counted;
        rights = t.counted;
        none_along = omega arith;
        ups = refl;
        ships = t.ships ∙ s.ships ∙ set_cell-ships b (pos r) (pos c) cell_sunk;
        marks = λ x y. ground (
          arith,
          t.marks x y,
          s.marks x y,
          reaches_left r c 1 l x y (omega (arith, v)) (omega arith),
          reaches_right r c 1 m x y,
          set_cell-grid b (pos r) (pos c) cell_sunk x y,
          h,
          w,
          v,
        );
      }

  neighbours :
      0 < l + m
      → IsRun left (pos r) (pos c) b 1 l
      → IsRun right (pos r) (pos c) b 1 m
      → hit_step up (pos r) (pos c) b 1 ≡ false
      → hit_step down (pos r) (pos c) b 1 ≡ false
      → mark_neighbours target_sunk (pos r) (pos c) ≡ row_marked
  unfolding mark_neighbours
  neighbours some_hit ls rs u d = ground (
    arith,
    across l m some_hit ls rs,
    target_same up b r c 1 (omega arith) ∙ u,
    target_same down b r c 1 (omega arith) ∙ d,
  )
    where
      across :
          (i j : ℕ)
          → 0 < i + j
          → IsRun left (pos r) (pos c) b 1 i
          → IsRun right (pos r) (pos c) b 1 j
          → (beside target_sunk (pos r) (pos c) left || beside target_sunk (pos r) (pos c) right)
            ≡ true
      across (suc i) j k xs ys = ground (arith, target_same left b r c 1 (omega arith) ∙ xs.0)
      across zero (suc j) k xs ys = ground (arith, target_same right b r c 1 (omega arith) ∙ ys.0)
      across zero zero k xs ys = absurd (omega (arith, k))

abbrev pub across_of : ℕ → ℕ → ℕ → ℕ → ℕ → ℕ → Bool
across_of r c l m x y = x == r && leb (c - l) y && leb y (c + m)

refused_reveal :
    (e : Extent) (r c l type : ℕ)
    → type < 5
    → r < board_size
    → c < board_size
    → e.lefts ≡ l
    → e.ups ≡ 0
    → 0 < e.lefts + e.rights
    → is_empty (e.board.grid r (c - l)) ≡ false
    → l ≤ c
    → place_revealed e type (reveal_corner e (pos r) (pos c)) (reveal_orientation e) ≡ some e.board
unfolding place_revealed
refused_reveal e r c l type t h k ls us some_hit taken v =
    let corner : reveal_corner e (pos r) (pos c) ≡ point r (c - l) =
      rw (ls, us) (ground (arith, h, k, v)) in
    let lies : reveal_orientation e ≡ horizontal = ground (arith, some_hit) in
    let refused = place_refused e.board type r (c - l) t h (omega (arith, k)) taken in
    rw (corner, lies, place_revealed, refused) refl

-- A ship lies across the row of the target, over the l cells left of it and the m cells right of it,
-- which are hit; the cells beyond both ends, and those above and below the target, are not. When the
-- server reports it as sunk, exactly its cells become sunk on the opponent's board, and no ship is added
-- to it.
pub reveal_across :
    (b : Board) (r c l m type : ℕ)
    → type < 5
    → r < board_size
    → c + m < board_size
    → l ≤ c
    → 0 < l + m
    → IsRun left (pos r) (pos c) b 1 l
    → IsRun right (pos r) (pos c) b 1 m
    → hit_step up (pos r) (pos c) b 1 ≡ false
    → hit_step down (pos r) (pos c) b 1 ≡ false
    → (b' : Board) × (reveal_sunk b (pos r) (pos c) type ≡ some b')
      × (b'.ships ≡ b.ships)
      × ((x y : ℕ) → b'.grid x y ≡ (if across_of r c l m x y then cell_sunk else b.grid x y))
unfolding reveal_sunk
reveal_across b r c l m type t h w v some_hit ls rs u d =
    let e = row_marked b r c l m h w v in
    let k = scan_row-IsRowMarked b r c l m h w v ls rs in
    (
      e.board,
      ap (λ x. place_revealed x type (reveal_corner x (pos r) (pos c)) (reveal_orientation x))
            (neighbours b r c l m h w v some_hit ls rs u d)
          ∙ refused_reveal e r c l type t h (omega (arith, w)) k.lefts k.ups
              (omega (arith, k.lefts, k.rights, some_hit)) (ground (arith, k.marks r (c - l))) v,
      k.ships,
      k.marks,
    )
