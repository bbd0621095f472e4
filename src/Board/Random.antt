-- ===== src/Board/Random.antt =====
-- `randomPlacement` under any sequence of draws.
use networkprogramming_battl.Base.{
  ℕ, zero, suc, ◌+◌, ◌%◌, ◌≤◌, ◌<◌, true, ◌≡◌, refl, some, List, [], ◌∷◌, length, All, inl, inr,
  arith,
}
use networkprogramming_battl.Board.{
  Board, Grid, is_fresh, Draws, drawn_pos, drawn_orientation, try_place, place_all, all_types,
  max_attempts, random_placement, clear_board, new_board, board_size,
}
use networkprogramming_battl.Board.Fleet.{IsValid}
use networkprogramming_battl.Board.Placement.{place_ship-Placed, place_ship-IsValid}
use networkprogramming_battl.Board.Check.{is_valid_placement-decides}

pub new_board-IsValid : IsValid new_board
unfolding new_board
new_board-IsValid = record {
  fleet = record {
    afloat = tt;
    disjoint = tt;
    aboard = λ r c o. ground (arith, o);
    manned = λ r c i e. ground (arith, e);
  };
  slots = refl;
  remaining = refl;
}

pub clear_board-IsValid : (b : Board) → IsValid (clear_board b)
unfolding clear_board
clear_board-IsValid b = record {
  fleet = record {
    afloat = tt;
    disjoint = tt;
    aboard = λ r c o. ground (arith, o);
    manned = λ r c i e. ground (arith, e);
  };
  slots = refl;
  remaining = refl;
}

-- One more ship at most, and no slot is lost.
abbrev Grows : Board → Board → Type 0
Grows b b' = (length b'.ships ≤ length b.ships + 1) × (length b.ships ≤ length b'.ships)

-- No cell has been shot at.
abbrev pub Unshot : Grid → Type 0
Unshot g = (r c : ℕ) → is_fresh (g r c) ≡ true

module _ (rand : Draws) where
  try_place-IsValid :
      (b : Board) (type k attempts : ℕ)
      → IsValid b
      → type < 5
      → 0 < length b.spare
      → (b' : Board) × (k' : ℕ) × (try_place rand b type k attempts ≡ some (b', k'))
        × IsValid b'
        × (length b.spare ≤ suc (length b'.spare))
        × (Unshot b.grid → Unshot b'.grid)
  unfolding try_place
  try_place-IsValid b type k zero v t room = (b, k, refl, v, omega arith, λ f. f)
  try_place-IsValid b type k (suc attempts) v t room =
      let p = drawn_pos rand k in
      let o = drawn_orientation rand k in
      elim (is_valid_placement-decides b type (rand k % board_size) (rand (k + 1) % board_size) o
        (omega arith) (omega arith)) [
          | inl e ↦
              let (b', eb, d) = place_ship-Placed b type p o room e in
              (
                b',
                k + 3,
                rw (e, try_place, eb),
                place_ship-IsValid b b' type p o v (ground arith) t eb,
                omega (arith, d.spare),
                λ f r c. ground (arith, d.marks r c, f r c),
              )
          | inr e ↦
              let (b', k', eb, w, l, u) = try_place-IsValid b type (k + 3) attempts v t room in
              (b', k', rw (e, try_place) eb, w, l, u)
        ]

  place_all-IsValid :
      (attempts : ℕ) (b : Board) (k : ℕ) (types : List ℕ)
      → IsValid b
      → All (λ t. t < 5) types
      → length types ≤ length b.spare
      → (b' : Board) × (k' : ℕ) × (place_all rand attempts b k types ≡ some (b', k'))
        × IsValid b'
        × (Unshot b.grid → Unshot b'.grid)
  unfolding place_all
  place_all-IsValid attempts b k [] v h l = (b, k, refl, v, λ f. f)
  place_all-IsValid attempts b k (t ∷ ts) v h l =
      let (b₁, k₁, e₁, v₁, l₁, u₁) = try_place-IsValid b t k attempts v h.0 (omega arith) in
      let (b₂, k₂, e₂, v₂, u₂) = place_all-IsValid attempts b₁ k₁ ts v₁ h.1 (omega (arith, l₁)) in
      (b₂, k₂, rw (e₁, place_all) e₂, v₂, λ f. u₂ (u₁ f))

  pub random_placement-Unshot :
      (b : Board)
      → (b' : Board) × (k : ℕ) × (random_placement rand b ≡ some (b', k))
        × IsValid b'
        × Unshot b'.grid
  unfolding random_placement clear_board
  random_placement-Unshot b =
      let (b', k, e, v, f) =
        place_all-IsValid max_attempts (clear_board b) 0 all_types (clear_board-IsValid b)
          (omega arith) (omega arith) in
      (b', k, e, v, f (λ r c. refl))

  -- Whatever is drawn, `randomPlacement` ends without leaving the board or the array of ships, in a
  -- valid board.
  pub random_placement-IsValid :
      (b : Board) → (b' : Board) × (k : ℕ) × (random_placement rand b ≡ some (b', k)) × IsValid b'
  random_placement-IsValid b = let (b', k, e, v, _) = random_placement-Unshot b in (b', k, e, v)
