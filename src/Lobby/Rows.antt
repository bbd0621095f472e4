-- ===== src/Lobby/Rows.antt =====
-- The rows of the list of the lobby, and what a status update does to them (client/src/ui_lobby.cpp).
use networkprogramming_battl.Base.{
  ℕ, ◌==◌, if◌then◌else◌, Bool, true, false, ◌≡◌, refl, inl, inr, List, [], ◌∷◌, Bool-cases, arith,
}
use networkprogramming_battl.Protocol.{PlayerStatus, offline}
use networkprogramming_battl.Messages.{PlayerStatusUpdate}
use networkprogramming_battl.Lobby.{Row, is_offline, update_rows}

abbrev pub listed : ℕ → List Row → Bool
listed w [] = false
listed w (r ∷ rs) = if r.user_id == w then true else listed w rs

-- the status that the list shows for a player, offline where there is no row
abbrev pub row_status : ℕ → List Row → PlayerStatus
row_status w [] = offline
row_status w (r ∷ rs) = if r.user_id == w then r.status else row_status w rs

-- No two rows are of one player.
abbrev pub IsDistinct : List Row → Type 0
IsDistinct [] = Unit
IsDistinct (r ∷ rs) = (listed r.user_id rs ≡ false) × IsDistinct rs

unlisted-offline : (w : ℕ) (rs : List Row) → listed w rs ≡ false → row_status w rs ≡ offline
unlisted-offline w [] h = refl
unlisted-offline w (r ∷ rs) h = ground (arith, unlisted-offline w rs)

is_offline_lem : (s : PlayerStatus) → is_offline s ≡ true → s ≡ offline
is_offline_lem s h = ground arith

module _ (x : PlayerStatusUpdate) where
  -- An update lists and unlists its own player only.
  listed-update_rows :
      (w : ℕ) (rs : List Row) → (x.user_id == w) ≡ false → listed w (update_rows x rs) ≡ listed w rs
  unfolding update_rows
  listed-update_rows w [] e = ground arith
  listed-update_rows w (r ∷ rs) e = ground (arith, listed-update_rows w rs e)

  -- After an update the list has at most one row of each player, as before.
  pub update_rows-IsDistinct : (rs : List Row) → IsDistinct rs → IsDistinct (update_rows x rs)
  unfolding update_rows
  update_rows-IsDistinct [] d = ground arith
  update_rows-IsDistinct (r ∷ rs) d = elim (Bool-cases (r.user_id == x.user_id)) [
    | inl same ↦ ground (arith, same, d.0, d.1)
    | inr other ↦ ground (
      arith,
      other,
      d.0,
      listed-update_rows r.user_id rs (ground (arith, other)),
      update_rows-IsDistinct rs d.1,
    )
  ]

  -- What an update changes: the status of its player becomes the one it says, and no other.
  pub row_status-update_rows :
      (w : ℕ) (rs : List Row)
      → IsDistinct rs
      → row_status w (update_rows x rs) ≡ (if x.user_id == w then x.status else row_status w rs)
  unfolding update_rows
  row_status-update_rows w [] d = elim (Bool-cases (is_offline x.status)) [
    | inl gone ↦ ground (arith, gone, is_offline_lem x.status gone)
    | inr here ↦ ground (arith, here)
  ]
  row_status-update_rows w (r ∷ rs) d = elim (Bool-cases (is_offline x.status)) [
    | inl gone ↦ ground (
      arith,
      gone,
      is_offline_lem x.status gone,
      unlisted-offline r.user_id rs d.0,
      row_status-update_rows w rs d.1,
    )
    | inr here ↦ ground (arith, here, row_status-update_rows w rs d.1)
  ]
