-- ===== src/Store/Matches.antt =====
-- The operations of DatabaseManager on matches, boards and moves (server/src/database.cpp).
use networkprogramming_battl.Base.{
  ℕ, ◌+◌, if◌then◌else◌, ℤ, not, Bool, true, false, ◌&&◌, List, [], ◌∷◌, ◌++◌,
}
use networkprogramming_battl.Base.Text.{bytes}
use networkprogramming_battl.Store.Tables.{
  Store, MatchRow, BoardRow, usable, default_match, select, update_where, has_match_id, is_board_of,
  is_user, is_match,
}

abbrev pub new_match_row : Store → ℕ → ℕ → ℕ → MatchRow
new_match_row d now player1 player2 = record {
  match_id = d.next_match_id;
  player1_id = player1;
  player2_id = player2;
  winner_id = 0;
  status = bytes "waiting";
  created_at = now;
  ended_at = 0;
}

-- both players are FOREIGN KEYs
unfoldable pub create_match : Store → ℕ → ℕ → ℕ → Store × ℕ
create_match d now player1 player2 =
    if not (usable d)
    then (d, 0)
    else if not (is_user d player1 && is_user d player2)
    then (d, 0)
    else (
      record d {
        matches = d.matches ++ new_match_row d now player1 player2 ∷ [];
        next_match_id = d.next_match_id + 1;
      },
      d.next_match_id,
    )

unfoldable pub get_match_by_id : Store → ℕ → MatchRow
get_match_by_id d id =
    if not (usable d) then default_match else select (has_match_id id) default_match d.matches

abbrev pub with_status : List ℕ → MatchRow → MatchRow
with_status status m = record m { status = status }

unfoldable pub update_match_status : Store → ℕ → List ℕ → Store × Bool
update_match_status d id status = if not (usable d) then (d, false) else (
  record d { matches = update_where (has_match_id id) (with_status status) d.matches },
  true,
)

abbrev pub completed : ℕ → ℕ → MatchRow → MatchRow
completed now winner m = record m { status = bytes "completed"; winner_id = winner; ended_at = now }

-- the winner is a FOREIGN KEY, which is checked where a row is updated
unfoldable pub end_match : Store → ℕ → ℕ → ℕ → Store × Bool
end_match d now id winner =
    if not (usable d)
    then (d, false)
    else if is_match d id && not (is_user d winner)
    then (d, false)
    else (
      record d { matches = update_where (has_match_id id) (completed now winner) d.matches },
      true,
    )

-- the match and the user are FOREIGN KEYs
unfoldable pub save_ship_placement : Store → ℕ → ℕ → List ℕ → Store × Bool
save_ship_placement d id user text =
    if not (usable d)
    then (d, false)
    else if not (is_match d id && is_user d user)
    then (d, false)
    else (
      record d {
        boards = d.boards ++ record { match_id = id; user_id = user; ship_data = text } ∷ [];
      },
      true,
    )

abbrev pub no_board : BoardRow
no_board = record { match_id = 0; user_id = 0; ship_data = [] }

unfoldable pub get_ship_placement : Store → ℕ → ℕ → List ℕ
get_ship_placement d id user =
    if not (usable d) then [] else (select (is_board_of id user) no_board d.boards).ship_data

-- the match and the player are FOREIGN KEYs
unfoldable pub save_move : Store → ℕ → ℕ → ℕ → ℕ → ℤ → ℤ → List ℕ → Store × Bool
save_move d now id player number x y result =
    if not (usable d)
    then (d, false)
    else if not (is_match d id && is_user d player)
    then (d, false)
    else (
      record d {
        moves =
            d.moves
            ++ record {
              match_id = id;
              player_id = player;
              move_number = number;
              x = x;
              y = y;
              result = result;
              timestamp = now;
            }
              ∷ [];
      },
      true,
    )
