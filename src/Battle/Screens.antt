-- ===== src/Battle/Screens.antt =====
-- The turn, the match and the screen, where games against the server and against the computer meet.
use networkprogramming_battl.Base.{◌≢◌, true, false, ◌&&◌, ◌≡◌, refl, ap, none, some, arith}
use networkprogramming_battl.Messages.{MatchStateMessage, TurnUpdateMessage}
use networkprogramming_battl.Network.{Network}
use networkprogramming_battl.Battle.{Ui, is_online, on_match_ready, on_turn_update}

-- A TURN_UPDATE gives the turn to at most one of two clients with different users; the MATCH_READY of a
-- match gives it to both, whoever of them the message names.
pub both_start :
    (u v : Ui) (m : MatchStateMessage) (t : TurnUpdateMessage)
    → u.network.user_id ≢ v.network.user_id
    → (((on_turn_update u t).is_player_turn && (on_turn_update v t).is_player_turn) ≡ false)
      × ((on_match_ready u m).is_player_turn ≡ true)
      × ((on_match_ready v m).is_player_turn ≡ true)
unfolding on_turn_update on_match_ready
both_start u v m t n = (ground (arith, n), refl, refl)

pub some_injective : {u u' : Ui} → some u ≡ some u' → u ≡ u'
some_injective {u} e = ap (λ o. elim o [ none ↦ u | some x ↦ x ]) e

-- A game against the computer opponent that follows a match of this connection.
pub record IsStale (u : Ui) : Type 0 where
  pub bot : u.is_bot_mode ≡ true
  pub online : is_online u ≡ true
  pub unshot : u.shots_fired ≡ 0
  pub unhit : u.hits_count ≡ 0
