-- ===== src/Lobby/Dialog.antt =====
-- Which challenge the answer of a dialog goes to (client/src/ui_lobby.cpp, client/src/ui_manager.cpp).
use networkprogramming_battl.Base.{ℕ, ◌==◌, Bool, true, false, none, some, ◌≡◌, arith}
use networkprogramming_battl.Messages.{ChallengeReceived}
use networkprogramming_battl.Protocol.{available}
use networkprogramming_battl.Lobby.{
  Row, Lobby, on_player_selection_changed, on_challenge_clicked, Invitation, on_challenge_received,
  close_dialog, answered_id,
}

-- another screen than the one on which the challenge was kept
abbrev pub change_screen : Invitation → Invitation
change_screen i = record i { screen_challenge_id = some 0 }

module _ (my_id : ℕ) (i : Invitation) (c : ChallengeReceived) (accept : Bool) where
  -- A challenge by someone else, with an id that is not 0, opens a dialog; its answer goes to this
  -- challenge and no other, whether the screen is still the one on which it came in or another,
  -- and then a second answer goes nowhere.
  pub close_dialog-on_challenge_received :
      (my_id == c.challenger_id) ≡ false
      → (c.challenge_id == 0) ≡ false
      → let received = on_challenge_received my_id i c in
        (received.1 ≡ true)
        × ((close_dialog received.0 accept).1 ≡ some (c.challenge_id, accept))
        × ((close_dialog (change_screen received.0) accept).1 ≡ some (c.challenge_id, accept))
        × ((close_dialog (close_dialog received.0 accept).0 accept).1 ≡ none)
  unfolding on_challenge_received close_dialog answered_id
  close_dialog-on_challenge_received other some_id = ground arith

-- Where a second challenge comes in while the dialog of the first is open, and the second dialog,
-- which lies over the first, is answered before it, the first player gets no answer: the answer
-- to the second challenge is sent, and that to the first is not.
pub nested_dialogs :
    (my_id : ℕ) (i : Invitation) (c d : ChallengeReceived) (accept accept' : Bool)
    → (my_id == c.challenger_id) ≡ false
    → (my_id == d.challenger_id) ≡ false
    → (d.challenge_id == 0) ≡ false
    → let both = (on_challenge_received my_id (on_challenge_received my_id i c).0 d).0 in
      let second = close_dialog both accept' in
      let first = close_dialog second.0 accept in
      (second.1 ≡ some (d.challenge_id, accept')) × (first.1 ≡ none)
unfolding on_challenge_received close_dialog answered_id
nested_dialogs my_id i c d accept accept' other other' some_id = ground arith

-- Where the button is enabled after a row with an id that is not 0 is selected, the row is of an
-- available player other than the user, and a press challenges that player, with a time limit of 60.
pub click-selection :
    (my_id : ℕ) (lobby : Lobby) (r : Row)
    → let chosen = on_player_selection_changed my_id lobby (some r) in
      (chosen.challenge_enabled ≡ true)
      → (r.user_id == 0) ≡ false
      → (r.status ≡ available)
        × ((r.user_id == my_id) ≡ false)
        × (on_challenge_clicked chosen
            ≡ some
                (record { target_user_id = r.user_id; time_limit = 60; random_placement = false }))
unfolding on_player_selection_changed on_challenge_clicked
click-selection my_id lobby r enabled some_id = ground arith
