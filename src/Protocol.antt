-- ===== src/Protocol.antt =====
-- common/include/protocol.h and common/src/protocol.cpp: message types, statuses, ships.
-- A C enum that is filled from a byte of the wire (ship type, orientation) stays a number, since
-- the program casts any byte to it; the others are data types.
use networkprogramming_battl.Base.{ℕ, ◌==◌, if◌then◌else◌, ℤ, Bool}

pub data PlayerStatus : Type 0 where
  offline online available in_game busy : PlayerStatus

pub data GameResult : Type 0 where
  win loss draw : GameResult

pub data MatchEndReason : Type 0 where
  normal resign disconnect timeout draw_agreed : MatchEndReason

pub data ShotResult : Type 0 where
  miss hit sunk : ShotResult

-- ShipType, as the byte that it is
abbrev pub carrier : ℕ
carrier = 0

abbrev pub battleship : ℕ
battleship = 1

abbrev pub cruiser : ℕ
cruiser = 2

abbrev pub submarine : ℕ
submarine = 3

abbrev pub destroyer : ℕ
destroyer = 4

-- Orientation, as the byte that it is
abbrev pub horizontal : ℕ
horizontal = 0

abbrev pub vertical : ℕ
vertical = 1

-- the two int8_t fields, as the integers that they stand for
pub record Coordinate : Type 0 where
  pub row : ℤ
  pub col : ℤ

pub record Ship : Type 0 where
  pub type : ℕ
  pub orientation : ℕ
  pub position : Coordinate
  pub length : ℕ
  pub hits : ℕ
  pub is_sunk : Bool

abbrev pub get_ship_length : ℕ → ℕ
get_ship_length type =
    if type == carrier
    then 5
    else if type == battleship
    then 4
    else if type == cruiser
    then 3
    else if type == submarine
    then 3
    else if type == destroyer
    then 2
    else 0
