-- ===== src/Connection/Tests.antt =====
-- The theorems on connections at a message of three bytes.
use networkprogramming_battl.Base.{
  ℕ, ◌≤◌, true, false, ◌≡◌, ◌⊎◌, ◌↔◌, refl, some, List, [], ◌∷◌, ◌++◌, length, arith,
}
use networkprogramming_battl.Connection.{
  Connection, MessageHeader, Outcome, passes, interrupted, fails, Result, Layout, max_message_size,
  disconnect, send_loop, send_data, send_message, receive_loop, receive_data, receive_payload,
  receive_message,
}
use networkprogramming_battl.Connection.Framing.{IsUp, IsFramed, send-receive}
use networkprogramming_battl.Connection.Failures.{send_data-prefix, receive_message_ends}

abbrev no_header : MessageHeader
no_header = record { type = 0; length = 0; timestamp = 0; session_token = [] }

-- One number for each field, and a token of two.
abbrev decode_fields : List ℕ → MessageHeader
decode_fields (a ∷ b ∷ c ∷ token) = record {
  type = a;
  length = b;
  timestamp = c;
  session_token = token;
}
decode_fields _ = no_header

abbrev layout : Layout
layout = record {
  encode = λ h. h.type ∷ h.length ∷ h.timestamp ∷ h.session_token;
  decode = decode_fields;
  size = 5;
}

abbrev line : Connection
line = record { socket_open = true; connected = true; bytes_sent = 0; bytes_received = 0 }

line-IsUp : IsUp line
line-IsUp = record { connected = refl; socket_open = refl }

abbrev header : MessageHeader
header = record { type = 40; length = 3; timestamp = 9; session_token = 7 ∷ 7 ∷ [] }

header-IsFramed : IsFramed layout header (1 ∷ 2 ∷ 3 ∷ [])
header-IsFramed = record { size = refl; decodes = refl; announced = refl; bounded = omega arith }

abbrev pieces : List Outcome
pieces =
    passes 2
    ∷ interrupted
    ∷ passes 1
    ∷ passes 9
    ∷ passes 1
    ∷ passes 1
    ∷ passes 1
    ∷ passes 1
    ∷ passes 1
    ∷ []

send-receive_example :
    (sent got : Result) × (send_message layout line header (1 ∷ 2 ∷ 3 ∷ []) (66 ∷ []) [] pieces
      ≡ some sent)
    × (sent.ok ≡ true)
    × (receive_message layout line (sent.wire ++ 40 ∷ []) pieces ≡ some (got, header))
    × (got.ok ≡ true)
    × (got.received ≡ 1 ∷ 2 ∷ 3 ∷ [])
    × (got.wire ≡ 40 ∷ [])
send-receive_example =
    send-receive layout line line header (1 ∷ 2 ∷ 3 ∷ []) (66 ∷ []) (40 ∷ []) pieces pieces
      line-IsUp line-IsUp header-IsFramed (ground arith) (ground arith) (omega arith) (omega arith)

abbrev cut_off : Result
cut_off = record {
  connection = record line { connected = false; socket_open = false; bytes_sent = 2 };
  ok = false;
  received = [];
  wire = 5 ∷ 1 ∷ 2 ∷ [];
  left = [];
}

send_data-prefix_example :
    (put : List ℕ) × (rest : List ℕ) × (cut_off.wire ≡ (5 ∷ []) ++ put)
    × (put ++ rest ≡ 1 ∷ 2 ∷ 3 ∷ [])
    × ((cut_off.ok ≡ true) ↔ (rest ≡ []))
unfolding send_data send_loop disconnect
send_data-prefix_example =
    send_data-prefix line (1 ∷ 2 ∷ 3 ∷ []) (5 ∷ []) (passes 2 ∷ fails ∷ []) cut_off line-IsUp refl

abbrev too_long : MessageHeader
too_long = record header { length = 5000 }

abbrev refused : Result
refused = record {
  connection = record line { connected = false; socket_open = false; bytes_received = 5 };
  ok = false;
  received = layout.encode too_long;
  wire = 1 ∷ 2 ∷ [];
  left = [];
}

receive_message_ends_example :
    ((refused.ok ≡ true)
      × (length refused.received ≡ too_long.length)
      × (too_long.length ≤ max_message_size)
      × IsUp refused.connection)
    ⊎ ((refused.ok ≡ false) × (refused.connection.connected ≡ false))
unfolding receive_message receive_payload receive_data receive_loop disconnect
receive_message_ends_example =
    receive_message_ends layout line (layout.encode too_long ++ 1 ∷ 2 ∷ []) (passes 5 ∷ []) refused
      too_long line-IsUp refl
