-- ===== src/Connection.antt =====
-- ClientConnection (server/include/client_connection.h, server/src/client_connection.cpp): messages
-- with their header over a socket. The bytes on the way are a list; what each call of send and recv
-- does is an argument. Where these run out, or no byte is there to be received, the call waits: that
-- is `none`. What a connection knows of its user is Client in Accounts.
pub mod Framing
pub mod Failures
mod Tests
use networkprogramming_battl.Base.{
  ℕ, zero, suc, ◌+◌, ◌-◌, ◌%◌, ◌^◌, ltb, not, if◌then◌else◌, Bool, true, false, ◌&&◌, ◌||◌, Option,
  none, some, List, [], ◌∷◌, ◌++◌, length, take, drop, ◌>>=◌,
}

pub record MessageHeader : Type 0 where
  pub type : ℕ
  pub length : ℕ
  pub timestamp : ℕ
  pub session_token : List ℕ

pub record Connection : Type 0 where
  pub socket_open : Bool
  pub connected : Bool
  pub bytes_sent : ℕ
  pub bytes_received : ℕ

-- What one call does: it moves up to so many bytes, is interrupted, or fails.
pub data Outcome : Type 0 where
  passes : ℕ → Outcome
  interrupted bad_descriptor fails : Outcome

-- After a call: whether it succeeded, the bytes on the way, those that were received, and what the
-- socket will do next.
pub record Result : Type 0 where
  pub connection : Connection
  pub ok : Bool
  pub received : List ℕ
  pub wire : List ℕ
  pub left : List Outcome

abbrev pub max_message_size : ℕ
max_message_size = 4096

unfoldable pub disconnect : Connection → Connection
disconnect c = if c.connected then record c { connected = false; socket_open = false } else c

abbrev pub succeeded : Connection → List ℕ → List ℕ → List Outcome → Option Result
succeeded c got wire left =
    some (record { connection = c; ok = true; received = got; wire = wire; left = left })

abbrev pub failed : Connection → List ℕ → List Outcome → Option Result
failed c wire left =
    some (record { connection = c; ok = false; received = []; wire = wire; left = left })

abbrev pub count_sent : Connection → ℕ → Connection
count_sent c n = record c { bytes_sent = (c.bytes_sent + n) % 2 ^ 64 }

abbrev pub count_received : Connection → ℕ → Connection
count_received c n = record c { bytes_received = (c.bytes_received + n) % 2 ^ 64 }

-- the loop of sendData over the bytes that are left
unfoldable pub send_loop : Connection → List ℕ → List ℕ → List Outcome → Option Result
unfolding disconnect
send_loop c [] wire outs = succeeded c [] wire outs
send_loop c (b ∷ bs) wire [] = none
send_loop c (b ∷ bs) wire (passes zero ∷ outs) = failed (disconnect c) wire outs
send_loop c (b ∷ bs) wire (passes (suc n) ∷ outs) =
    let taken = take (suc n) (b ∷ bs) in
    send_loop (count_sent c (length taken)) (drop (suc n) (b ∷ bs)) (wire ++ taken) outs
send_loop c (b ∷ bs) wire (interrupted ∷ outs) = send_loop c (b ∷ bs) wire outs
send_loop c (b ∷ bs) wire (bad_descriptor ∷ outs) = failed c wire outs
send_loop c (b ∷ bs) wire (fails ∷ outs) = failed (disconnect c) wire outs

unfoldable pub send_data : Connection → List ℕ → List ℕ → List Outcome → Option Result
unfolding send_loop
send_data c text wire outs =
    if not c.connected || not c.socket_open then failed c wire outs else send_loop c text wire outs

-- the loop of receiveData, with the number of bytes that are missing
unfoldable pub receive_loop : Connection → ℕ → List ℕ → List ℕ → List Outcome → Option Result
unfolding disconnect
receive_loop c zero got wire outs = succeeded c got wire outs
receive_loop c (suc k) got wire [] = none
receive_loop c (suc k) got wire (passes zero ∷ outs) = failed (disconnect c) wire outs
receive_loop c (suc k) got [] (passes (suc n) ∷ outs) = none
receive_loop c (suc k) got (b ∷ wire) (passes (suc n) ∷ outs) =
    let taken = take (if ltb n k then suc n else suc k) (b ∷ wire) in
    receive_loop (count_received c (length taken)) (suc k - length taken) (got ++ taken)
      (drop (length taken) (b ∷ wire)) outs
receive_loop c (suc k) got wire (interrupted ∷ outs) = receive_loop c (suc k) got wire outs
receive_loop c (suc k) got wire (bad_descriptor ∷ outs) = failed (disconnect c) wire outs
receive_loop c (suc k) got wire (fails ∷ outs) = failed (disconnect c) wire outs

unfoldable pub receive_data : Connection → ℕ → List ℕ → List Outcome → Option Result
unfolding receive_loop
receive_data c size wire outs =
    if not c.connected || not c.socket_open
    then failed c wire outs
    else receive_loop c size [] wire outs

abbrev pub is_empty : List ℕ → Bool
is_empty [] = true
is_empty (x ∷ xs) = false

-- The layout of the header in memory is the compiler's.
pub record Layout : Type 0 where
  pub encode : MessageHeader → List ℕ
  pub decode : List ℕ → MessageHeader
  pub size : ℕ

-- As many bytes are sent as the header says: where the payload has fewer, what lies behind it in
-- memory follows.
unfoldable pub send_message :
    Layout → Connection → MessageHeader → List ℕ → List ℕ → List ℕ → List Outcome → Option Result
send_message layout c header payload behind wire outs =
    if not c.connected then failed c wire outs else do
      sent ← send_data c (layout.encode header) wire outs
      if sent.ok && (ltb 0 header.length && not (is_empty payload))
          then send_data sent.connection (take header.length (payload ++ behind)) sent.wire
              sent.left
          else some sent

unfoldable pub receive_payload : MessageHeader → Result → Option (Result × MessageHeader)
unfolding disconnect
receive_payload header r =
    if ltb max_message_size header.length
    then some (record r { ok = false; connection = disconnect r.connection }, header)
    else do got ← receive_data r.connection header.length r.wire r.left; some (got, header)

-- The header and, among the bytes received, the payload. A failed receipt of the header leaves the
-- header of the caller, here the decoding of nothing.
unfoldable pub receive_message :
    Layout → Connection → List ℕ → List Outcome → Option (Result × MessageHeader)
receive_message layout c wire outs = do
  got ← (if not c.connected then failed c wire outs else receive_data c layout.size wire outs)
  if got.ok then receive_payload (layout.decode got.received) got else some (got, layout.decode [])
