-- ===== src/Connection/Failures.antt =====
-- What is left when a send or a receipt fails.
use mathlib.Core.List.{append-nil, append_assoc}
use networkprogramming_battl.Base.{
  ℕ, zero, suc, ◌+◌, ◌-◌, ◌≤◌, ltb, if◌then◌else◌, Bool-cases, Option-cases, inl, inr, true, false,
  ◌≡◌, ◌↔◌, refl, sym, ap, ◌∙◌, subst, Option, none, some, List, [], ◌∷◌, ◌++◌, length, take, drop,
  take-drop, length-append, length-take_le, ◌⊎◌, zero-add, arith,
}
use networkprogramming_battl.Connection.{
  Connection, MessageHeader, Outcome, passes, interrupted, bad_descriptor, fails, Result, Layout,
  disconnect, count_sent, count_received, failed, send_loop, receive_loop, send_data, receive_data,
  receive_payload, receive_message, max_message_size,
}
use networkprogramming_battl.Connection.Framing.{IsUp}

-- How much of a text a call has put on the wire.
abbrev Puts : List ℕ → List ℕ → Result → Type 0
Puts text wire r =
    (put : List ℕ) × (rest : List ℕ) × (r.wire ≡ wire ++ put)
    × (put ++ rest ≡ text)
    × ((r.ok ≡ true) ↔ (rest ≡ []))

abbrev result_of : Result → Option Result → Result
result_of r none = r
result_of r (some x) = x

stopped :
    (c : Connection) (b : ℕ) (bs wire : List ℕ) (outs : List Outcome) (r : Result)
    → failed c wire outs ≡ some r
    → Puts (b ∷ bs) wire r
stopped c b bs wire outs r e =
    subst (λ x. Puts (b ∷ bs) wire x) (ap (result_of r) e)
      (
        [],
        b ∷ bs,
        sym (append-nil wire),
        refl,
        (λ f. absurd (ground (arith, f)), λ f. absurd (ground (arith, f))),
      )

send_loop-prefix :
    (outs : List Outcome) (c : Connection) (text wire : List ℕ) (r : Result)
    → send_loop c text wire outs ≡ some r
    → Puts text wire r
unfolding send_loop
send_loop-prefix outs c [] wire r e =
    let e' = ap (result_of r) (sym e) in
    ([], [], ap (λ x. x.wire) e' ∙ sym (append-nil wire), refl, (λ _. refl, λ _. ap (λ x. x.ok) e'))
send_loop-prefix [] c (b ∷ bs) wire r e = absurd (ground (arith, e))
send_loop-prefix (passes zero ∷ outs) c (b ∷ bs) wire r e =
    stopped (disconnect c) b bs wire outs r e
send_loop-prefix (passes (suc n) ∷ outs) c (b ∷ bs) wire r e =
    let h =
      send_loop-prefix outs (count_sent c (suc (length (take n bs)))) (drop n bs)
        (wire ++ b ∷ take n bs) r e in
    (
      b ∷ take n bs ++ h.0,
      h.1,
      h.2 ∙ append_assoc wire (b ∷ take n bs) h.0,
      ap (λ l. b ∷ l)
          (append_assoc (take n bs) h.0 h.1 ∙ (ap (λ l. take n bs ++ l) h.3 ∙ take-drop n bs)),
      h.4,
    )
send_loop-prefix (interrupted ∷ outs) c (b ∷ bs) wire r e =
    send_loop-prefix outs c (b ∷ bs) wire r e
send_loop-prefix (bad_descriptor ∷ outs) c (b ∷ bs) wire r e = stopped c b bs wire outs r e
send_loop-prefix (fails ∷ outs) c (b ∷ bs) wire r e = stopped (disconnect c) b bs wire outs r e

-- On a connection that is up, whatever the socket does: what a call of sendData has put on the wire when
-- it returns is a prefix of what it was given, and all of it exactly if the call reports success.
pub send_data-prefix :
    (c : Connection) (text wire : List ℕ) (outs : List Outcome) (r : Result)
    → IsUp c
    → send_data c text wire outs ≡ some r
    → (put : List ℕ) × (rest : List ℕ) × (r.wire ≡ wire ++ put)
      × (put ++ rest ≡ text)
      × ((r.ok ≡ true) ↔ (rest ≡ []))
unfolding send_data
send_data-prefix c text wire outs r up e =
    send_loop-prefix outs c text wire r (simp (up.connected, up.socket_open) at e)

-- What a receipt of so many bytes leaves.
record Receipt (n : ℕ) (r : Result) : Type 0 where
  whole : r.ok ≡ true → length r.received ≡ n
  up : r.ok ≡ true → IsUp r.connection
  closed : r.ok ≡ false → r.connection.connected ≡ false

shut :
    (c : Connection) (n : ℕ) (wire : List ℕ) (outs : List Outcome) (r : Result)
    → IsUp c
    → failed (disconnect c) wire outs ≡ some r
    → Receipt n r
unfolding disconnect
shut c n wire outs r up e = subst (Receipt n) (ap (result_of r) e) (record {
  whole = λ f. absurd (ground (arith, f));
  up = λ f. absurd (ground (arith, f));
  closed = λ _. ground (arith, up.connected);
})

receive_loop-Receipt :
    (outs : List Outcome) (c : Connection) (k : ℕ) (got wire : List ℕ) (r : Result)
    → IsUp c
    → receive_loop c k got wire outs ≡ some r
    → Receipt (length got + k) r
unfolding receive_loop
receive_loop-Receipt outs c zero got wire r up e =
    subst (Receipt (length got + 0)) (ap (result_of r) e)
      (record { whole = λ _. omega arith; up = λ _. up; closed = λ f. absurd (ground (arith, f)) })
receive_loop-Receipt [] c (suc k) got wire r up e = absurd (ground (arith, e))
receive_loop-Receipt (passes zero ∷ outs) c (suc k) got wire r up e = shut c _ wire outs r up e
receive_loop-Receipt (passes (suc n) ∷ outs) c (suc k) got [] r up e = absurd (ground (arith, e))
receive_loop-Receipt (passes (suc n) ∷ outs) c (suc k) got (b ∷ wire) r up e =
    let m = if ltb n k then suc n else suc k in
    let taken = take m (b ∷ wire) in
    let fits : m ≤ suc k = ground arith in
    let total : length (got ++ taken) + (suc k - length taken) ≡ length got + suc k =
      omega (arith, length-append got taken, length-take_le m (b ∷ wire), fits) in
    subst (λ n. Receipt n r) total
      (receive_loop-Receipt outs (count_received c (length taken)) (suc k - length taken)
        (got ++ taken) (drop (length taken) (b ∷ wire)) r
        (record { connected = up.connected; socket_open = up.socket_open }) e)
receive_loop-Receipt (interrupted ∷ outs) c (suc k) got wire r up e =
    receive_loop-Receipt outs c (suc k) got wire r up e
receive_loop-Receipt (bad_descriptor ∷ outs) c (suc k) got wire r up e = shut c _ wire outs r up e
receive_loop-Receipt (fails ∷ outs) c (suc k) got wire r up e = shut c _ wire outs r up e

receive_data-Receipt :
    (c : Connection) (n : ℕ) (wire : List ℕ) (outs : List Outcome) (r : Result)
    → IsUp c
    → receive_data c n wire outs ≡ some r
    → Receipt n r
unfolding receive_data
receive_data-Receipt c n wire outs r up e =
    subst (λ m. Receipt m r) (zero-add n)
      (receive_loop-Receipt outs c n [] wire r up (simp (up.connected, up.socket_open) at e))

-- What the receipt of a whole message leaves.
record Arrival (r : Result) (header : MessageHeader) : Type 0 where
  whole : r.ok ≡ true → length r.received ≡ header.length
  bounded : r.ok ≡ true → header.length ≤ max_message_size
  up : r.ok ≡ true → IsUp r.connection
  closed : r.ok ≡ false → r.connection.connected ≡ false

abbrev pair_of : Result × MessageHeader → Option (Result × MessageHeader) → Result × MessageHeader
pair_of x none = x
pair_of x (some y) = y

receive_payload-Arrival :
    (header header' : MessageHeader) (g r : Result)
    → IsUp g.connection
    → receive_payload header g ≡ some (r, header')
    → Arrival r header'
unfolding receive_payload disconnect
receive_payload-Arrival header header' g r up e =
    let got = receive_data g.connection header.length g.wire g.left in
    elim (Bool-cases (ltb max_message_size header.length)) [
      | inl big ↦
          subst (λ x. Arrival x.0 x.1) (ap (pair_of (r, header')) (simp big at e))
            (record {
              whole = λ f. absurd (ground (arith, f));
              bounded = λ f. absurd (ground (arith, f));
              up = λ f. absurd (ground (arith, f));
              closed = λ _. ground (arith, up.connected);
            })
      | inr small ↦ elim (Option-cases got) [
        | inl n ↦ absurd (ground (arith, simp (small, n) at e))
        | inr (x, n) ↦
            let h = receive_data-Receipt g.connection header.length g.wire g.left x up n in
            subst (λ y. Arrival y.0 y.1) (ap (pair_of (r, header')) (simp (small, n) at e))
              (record {
                whole = h.whole;
                bounded = λ _. ground (arith, small);
                up = h.up;
                closed = h.closed;
              })
      ]
    ]

-- Whatever the socket of a connection that is up does: when receiveMessage returns, it has either
-- succeeded, with a payload as long as the header says, at most 4096 bytes, and the connection up,
-- or the connection is closed.
pub receive_message_ends :
    (layout : Layout) (c : Connection) (wire : List ℕ) (outs : List Outcome) (r : Result)
    (header : MessageHeader)
    → IsUp c
    → receive_message layout c wire outs ≡ some (r, header)
    → ((r.ok ≡ true)
        × (length r.received ≡ header.length)
        × (header.length ≤ max_message_size)
        × IsUp r.connection)
      ⊎ ((r.ok ≡ false) × (r.connection.connected ≡ false))
unfolding receive_message
receive_message_ends layout c wire outs r header up e =
    let got = receive_data c layout.size wire outs in
    let a : Arrival r header = elim (Option-cases got) [
      | inl n ↦ absurd (ground (arith, simp (up.connected, n) at e))
      | inr (x, n) ↦
          let h = receive_data-Receipt c layout.size wire outs x up n in
          elim (Bool-cases x.ok) [
            | inl ok ↦
                receive_payload-Arrival (layout.decode x.received) header x r (h.up ok)
                  (simp (up.connected, n, ok) at e)
            | inr bad ↦
                subst (λ y. Arrival y.0 y.1)
                  (ap (pair_of (r, header)) (simp (up.connected, n, bad) at e))
                  (record {
                    whole = λ f. absurd (ground (arith, f, bad));
                    bounded = λ f. absurd (ground (arith, f, bad));
                    up = λ f. absurd (ground (arith, f, bad));
                    closed = h.closed;
                  })
          ]
    ] in
    elim (Bool-cases r.ok) [
      | inl ok ↦ inl (ok, a.whole ok, a.bounded ok, a.up ok)
      | inr bad ↦ inr (bad, a.closed bad)
    ]
