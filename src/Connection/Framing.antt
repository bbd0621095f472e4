-- ===== src/Connection/Framing.antt =====
-- A message arrives as it was sent, in whatever pieces the sockets of both ends move it.
use mathlib.Core.List.{append-nil, append_assoc}
use networkprogramming_battl.Base.{
  ℕ, zero, suc, ◌+◌, ◌-◌, ◌≤◌, ◌<◌, ltb, if◌then◌else◌, Bool, true, false, not, ◌&&◌, ◌≡◌, refl,
  sym, ap, ◌∙◌, subst, Option, some, List, [], ◌∷◌, ◌++◌, All, length, take, drop, take-append,
  drop-append, take-drop, take_whole, length-take, length-take-drop, arith,
}
use networkprogramming_battl.Connection.{
  Connection, MessageHeader, Outcome, passes, interrupted, bad_descriptor, fails, Result, Layout,
  count_sent, count_received, succeeded, send_loop, receive_loop, send_data, receive_data,
  send_message, receive_payload, receive_message, max_message_size, is_empty,
}

-- A call that moves something or is interrupted, and the number of calls that move something.
abbrev pub moves : Outcome → Bool
moves (passes (suc n)) = true
moves interrupted = true
moves _ = false

abbrev pub count : List Outcome → ℕ
count [] = 0
count (passes n ∷ outs) = suc (count outs)
count (_ ∷ outs) = count outs

abbrev pub AllMove : List Outcome → Type 0
AllMove outs = All (λ o. moves o ≡ true) outs

-- The connection stays up, and what the socket will do is enough for as much again.
pub record Continues (c : Connection) (had n : ℕ) (c' : Connection) (outs' : List Outcome)
    : Type 0 where
  pub all_move : AllMove outs'
  pub enough : had ≤ count outs' + n
  pub connected : c'.connected ≡ c.connected
  pub socket_open : c'.socket_open ≡ c.socket_open

stays : (c : Connection) (outs : List Outcome) → AllMove outs → Continues c (count outs) 0 c outs
stays c outs all = record {
  all_move = all;
  enough = omega arith;
  connected = refl;
  socket_open = refl;
}

send_loop_lem :
    (outs : List Outcome) (c : Connection) (text wire : List ℕ)
    → AllMove outs
    → length text ≤ count outs
    → (c' : Connection) × (outs' : List Outcome) × (send_loop c text wire outs
        ≡ succeeded c' [] (wire ++ text) outs')
      × Continues c (count outs) (length text) c' outs'
unfolding send_loop
send_loop_lem outs c [] wire all enough = (c, outs, rw (append-nil wire) refl, stays c outs all)
send_loop_lem [] c (b ∷ bs) wire all enough = absurd (omega (arith, enough))
send_loop_lem (interrupted ∷ outs) c (b ∷ bs) wire all enough =
    send_loop_lem outs c (b ∷ bs) wire all.1 enough
send_loop_lem (passes zero ∷ outs) c (b ∷ bs) wire all enough = absurd (ground (arith, all))
send_loop_lem (passes (suc n) ∷ outs) c (b ∷ bs) wire all enough =
    let shorter = length-take-drop n bs in
    let h =
      send_loop_lem outs (count_sent c (suc (length (take n bs)))) (drop n bs)
        (wire ++ b ∷ take n bs) all.1 (omega (arith, enough, shorter)) in
    (
      h.0,
      h.1,
      h.2
          ∙ ap (λ w. succeeded h.0 [] w h.1)
              (append_assoc wire (b ∷ take n bs) (drop n bs)
                ∙ ap (λ l. wire ++ b ∷ l) (take-drop n bs)),
      record {
        all_move = h.3.all_move;
        enough = omega (arith, h.3.enough, shorter);
        connected = h.3.connected;
        socket_open = h.3.socket_open;
      },
    )
send_loop_lem (bad_descriptor ∷ outs) c (b ∷ bs) wire all enough = absurd (ground (arith, all))
send_loop_lem (fails ∷ outs) c (b ∷ bs) wire all enough = absurd (ground (arith, all))

-- One call of recv, where the bytes that are wanted are on the way.
receive_step :
    (c : Connection) (k n : ℕ) (got text more : List ℕ) (outs : List Outcome)
    → length text ≡ suc k
    → let m = if ltb n k then suc n else suc k in
      receive_loop c (suc k) got (text ++ more) (passes (suc n) ∷ outs)
      ≡ receive_loop
          (count_received c m)
          (suc k - m)
          (got ++ take m text)
          (drop m text ++ more)
          outs
unfolding receive_loop
receive_step c k n got [] more outs e = absurd (omega (arith, e))
receive_step c k n got (b ∷ text) more outs e =
    let m = if ltb n k then suc n else suc k in
    let fits : m ≤ length (b ∷ text) = ground (arith, e) in
    let all = (b ∷ text) ++ more in
    ap
      (λ t.
        receive_loop (count_received c (length t)) (suc k - length t) (got ++ t)
          (drop (length t) all) outs)
      (take-append m (b ∷ text) more fits)
    ∙ (ap
          (λ i.
            receive_loop (count_received c i) (suc k - i) (got ++ take m (b ∷ text)) (drop i all)
              outs)
          (length-take m (b ∷ text) fits)
        ∙ ap (λ w. receive_loop (count_received c m) (suc k - m) (got ++ take m (b ∷ text)) w outs)
            (drop-append m (b ∷ text) more fits))

receive_loop_lem :
    (outs : List Outcome) (c : Connection) (k : ℕ) (got text more : List ℕ)
    → length text ≡ k
    → AllMove outs
    → k ≤ count outs
    → (c' : Connection) × (outs' : List Outcome) × (receive_loop c k got (text ++ more) outs
        ≡ succeeded c' (got ++ text) more outs')
      × Continues c (count outs) k c' outs'
unfolding receive_loop
receive_loop_lem outs c zero got [] more e all enough =
    (c, outs, rw (append-nil got) refl, stays c outs all)
receive_loop_lem outs c zero got (b ∷ text) more e all enough = absurd (omega (arith, e))
receive_loop_lem [] c (suc k) got text more e all enough = absurd (omega (arith, enough))
receive_loop_lem (interrupted ∷ outs) c (suc k) got text more e all enough =
    receive_loop_lem outs c (suc k) got text more e all.1 enough
receive_loop_lem (passes zero ∷ outs) c (suc k) got text more e all enough =
    absurd (ground (arith, all))
receive_loop_lem (passes (suc n) ∷ outs) c (suc k) got text more e all enough =
    let m = if ltb n k then suc n else suc k in
    let fits : m ≤ suc k = ground arith in
    let some_taken : 0 < m = ground arith in
    let fits' : m ≤ length text = omega (arith, fits, e) in
    let rest : length (drop m text) ≡ suc k - m =
      omega (arith, length-take-drop m text, length-take m text fits', e) in
    let h =
      receive_loop_lem outs (count_received c m) (suc k - m) (got ++ take m text) (drop m text) more
        rest all.1 (omega (arith, enough, some_taken)) in
    (
      h.0,
      h.1,
      receive_step c k n got text more outs e
          ∙ (h.2
              ∙ ap (λ w. succeeded h.0 w more h.1)
                  (append_assoc got (take m text) (drop m text)
                    ∙ ap (λ l. got ++ l) (take-drop m text))),
      record {
        all_move = h.3.all_move;
        enough = omega (arith, h.3.enough, some_taken, fits);
        connected = h.3.connected;
        socket_open = h.3.socket_open;
      },
    )
receive_loop_lem (bad_descriptor ∷ outs) c (suc k) got text more e all enough =
    absurd (ground (arith, all))
receive_loop_lem (fails ∷ outs) c (suc k) got text more e all enough = absurd (ground (arith, all))

pub record IsUp (c : Connection) : Type 0 where
  pub connected : c.connected ≡ true
  pub socket_open : c.socket_open ≡ true

Continues-IsUp :
    (c c' : Connection) (had n : ℕ) (outs : List Outcome)
    → Continues c had n c' outs
    → IsUp c
    → IsUp c'
Continues-IsUp c c' had n outs s u = record {
  connected = s.connected ∙ u.connected;
  socket_open = s.socket_open ∙ u.socket_open;
}

send_data_lem :
    (outs : List Outcome) (c : Connection) (text wire : List ℕ)
    → IsUp c
    → AllMove outs
    → length text ≤ count outs
    → (c' : Connection) × (outs' : List Outcome) × (send_data c text wire outs
        ≡ succeeded c' [] (wire ++ text) outs')
      × Continues c (count outs) (length text) c' outs'
unfolding send_data
send_data_lem outs c text wire up all enough =
    let h = send_loop_lem outs c text wire all enough in
    (h.0, h.1, simp (up.connected, up.socket_open) h.2, h.3)

receive_data_lem :
    (outs : List Outcome) (c : Connection) (text more : List ℕ)
    → IsUp c
    → AllMove outs
    → length text ≤ count outs
    → (c' : Connection) × (outs' : List Outcome) × (receive_data c (length text) (text ++ more) outs
        ≡ succeeded c' text more outs')
      × Continues c (count outs) (length text) c' outs'
unfolding receive_data
receive_data_lem outs c text more up all enough =
    let h = receive_loop_lem outs c (length text) [] text more refl all enough in
    (h.0, h.1, simp (up.connected, up.socket_open) h.2, h.3)

-- The header fits the layout and announces the payload, which is not too long.
pub record IsFramed (layout : Layout) (header : MessageHeader) (payload : List ℕ) : Type 0 where
  pub size : length (layout.encode header) ≡ layout.size
  pub decodes : layout.decode (layout.encode header) ≡ header
  pub announced : header.length ≡ length payload
  pub bounded : length payload ≤ max_message_size

whole_payload :
    (n b : ℕ) (bs behind wire : List ℕ) (outs : List Outcome) (c : Connection)
    (otherwise : Option Result)
    → n ≡ suc (length bs)
    → (if ltb 0 n && true then send_data c (take n ((b ∷ bs) ++ behind)) wire outs else otherwise)
      ≡ send_data c (b ∷ bs) wire outs
whole_payload n b bs behind wire outs c otherwise e = rw (e, take_whole bs behind) (ground arith)

announced_payload :
    (header : MessageHeader) (r got : Result) (n : ℕ)
    → header.length ≡ n
    → n ≤ max_message_size
    → receive_data r.connection n r.wire r.left ≡ some got
    → receive_payload header r ≡ some (got, header)
unfolding receive_payload
announced_payload header r got n e small done =
    let fits : ltb max_message_size n ≡ false = ground (arith, small) in rw (e, fits, done) refl

module _ (layout : Layout) (c : Connection) (header : MessageHeader) (up : IsUp c) where
  -- Where the header is through, the payload follows.
  send_message_eq :
      (payload behind wire wire' : List ℕ) (outs outs' : List Outcome) (c' : Connection)
      → send_data c (layout.encode header) wire outs ≡ succeeded c' [] wire' outs'
      → send_message layout c header payload behind wire outs ≡ (
          if ltb 0 header.length && not (is_empty payload)
          then send_data c' (take header.length (payload ++ behind)) wire' outs'
          else succeeded c' [] wire' outs')
  unfolding send_message
  send_message_eq payload behind wire wire' outs outs' c' e = simp (up.connected, e) refl

  send_message_lem :
      (payload behind wire : List ℕ) (outs : List Outcome)
      → IsFramed layout header payload
      → AllMove outs
      → layout.size + length payload ≤ count outs
      → (sent : Result) × (send_message layout c header payload behind wire outs ≡ some sent)
        × (sent.ok ≡ true)
        × (sent.wire ≡ (wire ++ layout.encode header) ++ payload)
  send_message_lem [] behind wire outs framed all enough =
      let h =
        send_data_lem outs c (layout.encode header) wire up all
          (omega (arith, enough, framed.size)) in
      let eq = send_message_eq [] behind wire (wire ++ layout.encode header) outs h.1 h.0 h.2 in
      (
        record {
          connection = h.0;
          ok = true;
          received = [];
          wire = wire ++ layout.encode header;
          left = h.1;
        },
        eq ∙ ground arith,
        refl,
        sym (append-nil _),
      )
  send_message_lem (b ∷ bs) behind wire outs framed all enough =
      let h =
        send_data_lem outs c (layout.encode header) wire up all
          (omega (arith, enough, framed.size)) in
      let eq =
        send_message_eq (b ∷ bs) behind wire (wire ++ layout.encode header) outs h.1 h.0 h.2 in
      let h' =
        send_data_lem h.1 h.0 (b ∷ bs) (wire ++ layout.encode header)
          (Continues-IsUp c h.0 _ _ _ h.3 up) h.3.all_move
          (omega (arith, enough, framed.size, h.3.enough)) in
      (
        record {
          connection = h'.0;
          ok = true;
          received = [];
          wire = (wire ++ layout.encode header) ++ b ∷ bs;
          left = h'.1;
        },
        eq ∙ (whole_payload header.length b bs behind _ h.1 h.0 _ framed.announced ∙ h'.2),
        refl,
        refl,
      )

  receive_message_eq :
      (wire wire' got : List ℕ) (outs outs' : List Outcome) (c' : Connection)
      → receive_data c layout.size wire outs ≡ succeeded c' got wire' outs'
      → receive_message layout c wire outs
        ≡ receive_payload
            (layout.decode got)
            (record { connection = c'; ok = true; received = got; wire = wire'; left = outs' })
  unfolding receive_message
  receive_message_eq wire wire' got outs outs' c' e = simp (up.connected, e) refl

  receive_message_lem :
      (payload more : List ℕ) (outs : List Outcome)
      → IsFramed layout header payload
      → AllMove outs
      → layout.size + length payload ≤ count outs
      → (got : Result) × (receive_message layout c (layout.encode header ++ (payload ++ more)) outs
          ≡ some (got, header))
        × (got.ok ≡ true)
        × (got.received ≡ payload)
        × (got.wire ≡ more)
  receive_message_lem payload more outs framed all enough =
      let h =
        receive_data_lem outs c (layout.encode header) (payload ++ more) up all
          (omega (arith, enough, framed.size)) in
      let h' =
        receive_data_lem h.1 h.0 payload more (Continues-IsUp c h.0 _ _ _ h.3 up) h.3.all_move
          (omega (arith, enough, framed.size, h.3.enough)) in
      let eq =
        receive_message_eq (layout.encode header ++ (payload ++ more)) (payload ++ more)
          (layout.encode header) outs h.1 h.0
          (subst
            (λ n.
              receive_data c n (layout.encode header ++ (payload ++ more)) outs
              ≡ succeeded h.0 (layout.encode header) (payload ++ more) h.1)
            framed.size h.2) in
      (
        record { connection = h'.0; ok = true; received = payload; wire = more; left = h'.1 },
        eq
            ∙ (ap
                  (λ hd. receive_payload hd (record {
                    connection = h.0;
                    ok = true;
                    received = layout.encode header;
                    wire = payload ++ more;
                    left = h.1;
                  }))
                  framed.decodes
                ∙ announced_payload header _ _ (length payload) framed.announced framed.bounded
                    h'.2),
        refl,
        refl,
        refl,
      )

-- A message whose header fits the layout and announces its payload, which is not too long, is sent
-- on a connection that is up, and received on one that is up, where the sockets move at least one
-- byte in as many calls as there are bytes, with interruptions in between: both succeed, the payload
-- and the header arrive, and what comes behind the message stays on the way.
pub send-receive :
    (layout : Layout) (a b : Connection) (header : MessageHeader) (payload behind more : List ℕ)
    (outs ins : List Outcome)
    → IsUp a
    → IsUp b
    → IsFramed layout header payload
    → AllMove outs
    → AllMove ins
    → layout.size + length payload ≤ count outs
    → layout.size + length payload ≤ count ins
    → (sent got : Result) × (send_message layout a header payload behind [] outs ≡ some sent)
      × (sent.ok ≡ true)
      × (receive_message layout b (sent.wire ++ more) ins ≡ some (got, header))
      × (got.ok ≡ true)
      × (got.received ≡ payload)
      × (got.wire ≡ more)
send-receive layout a b header payload behind more outs ins up up' framed all all' enough enough' =
    let s = send_message_lem layout a header up payload behind [] outs framed all enough in
    let g = receive_message_lem layout b header up' payload more ins framed all' enough' in
    (
      s.0,
      g.0,
      s.1,
      s.2,
      ap (λ w. receive_message layout b w ins)
            (ap (λ w. w ++ more) s.3 ∙ append_assoc (layout.encode header) payload more)
          ∙ g.1,
      g.2,
      g.3,
      g.4,
    )
