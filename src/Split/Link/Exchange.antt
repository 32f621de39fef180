-- ===== src/Split/Link/Exchange.antt =====
-- A message between two nodes, from `upper_send` to the queue of the upper layer.
use ipcf.Common.{
  ℕ, ◌+◌, ◌/◌, ◌≤◌, ◌≡◌, refl, ap, ◌∙◌, some, List, [], ◌∷◌, ◌++◌, arith, length, take,
}
use ipcf.Common.Word.{u8}
use ipcf.Split.Types.{link_data_max, Node, Env, frame_type_ackp}
use ipcf.Split.Frame.Encode.{framed, stuffed}
use ipcf.Split.Slice.{fill_slices}
use ipcf.Split.Slice.Layout.{all_bytes}
use ipcf.Split.Recv.{ack_frame, put_rse}
use ipcf.Split.UpperSend.{upper_send}
use ipcf.Split.Link.{exchange}
use ipcf.Split.Link.Missing.{zeros}
use ipcf.Split.Link.Wire.{queued}
use ipcf.Split.Link.Ask.{HasRoom}
use ipcf.Split.Link.Header.{header_frame, header_frame_fits, lower_put-headers}
use ipcf.Split.Link.Acked.{asked}
use ipcf.Split.Link.Sent.{Idle, InFlight, next_seq, upper_send-Sent}
use ipcf.Split.Link.Step.{InStep, InStep-after}
use ipcf.Split.Link.Legs.{
  carry-head, is_empty-framed, sent_off, answered, carry_answer, carry_slices, carry_ack,
}

-- The message has been handed up once by the one node, and the other has nothing left to send.
pub record Exchanged (smac dmac : ℕ) (msg : List ℕ) (b a' b' : Node) : Type 0 where
  pub upper : b'.upper_recv_list ≡ b.upper_recv_list ++ (msg ∷ [])
  pub idle : Idle dmac a'
  pub sent_all : a'.lower_send_list ≡ []
  pub answered : b'.lower_send_list ≡ []
  pub step : InStep smac dmac a' b'

module _ (e1 e2 e3 e4 : Env) (smac dmac seq : ℕ) (msg : List ℕ) (a b : Node)
    (flight : InFlight smac dmac seq msg a)
    (head : a.lower_send_list ≡ framed (header_frame smac dmac seq msg) ∷ [])
    (empty : b.lower_send_list ≡ []) (room : HasRoom smac b)
    (fits : length (stuffed (all_bytes (fill_slices link_data_max msg).slices)) ≤ 962) where
  abbrev a1 : Node
  a1 = sent_off a

  flight1 : InFlight smac dmac seq msg a1
  flight1 = record {
    se = flight.se;
    pkt = flight.pkt;
    session = flight.session;
    front = flight.front;
    number = flight.number;
    byte = flight.byte;
    packet = flight.packet;
  }

  abbrev a2 : Node
  a2 = answered e2 e3 e4 smac dmac seq msg a1 flight1 fits

  flight2 : InFlight smac dmac seq msg (sent_off a2)
  flight2 = record {
    se =
        asked e2 smac dmac seq msg flight.pkt [] flight.packet flight.se a1 flight.session
          flight.front;
    pkt = flight.pkt;
    session = ground arith;
    front = flight.front;
    number = flight.number;
    byte = flight.byte;
    packet = flight.packet;
  }

  -- A node whose packet for the peer is in flight, its headers alone in the queue, and the peer,
  -- whose queue is empty: after four frames the message is handed up.
  pub exchange-Exchanged :
      (a' b' : Node) × (exchange e1 e2 e3 e4 a b ≡ some (a', b')) × Exchanged smac dmac msg b a' b'
  unfolding exchange
  exchange-Exchanged =
      let p = flight.packet in
      let ack =
        framed (ack_frame smac dmac frame_type_ackp seq (zeros 0 0 ((length msg + 31) / 32))) in
      let (se, awaits, opened) =
        lower_put-headers e1 smac dmac seq msg b p.some_bytes p.small room in
      let b1 = put_rse smac se (queued ack b) in
      let run1 =
        carry-head e1 a b b1 _ _ head (is_empty-framed _)
          (header_frame_fits e1 smac dmac seq msg b p.some_bytes p.small room) opened in
      let run2 =
        carry_answer e2 e3 e4 smac dmac seq msg a1 flight1 fits b1
          (ap (λ l. l ++ (ack ∷ [])) empty) in
      let (b3, run3, completed) =
        carry_slices e2 e3 e4 smac dmac seq msg a1 flight1 fits a2 (sent_off b1) se refl
          (ground arith) awaits in
      let (a4, run4, idle, (s, sends, next, asked, resent), queue) =
        carry_ack e2 e3 e4 smac dmac seq msg (sent_off a2) flight2 fits b3 completed.lower in
      let (r, receives, answers) = completed.session in
      let step =
        InStep-after smac dmac seq a4 (sent_off b3) s r sends (omega (arith, next, flight2.byte))
          asked resent (ap (λ (q : ℕ). u8 (q + 255)) next ∙ flight2.number) receives answers.seq_exp
          answers.room in
      (
        a4,
        sent_off b3,
        rw (run1, run2, run3, run4) refl,
        record {
          upper = completed.upper;
          idle = idle;
          sent_all = queue;
          answered = refl;
          step = step;
        },
      )

-- A node sends a message, and its peer gets its frames, over a link that loses nothing.
-- The sender's session for the peer, if there is one, has no packet and does not wait, neither node
-- has a frame in its queue, and the array of the receiver's session, if there is one, has LINK_MTU
-- bytes. If `upper_send` returns a length, and the stuffed slices of that much of the message take at most 962 bytes, then
-- four frames are exchanged without a fault: the first bytes of the message, of that number, are
-- handed up once, both queues are empty and the sender waits for nothing.
pub message_lem :
    (e0 e1 e2 e3 e4 : Env) (smac dmac : ℕ) (msg : List ℕ) (a0 a b : Node) (m : ℕ)
    → Idle dmac a0
    → a0.lower_send_list ≡ []
    → b.lower_send_list ≡ []
    → HasRoom smac b
    → upper_send e0 smac dmac msg a0 ≡ (some m, a)
    → length (stuffed (all_bytes (fill_slices link_data_max (take m msg)).slices)) ≤ 962
    → (a' b' : Node) × (exchange e1 e2 e3 e4 a b ≡ some (a', b'))
      × Exchanged smac dmac (take m msg) b a' b'
message_lem e0 e1 e2 e3 e4 smac dmac msg a0 a b m idle none_queued empty room sent fits =
    let s = upper_send-Sent e0 smac dmac msg a0 a m idle sent in
    let seq = next_seq e0 dmac a0 in
    exchange-Exchanged e1 e2 e3 e4 smac dmac seq (take m msg) a b s.flight
      (s.lower ∙ ap (λ l. l ++ (framed (header_frame smac dmac seq (take m msg)) ∷ [])) none_queued)
      empty room fits
