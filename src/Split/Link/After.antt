-- ===== src/Split/Link/After.antt =====
-- The message comes after the loss of the request for its slices, of the slices, and of the
-- acknowledgement.
use ipcf.Common.{
  ℕ, ◌+◌, ◌/◌, ◌≤◌, ◌<◌, ◌≡◌, refl, ap, ◌∙◌, true, some, List, [], ◌∷◌, ◌++◌, arith, length,
}
use ipcf.Split.Types.{
  ack_timeout_ms, link_data_max, Node, Env, Rse, Sse, frame_type_acka, frame_type_ackp,
}
use ipcf.Split.Frame.Encode.{framed, stuffed}
use ipcf.Split.Slice.{fill_slices}
use ipcf.Split.Slice.Layout.{all_bytes}
use ipcf.Split.Recv.{ack_frame, put_rse}
use ipcf.Split.Node.{ack_due}
use ipcf.Split.Link.{carry}
use ipcf.Split.Link.Missing.{zeros}
use ipcf.Split.Link.Wire.{queued}
use ipcf.Split.Link.Ask.{Awaits, HasRoom, ack_frame_fits}
use ipcf.Split.Link.Header.{header_frame, header_frame_fits, lower_put-headers}
use ipcf.Split.Link.Acked.{asked}
use ipcf.Split.Link.Sent.{InFlight, Fresh}
use ipcf.Split.Link.Legs.{
  carry-head, is_empty-framed, all_slices_fit, length-zeros_all, sent_off, answered, carry_answer,
  carry_slices,
}
use ipcf.Split.Link.Exchange.{Exchanged}
use ipcf.Split.Link.Resend.{resend_slices-Exchanged, resend_ack-Idle}
use ipcf.Split.Link.Lost.{Times, IsLate, exchange_lost, lose, lose-sent_off, ask, slices, ack}

module _ (e0 : Env) (t : Times) (smac dmac seq : ℕ) (msg : List ℕ) (a b : Node)
    (flight : InFlight smac dmac seq msg a)
    (head : a.lower_send_list ≡ framed (header_frame smac dmac seq msg) ∷ [])
    (empty : b.lower_send_list ≡ []) (room : HasRoom smac b)
    (fits : length (stuffed (all_bytes (fill_slices link_data_max msg).slices)) ≤ 962)
    (byte : seq < 256) (fresh : Fresh e0 flight.se) where
  abbrev a1 : Node
  a1 = sent_off a

  taken : InFlight smac dmac seq msg a1
  taken = record {
    se = flight.se;
    pkt = flight.pkt;
    session = flight.session;
    front = flight.front;
    number = flight.number;
    byte = flight.byte;
    packet = flight.packet;
  }

  abbrev a2 : Node
  a2 = answered t.e2 t.e2 t.e2 smac dmac seq msg a1 taken fits

  abbrev waiting : Sse
  waiting =
      asked t.e2 smac dmac seq msg taken.pkt [] taken.packet taken.se a1 taken.session taken.front

  sent : InFlight smac dmac seq msg (sent_off a2)
  sent = record {
    se = waiting;
    pkt = taken.pkt;
    session = ground arith;
    front = taken.front;
    number = taken.number;
    byte = taken.byte;
    packet = taken.packet;
  }

  waiting-due : t.e2.now + ack_timeout_ms ≤ t.et.now → ack_due t.et.now waiting ≡ true
  waiting-due late = ground arith

  -- After the first two frames the slices are in the queue of the sender, and the peer waits.
  asked_for :
      (se : Rse) × (b1 : Node) × Awaits msg seq 0 se
      × (carry t.e1 a b ≡ some (a1, b1))
      × (carry t.e2 b1 a1 ≡ some (sent_off b1, a2))
      × (b1.rse smac ≡ some se)
      × (b1.upper_recv_list ≡ b.upper_recv_list)
      × (lose b1 ≡ sent_off b1)
  asked_for =
      let p = flight.packet in
      let ack =
        framed (ack_frame smac dmac frame_type_ackp seq (zeros 0 0 ((length msg + 31) / 32))) in
      let (se, awaits, opened) =
        lower_put-headers t.e1 smac dmac seq msg b p.some_bytes p.small room in
      let b1 = put_rse smac se (queued ack b) in
      let queue : b1.lower_send_list ≡ ack ∷ [] = ap (λ l. l ++ (ack ∷ [])) empty in
      let len = length-zeros_all 0 ((length msg + 31) / 32) in
      (
        se,
        b1,
        awaits,
        carry-head t.e1 a b b1 _ _ head (is_empty-framed _)
            (header_frame_fits t.e1 smac dmac seq msg b p.some_bytes p.small room) opened,
        carry_answer t.e2 t.e2 t.e2 smac dmac seq msg a1 taken fits b1 queue,
        ground arith,
        refl,
        lose-sent_off _ b1 queue (
            ack_frame_fits smac dmac frame_type_ackp seq (zeros 0 0 ((length msg + 31) / 32))
              (omega (arith, len, p.small))),
      )

  taken-due : e0.now + ack_timeout_ms ≤ t.et.now → ack_due t.et.now taken.se ≡ true
  unfolding taken
  taken-due late = rw fresh.ack_timeout (ground arith)

  pub lost_ask-Exchanged :
      IsLate ask e0 t
      → (a' b' : Node) × (exchange_lost ask t dmac a b ≡ some (a', b'))
        × Exchanged smac dmac msg b a' b'
  unfolding exchange_lost taken
  lost_ask-Exchanged late =
      let (se, b1, awaits, run1, run2, known, upper, lost) = asked_for in
      let (a', b', run, exchanged) =
        resend_slices-Exchanged t.et t.e4 t.e5 t.e6 t.e7 smac dmac seq msg a1 (sent_off b1) taken
          (omega (arith, fresh.ack_retry)) (taken-due late) byte refl refl fits se known awaits in
      (
        a',
        b',
        rw (run1, lost) run,
        record {
          upper = exchanged.upper ∙ ap (λ l. l ++ (msg ∷ [])) upper;
          idle = exchanged.idle;
          sent_all = exchanged.sent_all;
          answered = exchanged.answered;
          step = exchanged.step;
        },
      )

  pub lost_slices-Exchanged :
      IsLate slices e0 t
      → (a' b' : Node) × (exchange_lost slices t dmac a b ≡ some (a', b'))
        × Exchanged smac dmac msg b a' b'
  unfolding exchange_lost sent
  lost_slices-Exchanged late =
      let (se, b1, awaits, run1, run2, known, upper, lost_b1) = asked_for in
      let (a', b', run, exchanged) =
        resend_slices-Exchanged t.et t.e4 t.e5 t.e6 t.e7 smac dmac seq msg (sent_off a2)
          (sent_off b1) sent (omega arith) (waiting-due late) byte refl refl fits se known awaits in
      let lost : lose a2 ≡ sent_off a2 =
        lose-sent_off _ a2 refl (all_slices_fit smac dmac seq msg flight.packet.small fits) in
      (
        a',
        b',
        rw (run1, run2, lost) run,
        record {
          upper = exchanged.upper ∙ ap (λ l. l ++ (msg ∷ [])) upper;
          idle = exchanged.idle;
          sent_all = exchanged.sent_all;
          answered = exchanged.answered;
          step = exchanged.step;
        },
      )

  pub lost_ack-Exchanged :
      IsLate ack e0 t
      → (a' b' : Node) × (exchange_lost ack t dmac a b ≡ some (a', b'))
        × Exchanged smac dmac msg b a' b'
  unfolding exchange_lost sent
  lost_ack-Exchanged late =
      let (se, b1, awaits, run1, run2, known, upper, lost_b1) = asked_for in
      let (b3, run3, completed) =
        carry_slices t.e2 t.e3 t.e3 smac dmac seq msg a1 taken fits a2 (sent_off b1) se refl known
          awaits in
      let (done, held, answers) = completed.session in
      let (a', b', run, kept, idle, queue, left, step) =
        resend_ack-Idle t.et t.e4 t.e5 t.e6 t.e7 smac dmac seq msg (sent_off a2) (sent_off b3) sent
          (omega arith) (waiting-due late) byte refl refl fits done held answers in
      let lost : lose b3 ≡ sent_off b3 =
        lose-sent_off _ b3 completed.lower
          (ack_frame_fits smac dmac frame_type_acka seq [] (omega arith)) in
      (
        a',
        b',
        rw (run1, run2, run3, lost) run,
        record {
          upper = kept ∙ completed.upper ∙ ap (λ l. l ++ (msg ∷ [])) upper;
          idle = idle;
          sent_all = queue;
          answered = left;
          step = step;
        },
      )
