-- ===== src/Split/Link/Resend.antt =====
-- The frames after a timeout of a message that is in flight, until it has been handed up and
-- acknowledged.
use ipcf.Common.{
  ℕ, ◌+◌, ◌/◌, ◌≤◌, ◌<◌, ◌≡◌, refl, ap, ◌∙◌, true, some, List, [], ◌∷◌, ◌++◌, arith, length, get_or,
}
use ipcf.Common.Word.{u8}
use ipcf.Common.Bits.{bit-zero}
use ipcf.Split.Types.{
  link_data_max, max_retry_times, Node, Env, Rse, Sse, frame_type_acka, frame_type_ackp,
}
use ipcf.Split.Frame.Encode.{framed, stuffed}
use ipcf.Split.Slice.{fill_slices}
use ipcf.Split.Slice.Layout.{all_bytes}
use ipcf.Split.Recv.{ack_frame, put_rse}
use ipcf.Split.Recv.Deliver.{Answers}
use ipcf.Split.Send.{put_sse}
use ipcf.Split.Node.{ack_due, sse_tick}
use ipcf.Split.Link.Missing.{zeros}
use ipcf.Split.Link.Wire.{queued}
use ipcf.Split.Link.Ask.{Awaits}
use ipcf.Split.Link.Acked.{asked}
use ipcf.Split.Link.Sent.{Idle, InFlight}
use ipcf.Split.Link.Step.{InStep, InStep-after}
use ipcf.Split.Link.Legs.{
  carry-head, is_empty-framed, sent_off, answered, carry_answer, carry_slices, carry_ack,
}
use ipcf.Split.Link.Exchange.{Exchanged}
use ipcf.Split.Link.Lost.{resend_slices, resend_ack}
use ipcf.Split.Link.Retry.{
  ackr_frame, ackr_frame_fits, retried, asks_again, sse_tick-retried, looked, asks_again-Awaits,
  asks_again-Answers,
}

-- The sender after its timer.
abbrev ticked : Env → ℕ → ℕ → Sse → Node → Node
ticked env smac dmac se n = put_sse dmac (retried env se) (queued (asks_again env smac dmac se) n)

module _ (et e3 e4 e5 e6 : Env) (smac dmac seq : ℕ) (msg : List ℕ) (x y : Node)
    (flight : InFlight smac dmac seq msg x) (few : flight.se.ack_retry + 1 ≤ max_retry_times)
    (due : ack_due et.now flight.se ≡ true) (byte : seq < 256) (gone : x.lower_send_list ≡ [])
    (empty : y.lower_send_list ≡ [])
    (fits : length (stuffed (all_bytes (fill_slices link_data_max msg).slices)) ≤ 962) where
  abbrev x1 : Node
  x1 = ticked et smac dmac flight.se x

  flight1 : InFlight smac dmac seq msg (sent_off x1)
  flight1 = record {
    se = retried et flight.se;
    pkt = flight.pkt;
    session = ground arith;
    front = flight.front;
    number = flight.number;
    byte = flight.byte;
    packet = flight.packet;
  }

  tick : sse_tick et dmac x ≡ some x1
  tick =
      sse_tick-retried et smac dmac seq msg flight.pkt [] flight.packet flight.se x flight.front few
        flight.session due

  flight2 :
      InFlight smac dmac seq msg
        (sent_off (answered e4 e5 e6 smac dmac seq msg (sent_off x1) flight1 fits))
  unfolding flight1
  flight2 = record {
    se =
        asked e4 smac dmac seq msg flight1.pkt [] flight1.packet flight1.se (sent_off x1)
          flight1.session flight1.front;
    pkt = flight.pkt;
    session = ground arith;
    front = flight.front;
    number = flight.number;
    byte = flight.byte;
    packet = flight.packet;
  }

  -- The queue holds the frame that asks.
  asks : x1.lower_send_list ≡ framed (ackr_frame smac dmac seq (get_or et.stale 3 0)) ∷ []
  asks =
      ap (λ l. l ++ (asks_again et smac dmac flight.se ∷ [])) gone
      ∙ ap (λ (q : ℕ). framed (ackr_frame smac dmac q (get_or et.stale 3 0)) ∷ [])
          (flight.number ∙ omega arith)

  -- The peer still waits for all slices: it asks for them again, and they are sent again.
  pub resend_slices-Exchanged :
      (se : Rse)
      → y.rse smac ≡ some se
      → Awaits msg seq 0 se
      → (a' b' : Node) × (resend_slices et e3 e4 e5 e6 dmac x y ≡ some (a', b'))
        × Exchanged smac dmac msg y a' b'
  unfolding resend_slices
  resend_slices-Exchanged se known awaits =
      let p = flight.packet in
      let reserved = get_or et.stale 3 0 in
      let ack =
        framed (ack_frame smac dmac frame_type_ackp seq (zeros 0 0 ((length msg + 31) / 32))) in
      let (again, answer) =
        asks_again-Awaits e3 smac dmac seq reserved se y known awaits.seq_exp msg 0 0 awaits p.small
          (omega (arith, p.some_bytes)) (bit-zero 0) in
      let y1 = put_rse smac (looked e3 se) y in
      let run1 =
        carry-head e3 x1 y (queued ack y1) _ _ asks (is_empty-framed _)
          (ackr_frame_fits smac dmac seq reserved) answer in
      let run2 =
        carry_answer e4 e5 e6 smac dmac seq msg (sent_off x1) flight1 fits (queued ack y1)
          (ap (λ l. l ++ (ack ∷ [])) empty) in
      let x2 = answered e4 e5 e6 smac dmac seq msg (sent_off x1) flight1 fits in
      let (y3, run3, completed) =
        carry_slices e4 e5 e6 smac dmac seq msg (sent_off x1) flight1 fits x2 (sent_off y1)
          (looked e3 se) refl (ground arith) again in
      let (x4, run4, idle, (s, sends, next, asked, resent), queue) =
        carry_ack e4 e5 e6 smac dmac seq msg (sent_off x2) flight2 fits y3 completed.lower in
      let (r, receives, answers) = completed.session in
      let step =
        InStep-after smac dmac seq x4 (sent_off y3) s r sends (omega (arith, next, flight2.byte))
          asked resent (ap (λ (q : ℕ). u8 (q + 255)) next ∙ flight2.number) receives answers.seq_exp
          answers.room in
      (
        x4,
        sent_off y3,
        rw (tick, run1, run2, run3, run4) refl,
        record {
          upper = completed.upper;
          idle = idle;
          sent_all = queue;
          answered = refl;
          step = step;
        },
      )

  -- The peer has handed the message up: it acknowledges it again, and hands nothing up.
  pub resend_ack-Idle :
      (se : Rse)
      → y.rse smac ≡ some se
      → Answers seq se
      → (a' b' : Node) × (resend_ack et e3 e4 dmac x y ≡ some (a', b'))
        × (b'.upper_recv_list ≡ y.upper_recv_list)
        × Idle dmac a'
        × (a'.lower_send_list ≡ [])
        × (b'.lower_send_list ≡ [])
        × InStep smac dmac a' b'
  unfolding resend_ack
  resend_ack-Idle se known answers =
      let reserved = get_or et.stale 3 0 in
      let ack = framed (ack_frame smac dmac frame_type_acka seq []) in
      let y1 = queued ack (put_rse smac (looked e3 se) y) in
      let run1 =
        carry-head e3 x1 y y1 _ _ asks (is_empty-framed _) (ackr_frame_fits smac dmac seq reserved)
          (asks_again-Answers e3 smac dmac seq reserved se y known answers.seq_exp answers) in
      let (x2, run2, idle, (s, sends, next, asked, resent), queue) =
        carry_ack e4 e4 e4 smac dmac seq msg (sent_off x1) flight1 fits y1
          (ap (λ l. l ++ (ack ∷ [])) empty) in
      (
        x2,
        sent_off y1,
        rw (tick, run1, run2) refl,
        refl,
        idle,
        queue,
        refl,
        InStep-after smac dmac seq x2 (sent_off y1) s (looked e3 se) sends
            (omega (arith, next, flight1.byte)) asked resent
            (ap (λ (q : ℕ). u8 (q + 255)) next ∙ flight1.number) (ground arith) answers.seq_exp
            answers.room,
      )
