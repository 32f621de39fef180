-- ===== src/Split/Link/Recover.antt =====
-- A message comes even if the link loses any one of its frames.
use ipcf.Common.{
  ℕ, ◌+◌, ◌≤◌, ◌<◌, ◌≡◌, refl, ap, ◌∙◌, some, List, [], ◌∷◌, ◌++◌, arith, length, take,
}
use ipcf.Split.Types.{link_data_max, ack_timeout_ms, Node, Env}
use ipcf.Split.Frame.Encode.{framed, stuffed}
use ipcf.Split.Slice.{fill_slices}
use ipcf.Split.Slice.Layout.{all_bytes}
use ipcf.Split.UpperSend.{upper_send}
use ipcf.Split.Link.Ask.{HasRoom}
use ipcf.Split.Link.Header.{header_frame, header_frame_fits}
use ipcf.Split.Link.Sent.{Idle, InFlight, Fresh, Unasked, next_seq, upper_send-Sent}
use ipcf.Split.Link.Legs.{sent_off}
use ipcf.Split.Link.Exchange.{Exchanged, exchange-Exchanged}
use ipcf.Split.Link.Step.{Unknown}
use ipcf.Split.Link.Rounds.{Asking, resend_headers-InFlight}
use ipcf.Split.Link.Lost.{
  Lost, headers, ask, slices, ack, Times, IsLate, exchange_lost, lose-sent_off,
}
use ipcf.Split.Link.After.{lost_ask-Exchanged, lost_slices-Exchanged, lost_ack-Exchanged}

module _ (e0 : Env) (t : Times) (smac dmac seq : ℕ) (msg : List ℕ) (a b : Node)
    (flight : InFlight smac dmac seq msg a)
    (head : a.lower_send_list ≡ framed (header_frame smac dmac seq msg) ∷ [])
    (empty : b.lower_send_list ≡ []) (room : HasRoom smac b)
    (fits : length (stuffed (all_bytes (fill_slices link_data_max msg).slices)) ≤ 962)
    (byte : seq < 256) (fresh : Fresh e0 flight.se) (unknown : Unknown smac seq b) where
  asking : Asking smac dmac seq msg (e0.now + ack_timeout_ms) 0 (sent_off a)
  asking = record {
    flight = record {
      se = flight.se;
      pkt = flight.pkt;
      session = flight.session;
      front = flight.front;
      number = flight.number;
      byte = flight.byte;
      packet = flight.packet;
    };
    ack_timeout = fresh.ack_timeout;
    ack_retry = fresh.ack_retry;
    data_retry = fresh.data_retry;
    lower = refl;
  }

  lost_headers-Exchanged :
      IsLate headers e0 t
      → (a' b' : Node) × (exchange_lost headers t dmac a b ≡ some (a', b'))
        × Exchanged smac dmac msg b a' b'
  unfolding exchange_lost
  lost_headers-Exchanged (five, asks, later) =
      let (a1, b1, a2, run1, tick, flight', head', untouched) =
        resend_headers-InFlight smac dmac seq msg (e0.now + ack_timeout_ms) t.asks t.et (sent_off a)
          b byte (omega arith) asking five asks later unknown in
      let (a', b', run, exchanged) =
        exchange-Exchanged t.e4 t.e5 t.e6 t.e7 smac dmac seq msg a2 b1 flight' head'
          (untouched.lower ∙ empty) (untouched.room room) fits in
      let lost = lose-sent_off _ a head (
        header_frame_fits t.e1 smac dmac seq msg b flight.packet.some_bytes flight.packet.small
          room) in
      (
        a',
        b',
        rw (lost, run1, tick) run,
        record {
          upper = exchanged.upper ∙ ap (λ l. l ++ (msg ∷ [])) untouched.upper;
          idle = exchanged.idle;
          sent_all = exchanged.sent_all;
          answered = exchanged.answered;
          step = exchanged.step;
        },
      )

  lost-Exchanged :
      (lost : Lost)
      → IsLate lost e0 t
      → (a' b' : Node) × (exchange_lost lost t dmac a b ≡ some (a', b'))
        × Exchanged smac dmac msg b a' b'
  lost-Exchanged headers late = lost_headers-Exchanged late
  lost-Exchanged ask late =
      lost_ask-Exchanged e0 t smac dmac seq msg a b flight head empty room fits byte fresh late
  lost-Exchanged slices late =
      lost_slices-Exchanged e0 t smac dmac seq msg a b flight head empty room fits byte fresh late
  lost-Exchanged ack late =
      lost_ack-Exchanged e0 t smac dmac seq msg a b flight head empty room fits byte fresh late

-- A node sends a message, and the link to its peer loses one of the four frames: the headers, the
-- request for the slices, the slices or the acknowledgement. Nothing else is queued on either side,
-- the retry counters of the sender's session, if there is one, are 0, the arrays of receive
-- sessions have LINK_MTU bytes, the number of the message is a byte, and the peer's session, if
-- there is one, is not of that number; the stuffed slices of what `upper_send` returns the length
-- of take at most 962 bytes. The sender looks at the timer of its session, by `sse_tick`, only
-- after the loss: once, or six times if the headers are lost, and at least 3000 ms after it has
-- sent the message, or, if the slices or the acknowledgement are lost, the slices. Then no call is
-- a fault, the first bytes of the message, of that length, are handed up once, both queues are
-- empty and the sender waits for nothing.
pub exchange_lost_lem :
    (lost : Lost) (e0 : Env) (t : Times) (smac dmac : ℕ) (msg : List ℕ) (a0 a b : Node) (m : ℕ)
    → Idle dmac a0
    → a0.lower_send_list ≡ []
    → b.lower_send_list ≡ []
    → Unasked dmac a0
    → HasRoom smac b
    → next_seq e0 dmac a0 < 256
    → Unknown smac (next_seq e0 dmac a0) b
    → IsLate lost e0 t
    → upper_send e0 smac dmac msg a0 ≡ (some m, a)
    → length (stuffed (all_bytes (fill_slices link_data_max (take m msg)).slices)) ≤ 962
    → (a' b' : Node) × (exchange_lost lost t dmac a b ≡ some (a', b'))
      × Exchanged smac dmac (take m msg) b a' b'
exchange_lost_lem lost e0 t smac dmac msg a0 a b m idle none_queued empty unasked room byte unknown
      late sent fits =
    let s = upper_send-Sent e0 smac dmac msg a0 a m idle sent in
    let seq = next_seq e0 dmac a0 in
    lost-Exchanged e0 t smac dmac seq (take m msg) a b s.flight
      (s.lower ∙ ap (λ l. l ++ (framed (header_frame smac dmac seq (take m msg)) ∷ [])) none_queued)
      empty room fits byte (s.fresh unasked) unknown lost late
