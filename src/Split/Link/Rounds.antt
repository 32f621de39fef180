-- ===== src/Split/Link/Rounds.antt =====
-- The rounds of a sender whose peer does not know the message: it asks some times, then it sends the
-- headers again.
use ipcf.Common.{
  ℕ, ◌+◌, ◌≤◌, ◌<◌, ◌≡◌, refl, ap, ap₂, ◌∙◌, true, false, some, List, [], ◌∷◌, ◌++◌, arith, length,
  get_or, leb, ltb, All,
}
use mathlib.Core.Path.{subst}
use ipcf.Split.Types.{ack_timeout_ms, idle_timeout_ms, max_retry_times, SendNode, Sse, Node, Env}
use ipcf.Split.Frame.Encode.{framed}
use ipcf.Split.Send.{put_sse, timeout_session, proc_sse_ack_timeout, try_lower_send}
use ipcf.Split.Node.{ack_due, sse_tick}
use ipcf.Split.Link.{carry}
use ipcf.Split.Link.Wire.{queued, put_lower_send_list-queued}
use ipcf.Split.Link.Header.{header_frame}
use ipcf.Split.Link.Sent.{InFlight}
use ipcf.Split.Link.Legs.{carry-head, is_empty-framed, sent_off}
use ipcf.Split.Link.Retry.{ackr_frame, ackr_frame_fits, retried, asks_again, sse_tick-retried}
use ipcf.Split.Link.Step.{Unknown}
use ipcf.Split.Link.Lost.{ask_rounds}
use ipcf.Split.Link.Silent.{Untouched, lower_put-Untouched}

-- A message in flight that has been asked about so many times, with nothing in the queue.
pub record Asking (smac dmac seq : ℕ) (msg : List ℕ) (timer asked : ℕ) (n : Node) : Type 0 where
  pub flight : InFlight smac dmac seq msg n
  pub ack_timeout : flight.se.ack_timeout ≡ some timer
  pub ack_retry : flight.se.ack_retry ≡ asked
  pub data_retry : flight.se.data_retry ≡ 0
  pub lower : n.lower_send_list ≡ []

ack_due-timer :
    (timer : ℕ)
    → 0 < timer
    → (env : Env) (se : Sse) → se.ack_timeout ≡ some timer
    → timer ≤ env.now
    → ack_due env.now se ≡ true
ack_due-timer timer set env se e late = rw e (ground arith)

module _ (smac dmac seq : ℕ) (msg : List ℕ) (timer : ℕ) (byte : seq < 256) (set : 0 < timer) where
  ask_round_lem :
      (asked : ℕ) (et e : Env) (x y : Node)
      → Asking smac dmac seq msg timer asked x
      → asked < max_retry_times
      → timer ≤ et.now
      → Unknown smac seq y
      → (x1 x' y' : Node) × (sse_tick et dmac x ≡ some x1)
        × (carry e x1 y ≡ some (x', y'))
        × Asking smac dmac seq msg timer (asked + 1) x'
        × Untouched smac seq y y'
  ask_round_lem asked et e x y a few late unknown =
      let f = a.flight in
      let reserved = get_or et.stale 3 0 in
      let x1 = put_sse dmac (retried et f.se) (queued (asks_again et smac dmac f.se) x) in
      let (y', run, untouched) = lower_put-Untouched e smac dmac seq reserved y unknown in
      let asks : x1.lower_send_list ≡ framed (ackr_frame smac dmac seq reserved) ∷ [] =
        ap (λ l. l ++ (asks_again et smac dmac f.se ∷ [])) a.lower
        ∙ ap (λ (q : ℕ). framed (ackr_frame smac dmac q reserved) ∷ []) (f.number ∙ omega arith) in
      (
        x1,
        sent_off x1,
        y',
        sse_tick-retried et smac dmac seq msg f.pkt [] f.packet f.se x f.front
            (omega (arith, a.ack_retry)) f.session
            (ack_due-timer timer set et f.se a.ack_timeout late),
        carry-head e x1 y y' _ _ asks (is_empty-framed _) (ackr_frame_fits smac dmac seq reserved)
            run,
        record {
          flight = record {
            se = retried et f.se;
            pkt = f.pkt;
            session = ground arith;
            front = f.front;
            number = f.number;
            byte = f.byte;
            packet = f.packet;
          };
          ack_timeout = a.ack_timeout;
          ack_retry = ap (λ (r : ℕ). r + 1) a.ack_retry;
          data_retry = a.data_retry;
          lower = refl;
        },
        untouched,
      )

  -- A sender whose timer is due asks in every round, up to MAX_RETRY_TIMES times, and the peer stays
  -- as it is.
  pub ask_rounds_lem :
      (rounds : List (Env × Env)) (asked : ℕ) (x y : Node)
      → Asking smac dmac seq msg timer asked x
      → asked + length rounds ≤ max_retry_times
      → All (λ (r : Env × Env). timer ≤ r.0.now) rounds
      → Unknown smac seq y
      → (x' y' : Node) × (ask_rounds rounds dmac x y ≡ some (x', y'))
        × Asking smac dmac seq msg timer (asked + length rounds) x'
        × Untouched smac seq y y'
  unfolding ask_rounds
  ask_rounds_lem [] asked x y a few late unknown = (
    x,
    y,
    refl,
    subst (λ (r : ℕ). Asking smac dmac seq msg timer r x) (omega arith) a,
    record { lower = refl; upper = refl; room = λ h. h; unknown = unknown },
  )
  ask_rounds_lem ((et, e) ∷ rounds) asked x y a few late unknown =
      let (x1, x2, y2, run1, run2, a2, u) =
        ask_round_lem asked et e x y a (omega arith) late.0 unknown in
      let (x', y', run, a', u') =
        ask_rounds_lem rounds (asked + 1) x2 y2 a2 (omega arith) late.1 u.unknown in
      (
        x',
        y',
        rw (run1, run2) run,
        subst (λ (r : ℕ). Asking smac dmac seq msg timer r x') (omega arith) a',
        record {
          lower = u'.lower ∙ u.lower;
          upper = u'.upper ∙ u.upper;
          room = λ h. u'.room (u.room h);
          unknown = u'.unknown;
        },
      )

-- The session that sends its packet again.
abbrev resent : Env → Sse → SendNode → Sse
resent env se pkt = record se {
  pkt_list = pkt ∷ [];
  idle_timeout = env.now + idle_timeout_ms;
  ack_retry = 0;
  data_retry = 1;
  ack_timeout = some (env.now + ack_timeout_ms);
  is_waiting = true;
}

module _ (env : Env) (smac dmac seq timer : ℕ) (msg : List ℕ) (n : Node)
    (a : Asking smac dmac seq msg timer max_retry_times n) where
  timeout_session-resent :
      timeout_session env a.flight.se n (a.flight.pkt ∷ [])
      ≡ some
          (resent env a.flight.se a.flight.pkt, queued (framed (header_frame smac dmac seq msg)) n)
  unfolding timeout_session try_lower_send
  timeout_session-resent =
      let f = a.flight in
      let asks : leb (f.se.ack_retry + 1) max_retry_times ≡ false = ground (arith, a.ack_retry) in
      let drops : ltb max_retry_times (f.se.data_retry + 1) ≡ false =
        ground (arith, a.data_retry) in
      let put =
        put_lower_send_list-queued f.pkt.escaped (framed (header_frame smac dmac seq msg))
          f.pkt.esc_len n f.packet.esc_len f.packet.escaped in
      rw (asks, drops, f.front, put)
        (ap₂
          (λ (r : ℕ) (pkts : List SendNode). some (
            record (resent env f.se f.pkt) { data_retry = r + 1; pkt_list = pkts },
            queued (framed (header_frame smac dmac seq msg)) n,
          ))
          a.data_retry f.front)

  -- A session that has asked MAX_RETRY_TIMES times sends the headers of its packet again.
  sse_tick-resent :
      0 < timer
      → timer ≤ env.now
      → sse_tick env dmac n
        ≡ some (
            put_sse dmac
              (resent env a.flight.se a.flight.pkt)
              (queued (framed (header_frame smac dmac seq msg)) n))
  unfolding sse_tick proc_sse_ack_timeout
  sse_tick-resent set late =
      let f = a.flight in
      let stays : leb (env.now + 10000) env.now ≡ false = ground arith in
      let due = ack_due-timer timer set env f.se a.ack_timeout late in
      let timeout : proc_sse_ack_timeout env f.se n
          ≡ some (resent env f.se f.pkt, queued (framed (header_frame smac dmac seq msg)) n) =
        ap (timeout_session env f.se n) f.front ∙ timeout_session-resent in
      rw (sse_tick, f.session, due, timeout, stays) refl

-- A sender whose peer does not know the message asks MAX_RETRY_TIMES times and then sends the
-- headers again: the message is in flight as it was at first.
pub resend_headers-InFlight :
    (smac dmac seq : ℕ) (msg : List ℕ) (timer : ℕ) (rounds : List (Env × Env)) (et : Env)
    (x y : Node)
    → seq < 256
    → 0 < timer
    → Asking smac dmac seq msg timer 0 x
    → length rounds ≡ max_retry_times
    → All (λ (r : Env × Env). timer ≤ r.0.now) rounds
    → timer ≤ et.now
    → Unknown smac seq y
    → (x' y' x2 : Node) × (ask_rounds rounds dmac x y ≡ some (x', y'))
      × (sse_tick et dmac x' ≡ some x2)
      × InFlight smac dmac seq msg x2
      × (x2.lower_send_list ≡ framed (header_frame smac dmac seq msg) ∷ [])
      × Untouched smac seq y y'
resend_headers-InFlight smac dmac seq msg timer rounds et x y byte set a five late later unknown =
    let (x', y', run, a', untouched) =
      ask_rounds_lem smac dmac seq msg timer byte set rounds 0 x y a (omega arith) late unknown in
    let counted : 0 + length rounds ≡ max_retry_times = omega (arith, five) in
    let a5 = subst (λ (r : ℕ). Asking smac dmac seq msg timer r x') counted a' in
    let f = a5.flight in
    let raw = framed (header_frame smac dmac seq msg) in
    (
      x',
      y',
      put_sse dmac (resent et f.se f.pkt) (queued raw x'),
      run,
      sse_tick-resent et smac dmac seq timer msg x' a5 set later,
      record {
        se = resent et f.se f.pkt;
        pkt = f.pkt;
        session = ground arith;
        front = refl;
        number = f.number;
        byte = f.byte;
        packet = f.packet;
      },
      ap (λ l. l ++ (raw ∷ [])) a5.lower,
      untouched,
    )
