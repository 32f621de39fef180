-- ===== src/Split/Link/Sent.antt =====
-- `upper_send` on a session that has nothing to send: the packet is sent at once.
use mathlib.Core.Path.{subst}
use ipcf.Common.{
  ℕ, ◌+◌, ◌-◌, ◌*◌, ◌≤◌, ◌<◌, ◌≡◌, inl, inr, refl, sym, ap, ◌∙◌, true, false, Option, none, some,
  Option-cases, List, [], ◌∷◌, ◌++◌, arith, length, take, leb,
}
use ipcf.Common.Word.{u8}
use ipcf.Split.Types.{
  link_mtu, slice_data_len, link_data_max, SendNode, Sse, Node, Env, ack_timeout_ms,
}
use ipcf.Split.Frame.Encode.{framed}
use ipcf.Split.Slice.{fill_slices}
use ipcf.Split.Slice.Fill.{genuine_from, fill_slices_lem, n_blocks}
use ipcf.Split.Slice.Layout.{all_bytes}
use ipcf.Split.Send.{get_sse, create_sse, put_sse, try_lower_send}
use ipcf.Split.UpperSend.{Built, build_loop, send_built, upper_send}
use ipcf.Split.UpperSend.Build.{build_loop_lem}
use ipcf.Split.Link.Wire.{queued, put_lower_send_list-queued}
use ipcf.Split.Link.Header.{header_frame}
use ipcf.Split.Link.Answer.{Packet}
use ipcf.Split.Link.Start.{Carries, build_loop-Carries, Built-Packet}

-- A session without packets, or none.
pub record Idle (mac : ℕ) (n : Node) : Type 0 where
  pub packets : (se : Sse) → n.sse mac ≡ some se → se.pkt_list ≡ []
  pub waiting : (se : Sse) → n.sse mac ≡ some se → se.is_waiting ≡ false

-- The session, if there is one, has not been asked about in vain.
pub record Unasked (mac : ℕ) (n : Node) : Type 0 where
  pub ack_retry : (se : Sse) → n.sse mac ≡ some se → se.ack_retry ≡ 0
  pub data_retry : (se : Sse) → n.sse mac ≡ some se → se.data_retry ≡ 0

-- A packet of `msg` alone in its session, and on its way.
pub record InFlight (smac dmac seq : ℕ) (msg : List ℕ) (n : Node) : Type 0 where
  pub se : Sse
  pub pkt : SendNode
  pub session : n.sse dmac ≡ some se
  pub front : se.pkt_list ≡ pkt ∷ []
  pub number : u8 (se.seq + 255) ≡ u8 seq
  pub byte : se.seq < 256
  pub packet : Packet smac dmac seq msg pkt

-- The number that `upper_send` gives to the next message for a peer.
abbrev pub next_seq : Env → ℕ → Node → ℕ
next_seq env mac n = elim (get_sse env n mac) [ none ↦ 0 | some se ↦ se.seq ]

abbrev sending : Env → Sse → SendNode → Sse
sending env se pkt = record se {
  pkt_list = pkt ∷ [];
  ack_timeout = some (env.now + ack_timeout_ms);
  is_waiting = true;
}

-- The node after its session has taken the packet and sent its headers.
abbrev started : Env → ℕ → Sse → SendNode → List ℕ → Node → Node
started env dmac se pkt raw n = put_sse dmac (sending env se pkt) (queued raw n)

send_built-started :
    (env : Env) (dmac : ℕ) (se : Sse) (n : Node) (b : Built) (raw : List ℕ)
    → se.pkt_list ≡ []
    → se.is_waiting ≡ false
    → b.snode.esc_len ≤ link_mtu
    → take b.snode.esc_len b.snode.escaped ≡ raw
    → send_built env dmac se n (some b) ≡ (some b.msglen, started env dmac se b.snode raw n)
unfolding send_built try_lower_send
send_built-started env dmac se n b raw e w l h =
    rw (e, w)
      (ap (λ (x : Node). (some b.msglen, put_sse dmac (sending env se b.snode) x))
        (put_lower_send_list-queued b.snode.escaped raw b.snode.esc_len n l h))

-- A session whose timer has just been set.
pub record Fresh (env : Env) (se : Sse) : Type 0 where
  pub ack_timeout : se.ack_timeout ≡ some (env.now + ack_timeout_ms)
  pub ack_retry : se.ack_retry ≡ 0
  pub data_retry : se.data_retry ≡ 0

-- A send that succeeds leaves the packet in flight, and its headers in the queue for the link.
pub record Sent (env : Env) (smac dmac seq m : ℕ) (msg : List ℕ) (n n' : Node) : Type 0 where
  pub flight : InFlight smac dmac seq (take m msg) n'
  pub fresh : Unasked dmac n → Fresh env flight.se
  pub lower :
      n'.lower_send_list
      ≡ n.lower_send_list ++ (framed (header_frame smac dmac seq (take m msg)) ∷ [])

send_built-Sent :
    (env : Env) (smac dmac seq : ℕ) (se : Sse) (n : Node) (o : Option Built) (m : ℕ) (n' : Node)
    (msg : List ℕ)
    → se.pkt_list ≡ []
    → se.is_waiting ≡ false
    → (Unasked dmac n → (se.ack_retry ≡ 0) × (se.data_retry ≡ 0))
    → u8 (se.seq + 255) ≡ u8 seq
    → se.seq < 256
    → ((b : Built) → o ≡ some b → Packet smac dmac seq (take b.msglen msg) b.snode)
    → send_built env dmac se n o ≡ (some m, n')
    → Sent env smac dmac seq m msg n n'
send_built-Sent env smac dmac seq se n none m n' msg e w unasked number byte packet h =
    absurd (unfold send_built in cc)
send_built-Sent env smac dmac seq se n (some b) m n' msg e w unasked number byte packet h =
    let p = packet b refl in
    let raw = framed (header_frame smac dmac seq (take b.msglen msg)) in
    let here : (some b.msglen, started env dmac se b.snode raw n) ≡ (some m, n') =
      sym (send_built-started env dmac se n b raw e w p.esc_len p.escaped) ∙ h in
    let returned : some b.msglen ≡ some m = ap (λ (r : Option ℕ × Node). r.0) here in
    let len : b.msglen ≡ m = cc returned in
    subst (λ (x : Node). Sent env smac dmac seq m msg n x) (ap (λ (r : Option ℕ × Node). r.1) here)
      (subst (λ (t : ℕ). Sent env smac dmac seq t msg n (started env dmac se b.snode raw n)) len
        (record {
          flight = record {
            se = sending env se b.snode;
            pkt = b.snode;
            session = ground arith;
            front = refl;
            number = number;
            byte = byte;
            packet = p;
          };
          fresh = λ u. record {
            ack_timeout = refl;
            ack_retry = (unasked u).0;
            data_retry = (unasked u).1;
          };
          lower = refl;
        }))

-- The packets that the loop of `upper_send` builds.
build_loop-Packet :
    (env : Env) (smac dmac seq : ℕ) (msg : List ℕ) (b : Built)
    → 0 < length msg
    → let filled = fill_slices link_data_max msg in
      build_loop env smac dmac seq msg
          (all_bytes filled.slices)
          (filled.n_slices + 1)
          filled.n_slices
          (length msg - filled.remain)
        ≡ some b
      → Packet smac dmac seq (take b.msglen msg) b.snode
build_loop-Packet env smac dmac seq msg b some_bytes =
    let total = n_blocks (length msg) in
    let slices = all_bytes (genuine_from msg 0 total) in
    let m : ℕ = length msg - (length msg - slice_data_len * total) in
    let c : Carries msg total m = record {
      count = omega arith;
      some_bytes = omega arith;
      prefix = omega arith;
      whole = omega arith;
    } in
    rw (fill_slices_lem msg) (λ e.
      Built-Packet env smac dmac seq msg total b
        ((build_loop_lem env smac dmac seq msg slices (total + 1) total m (omega arith)).1 b e)
        (build_loop-Carries env smac dmac seq msg slices (total + 1) total m b c e) (omega arith))

-- The session that `upper_send` finds or creates.
abbrev pub found : Env → ℕ → Node → Sse
found env mac n = elim (get_sse env n mac) [ none ↦ create_sse env | some se ↦ se ]

record Ready (env : Env) (mac : ℕ) (n : Node) (se : Sse) : Type 0 where
  packets : se.pkt_list ≡ []
  waiting : se.is_waiting ≡ false
  unasked : Unasked mac n → (se.ack_retry ≡ 0) × (se.data_retry ≡ 0)
  number : se.seq ≡ next_seq env mac n

found-Ready : (env : Env) (mac : ℕ) (n : Node) → Idle mac n → Ready env mac n (found env mac n)
unfolding get_sse create_sse
found-Ready env mac n idle = elim (Option-cases (n.sse mac)) [
  | inl q ↦
      rw (found, q)
        (record {
          packets = refl;
          waiting = refl;
          unasked = λ u. (refl, refl);
          number = rw (next_seq, q) refl;
        })
  | inr (se, q) ↦
      rw (found, q)
        (record {
          packets = idle.packets se q;
          waiting = idle.waiting se q;
          unasked = λ u. (u.ack_retry se q, u.data_retry se q);
          number = rw (next_seq, q) refl;
        })
]

pub upper_send-send_built :
    (env : Env) (smac dmac : ℕ) (msg : List ℕ) (n : Node)
    → 0 < length msg
    → let se = found env dmac n in
      let filled = fill_slices link_data_max msg in
      upper_send env smac dmac msg n
      ≡ send_built env dmac
          (record se { seq = u8 (se.seq + 1) })
          n
          (build_loop env smac dmac se.seq msg
            (all_bytes filled.slices)
            (filled.n_slices + 1)
            filled.n_slices
            (length msg - filled.remain))
unfolding upper_send
upper_send-send_built env smac dmac msg n p =
    let more : leb (length msg) 0 ≡ false = ground arith in rw more refl

upper_send-none : (env : Env) (smac dmac : ℕ) (n : Node) → upper_send env smac dmac [] n ≡ (none, n)
unfolding upper_send
upper_send-none env smac dmac n = refl

-- A message is given to a node whose session for the peer has nothing to send, or that has none.
-- If `upper_send` returns a length, the first bytes of the message, of that number, are in flight.
pub upper_send-Sent :
    (env : Env) (smac dmac : ℕ) (msg : List ℕ) (n n' : Node) (m : ℕ)
    → Idle dmac n
    → upper_send env smac dmac msg n ≡ (some m, n')
    → Sent env smac dmac (next_seq env dmac n) m msg n n'
upper_send-Sent env smac dmac [] n n' m idle h =
    let none_sent : (none, n) ≡ (some m, n') = sym (upper_send-none env smac dmac n) ∙ h in
    absurd (ground (arith, none_sent))
upper_send-Sent env smac dmac (c ∷ cs) n n' m idle h =
    let msg = c ∷ cs in
    let se = found env dmac n in
    let ready = found-Ready env dmac n idle in
    let filled = fill_slices link_data_max msg in
    let o =
      build_loop env smac dmac se.seq msg (all_bytes filled.slices) (filled.n_slices + 1)
        filled.n_slices (length msg - filled.remain) in
    subst (λ (q : ℕ). Sent env smac dmac q m msg n n') ready.number
      (send_built-Sent env smac dmac se.seq (record se { seq = u8 (se.seq + 1) }) n o m n' msg
        ready.packets ready.waiting ready.unasked (omega arith) (omega arith)
        (λ b e. build_loop-Packet env smac dmac se.seq msg b (omega arith) e)
        (sym (upper_send-send_built env smac dmac msg n (omega arith)) ∙ h))
