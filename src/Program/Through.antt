-- ===== src/Program/Through.antt =====
-- The whole way of a packet: `recv_tun` of one program, four frames on the link, `recv_unsplit` of
-- the other.
use ipcf.Common.{
  ℕ, ◌+◌, ◌*◌, ◌≤◌, ◌≡◌, refl, sym, ap, ap₂, ◌∙◌, true, false, Option, none, some, List, [], ◌∷◌,
  ◌++◌, arith, length, take_all, is_empty, leb,
}
use mathlib.Core.Path.{subst}
use mathlib.Core.Option.{some-injective}
use ipcf.Common.Fault.{◌>>=◌, >>=-eq-some}
use ipcf.Common.Word.{u32}
use ipcf.Split.Types as S
use ipcf.Split.Types.{array, link_data_max}
use ipcf.Split.Frame.Encode.{stuffed}
use ipcf.Split.Slice.{fill_slices}
use ipcf.Split.Slice.Layout.{all_bytes}
use ipcf.Split.Queue.{upper_recv, upper_recv_queue}
use ipcf.Split.UpperSend.{upper_send}
use ipcf.Split.Link.{max_buf_size, carry, exchange}
use ipcf.Split.Link.Stream.{Round, Quiet, whole_message}
use ipcf.Compact.Table.{Table}
use ipcf.Compact.Flows.{Flows}
use ipcf.Compact.Xmit.{xmit_compress, recv_compress}
use ipcf.Program.{Around, Output, Program, send_pkts, write_pkt, send_back, recv_tun, recv_unsplit}
use ipcf.Program.Deliver.{pass, pass-carry}

-- The packet at the head of the queue for the upper layer.
upper_recv-head :
    (n : S.Node) (pkt : List ℕ)
    → n.upper_recv_list ≡ pkt ∷ []
    → length pkt ≤ 1000
    → (upper_recv n max_buf_size).0.buf ≡ pkt
unfolding upper_recv upper_recv_queue
upper_recv-head n pkt e h =
    let room : leb (length pkt) max_buf_size ≡ true = ground arith in
    rw (e, room) (take_all (length pkt) pkt (omega arith))

upper_recv-rest :
    (n : S.Node) (pkt : List ℕ)
    → n.upper_recv_list ≡ pkt ∷ []
    → (upper_recv n max_buf_size).1 ≡ record n { upper_recv_list = [] }
unfolding upper_recv upper_recv_queue
upper_recv-rest n pkt e = rw e refl

Quiet-emptied : (a b : S.Node) → Quiet 1 a b → Quiet 1 a (record b { upper_recv_list = [] })
Quiet-emptied a b q = record {
  idle = q.idle;
  sent_all = q.sent_all;
  answered = q.answered;
  room = (q.room.0, record { each = q.room.1.each });
}

pub not_empty : (pkt : List ℕ) → 1 ≤ length pkt → is_empty pkt ≡ false
not_empty [] h = absurd (omega arith)
not_empty (x ∷ xs) h = refl

module _ (T : Table) (hash_bytes : List ℕ → ℕ) where
  -- Four frames, each answered by the next.
  unfoldable pub four_passes :
      Around → Around → Around → Around → Program T → Program T → Option (Program T × Program T)
  four_passes e1 e2 e3 e4 p q = do
    (p1, q1) ← pass T e1 p q
    (q2, p2) ← pass T e2 q1 p1
    (p3, q3) ← pass T e3 p2 q2
    (q4, p4) ← pass T e4 q3 p3
    some (p4, q4)

  -- A packet is read from the device, its frames pass, and a packet is written to the device.
  unfoldable pub deliver :
      Around
      → Around
      → Around
      → Around
      → Around
      → Around
      → List ℕ
      → Program T
      → Program T
      → Option (Output × Program T × Program T)
  deliver e0 e1 e2 e3 e4 e5 bytes p q = do
    p0 ← recv_tun T hash_bytes e0 bytes p
    (p4, q4) ← four_passes e1 e2 e3 e4 p0 q
    (o, q5) ← recv_unsplit T hash_bytes e5 q4
    some (o, p4, q5)

  -- A packet for which the header compression gives one packet.
  recv_tun-single :
      (env : Around) (bytes cpkt : List ℕ) (p : Program T) (c : Flows T)
      → is_empty bytes ≡ false
      → xmit_compress T hash_bytes env.compact (array env.stale bytes) p.flows ≡ some (cpkt ∷ [], c)
      → (p' : Program T) × (recv_tun T hash_bytes env bytes p ≡ some p')
        × (p'.node ≡ (upper_send env.link 2 1 cpkt p.node).1)
        × (p'.flows ≡ c)
  unfolding recv_tun send_pkts
  recv_tun-single env bytes cpkt p c full e = (
    record p {
      full_ip_s = u32 (p.full_ip_s + length bytes);
      compact_ip_s = u32 (p.compact_ip_s + length cpkt);
      flows = c;
      node = (upper_send env.link 2 1 cpkt p.node).1;
    },
    rw (full, e) refl,
    refl,
    refl,
  )

  -- A message from which the header compression rebuilds a packet.
  recv_unsplit-single :
      (env : Around) (cpkt pkt : List ℕ) (q : Program T) (d : Flows T)
      → is_empty cpkt ≡ false
      → length cpkt ≤ 1000
      → q.node.upper_recv_list ≡ cpkt ∷ []
      → recv_compress T hash_bytes env.compact (array env.stale cpkt) (length cpkt) q.flows
        ≡ some (some pkt, none, d)
      → (q' : Program T) × (recv_unsplit T hash_bytes env q
          ≡ some (record { sent = none; written = some pkt }, q'))
        × (q'.node ≡ record q.node { upper_recv_list = [] })
        × (q'.flows ≡ d)
  unfolding recv_unsplit write_pkt send_back
  recv_unsplit-single env cpkt pkt q d full small e r =
      let buf = upper_recv-head q.node cpkt e small in
      (
        record q {
          node = (upper_recv q.node max_buf_size).1;
          flows = d;
          compact_ip_r = u32 (q.compact_ip_r + length cpkt);
          full_ip_r = u32 (q.full_ip_r + length pkt);
        },
        rw (buf, full, r) refl,
        upper_recv-rest q.node cpkt e,
        refl,
      )

  -- The exchange of the two split layers, by the programs.
  four_passes-exchange :
      (e1 e2 e3 e4 : Around) (p q : Program T) (a b : S.Node)
      → exchange e1.link e2.link e3.link e4.link p.node q.node ≡ some (a, b)
      → (p' : Program T) × (q' : Program T) × (four_passes e1 e2 e3 e4 p q ≡ some (p', q'))
        × (p'.node ≡ a)
        × (q'.node ≡ b)
        × (p'.flows ≡ p.flows)
        × (q'.flows ≡ q.flows)
  unfolding exchange four_passes
  four_passes-exchange e1 e2 e3 e4 p q a b h =
      let ((n1, m1), c1, h1) = >>=-eq-some (carry e1.link p.node q.node) _ h in
      let ((m2, n2), c2, h2) = >>=-eq-some (carry e2.link m1 n1) _ h1 in
      let ((n3, m3), c3, h3) = >>=-eq-some (carry e3.link n2 m2) _ h2 in
      let ((m4, n4), c4, h4) = >>=-eq-some (carry e4.link m3 n3) _ h3 in
      let pair = some-injective (n4, m4) (a, b) h4 in
      let (p1, q1, run1, gp1, gq1) = pass-carry T e1 p q n1 m1 c1 in
      let (q2, p2, run2, gq2, gp2) =
        pass-carry T e2 q1 p1 m2 n2 (ap₂ (carry e2.link) gq1.node gp1.node ∙ c2) in
      let (p3, q3, run3, gp3, gq3) =
        pass-carry T e3 p2 q2 n3 m3 (ap₂ (carry e3.link) gp2.node gq2.node ∙ c3) in
      let (q4, p4, run4, gq4, gp4) =
        pass-carry T e4 q3 p3 m4 n4 (ap₂ (carry e4.link) gq3.node gp3.node ∙ c4) in
      (
        p4,
        q4,
        rw (run1, run2, run3, run4) refl,
        gp4.node ∙ ap (λ (x : S.Node × S.Node). x.0) pair,
        gq4.node ∙ ap (λ (x : S.Node × S.Node). x.1) pair,
        gp4.flows ∙ gp3.flows ∙ gp2.flows ∙ gp1.flows,
        gq4.flows ∙ gq3.flows ∙ gq2.flows ∙ gq1.flows,
      )

  -- Two programs, joined by a link that loses nothing, of which the one has nothing else to send and
  -- the other has no frame and no data in its queues, and the arrays of whose receive sessions have
  -- their size.
  pub record Joined (p q : Program T) : Type 0 where
    pub quiet : Quiet 1 p.node q.node
    pub none_up : q.node.upper_recv_list ≡ []

  -- `upper_send` takes all of a message of 1 to 864 bytes, whose stuffed slices fit in a frame.
  pub record IsTaken (env : Around) (cpkt : List ℕ) (p : Program T) : Type 0 where
    pub at_least : 1 ≤ length cpkt
    pub at_most : length cpkt ≤ 27 * 32
    pub taken : (upper_send env.link 2 1 cpkt p.node).0 ≡ some (length cpkt)
    pub fits : length (stuffed (all_bytes (fill_slices link_data_max cpkt).slices)) ≤ 962

  -- What the header compression of the one makes of a packet is what that of the other gets.
  pub deliver_through :
      (e0 e1 e2 e3 e4 e5 : Around) (bytes cpkt pkt : List ℕ) (p q : Program T) (c d : Flows T)
      → is_empty bytes ≡ false
      → xmit_compress T hash_bytes e0.compact (array e0.stale bytes) p.flows ≡ some (cpkt ∷ [], c)
      → recv_compress T hash_bytes e5.compact (array e5.stale cpkt) (length cpkt) q.flows
        ≡ some (some pkt, none, d)
      → Joined p q
      → IsTaken e0 cpkt p
      → (p' : Program T) × (q' : Program T) × (deliver e0 e1 e2 e3 e4 e5 bytes p q
          ≡ some (record { sent = none; written = some pkt }, p', q'))
        × Joined p' q'
        × (p'.flows ≡ c)
        × (q'.flows ≡ d)
  unfolding deliver
  deliver_through e0 e1 e2 e3 e4 e5 bytes cpkt pkt p q c d full sent received j t =
      let (p0, read, node, flows) = recv_tun-single e0 bytes cpkt p c full sent in
      let round : Round = record {
        msg = cpkt;
        e0 = e0.link;
        e1 = e1.link;
        e2 = e2.link;
        e3 = e3.link;
        e4 = e4.link;
      } in
      let (a', b', ran, up, quiet) = whole_message 2 1 round p.node q.node t.taken t.fits j.quiet in
      let (p4, q4, passed, at_p, at_q, kept, same) =
        four_passes-exchange e1 e2 e3 e4 p0 q a' b'
          (ap (λ (n : S.Node). exchange e1.link e2.link e3.link e4.link n q.node) node ∙ ran) in
      let handed_up : q4.node.upper_recv_list ≡ cpkt ∷ [] =
        ap (λ (n : S.Node). n.upper_recv_list) at_q ∙ up ∙ ap (λ l. l ++ (cpkt ∷ [])) j.none_up in
      let (q5, written, at_q5, flows') =
        recv_unsplit-single e5 cpkt pkt q4 d (not_empty cpkt t.at_least) (omega (arith, t.at_most))
          handed_up
          (ap (recv_compress T hash_bytes e5.compact (array e5.stale cpkt) (length cpkt)) same
            ∙ received) in
      let emptied : q5.node ≡ record b' { upper_recv_list = [] } =
        at_q5 ∙ ap (λ (n : S.Node). record n { upper_recv_list = [] }) at_q in
      let joined : Joined p4 q5 = record {
        quiet =
            subst (λ (n : S.Node). Quiet 1 n q5.node) (sym at_p)
              (subst (λ (n : S.Node). Quiet 1 a' n) (sym emptied) (Quiet-emptied a' b' quiet));
        none_up = ap (λ (n : S.Node). n.upper_recv_list) emptied;
      } in
      (p4, q5, rw (read, passed, written) refl, joined, kept ∙ flows, flows')
