-- ===== src/Split/UpperSend/Build.antt =====
-- The loop of `upper_send` that cuts slices off: it ends, and what it builds fits in a frame.
use mathlib.Core.Path.{subst}
use ipcf.Common.{
  ℕ, zero, suc, ◌+◌, ◌-◌, ◌*◌, ◌/◌, ◌≤◌, ◌<◌, ◌≡◌, refl, ap, ◌∙◌, true, false, Option, none, some,
  List, arith, length, take, leb, ltb, Bool-cases, inl, inr, length-take, take-append, ltb→lt,
  ltb-false→le,
}
use ipcf.Split.Types.{link_mtu, frm_msg_hdr_len, slice_len, slice_data_len, Env, ret_len, array}
use ipcf.Split.Frame.{en_frame, EnFrame}
use ipcf.Split.Frame.Encode.{framed, length-stuffed, length-framed, en_frame-framed, en_frame_over}
use ipcf.Split.UpperSend.{Built, data_frame, build_loop}

-- A frame that `en_frame` accepts.
fits-framed :
    (msg : List ℕ) (size : ℕ) → (en_frame msg size).fits ≡ true → length (framed msg) ≤ size
fits-framed msg size h = elim (Bool-cases (ltb size (length (framed msg)))) [
  | inl q ↦ absurd (ground (arith, h, en_frame_over msg size (ltb→lt size (length (framed msg)) q)))
  | inr q ↦ ltb-false→le size (length (framed msg)) q
]

-- The headers always fit.
head-framed :
    (frm : List ℕ)
    → en_frame (take frm_msg_hdr_len frm) link_mtu ≡ record {
      fits = true;
      used = length (take frm_msg_hdr_len frm);
      bytes = framed (take frm_msg_hdr_len frm);
    }
head-framed frm =
    let head = take frm_msg_hdr_len frm in
    en_frame-framed head link_mtu
      (omega (arith, length-framed head, length-stuffed head, length-take frm_msg_hdr_len frm))

-- A round cuts off one slice at least.
pub one_at_least : (m : ℕ) → 1 ≤ (m + slice_data_len) / slice_data_len
one_at_least m = omega arith

module _ (env : Env) (smac dmac seq : ℕ) (msg slices : List ℕ) where
  -- A packet for the first `b.msglen` bytes of the message, whose frame with all of its slices fits
  -- in LINK_MTU; the bytes ready for the link are the frame of its two headers.
  pub record BuiltOf (n : ℕ) (b : Built) : Type 0 where
    pub frm : b.snode.frm ≡ data_frame smac dmac seq (take b.msglen msg) b.snode.n_slices slices
    pub slices_left : b.snode.n_slices ≤ n
    pub fits :
        length (framed (take (slice_len * b.snode.n_slices + frm_msg_hdr_len) b.snode.frm))
        ≤ link_mtu
    pub esc_len : b.snode.esc_len ≡ length (framed (take frm_msg_hdr_len b.snode.frm))
    pub escaped : take b.snode.esc_len b.snode.escaped ≡ framed (take frm_msg_hdr_len b.snode.frm)

  -- The frame of a round with `n` slices for `msglen` bytes, as `en_frame` takes it.
  abbrev round : ℕ → ℕ → EnFrame
  round n msglen =
      en_frame
        (take (slice_len * n + frm_msg_hdr_len)
          (data_frame smac dmac seq (take msglen msg) n slices))
        link_mtu

  -- How many slices a round cuts off.
  abbrev cut_of : ℕ → ℕ → ℕ
  cut_of n msglen =
      (slice_len * n + frm_msg_hdr_len - (round n msglen).used + slice_data_len) / slice_data_len

  -- The rounds of the loop: from one that does not fit, and of whose slices some are left, to the
  -- next.
  pub data Rounds : ℕ → ℕ → ℕ → ℕ → Type 0 where
    here : {n msglen : ℕ} → Rounds n msglen n msglen
    next :
        {n msglen m len : ℕ}
        → (round n msglen).fits ≡ false
        → cut_of n msglen < n
        → Rounds (n - cut_of n msglen) (slice_data_len * (n - cut_of n msglen)) m len
        → Rounds n msglen m len

  -- How the loop ends: in a round whose frame fits, or in one that would cut all of its slices off.
  pub record Sends (n msglen : ℕ) (b : Built) : Type 0 where
    pub rounds : Rounds n msglen b.snode.n_slices b.msglen
    pub fits : (round b.snode.n_slices b.msglen).fits ≡ true

  pub record GivesUp (n msglen : ℕ) : Type 0 where
    pub left : ℕ
    pub len : ℕ
    pub rounds : Rounds n msglen left len
    pub over : (round left len).fits ≡ false
    pub all_cut : left ≤ cut_of left len

  abbrev pub Ends : ℕ → ℕ → Option Built → Type 0
  Ends n msglen none = GivesUp n msglen
  Ends n msglen (some b) = Sends n msglen b

  -- Once the fuel is above the number of slices, more of it changes nothing.
  enough_fuel :
      (f g n msglen : ℕ)
      → n < f
      → n < g
      → build_loop env smac dmac seq msg slices f n msglen
        ≡ build_loop env smac dmac seq msg slices g n msglen
  unfolding build_loop
  enough_fuel zero g n msglen hf hg = absurd (omega arith)
  enough_fuel (suc f) zero n msglen hf hg = absurd (omega arith)
  enough_fuel (suc f) (suc g) n msglen hf hg =
      let frm = data_frame smac dmac seq (take msglen msg) n slices in
      let len = slice_len * n + frm_msg_hdr_len in
      let cut = (len - (en_frame (take len frm) link_mtu).used + slice_data_len) / slice_data_len in
      elim (Bool-cases (leb n cut)) [
        | inl q ↦ rw q refl
        | inr q ↦
            let fewer : n - cut < n =
              ground (arith, q, one_at_least (len - (en_frame (take len frm) link_mtu).used)) in
            rw (enough_fuel f g (n - cut) (slice_data_len * (n - cut)) (omega arith) (omega arith))
              refl
      ]

  built_now :
      (n msglen : ℕ)
      → let frm = data_frame smac dmac seq (take msglen msg) n slices in
        let whole = en_frame (take (slice_len * n + frm_msg_hdr_len) frm) link_mtu in
        let head = en_frame (take frm_msg_hdr_len frm) link_mtu in
        whole.fits ≡ true
        → BuiltOf n (record {
          snode = record {
            n_slices = n;
            frm = frm;
            esc_len = ret_len head;
            escaped = array (array env.stale whole.bytes) head.bytes;
          };
          msglen = msglen;
        })
  built_now n msglen h =
      let frm = data_frame smac dmac seq (take msglen msg) n slices in
      let whole = en_frame (take (slice_len * n + frm_msg_hdr_len) frm) link_mtu in
      record {
        frm = refl;
        slices_left = omega arith;
        fits = fits-framed (take (slice_len * n + frm_msg_hdr_len) frm) link_mtu h;
        esc_len = ap ret_len (head-framed frm);
        escaped =
            ap (λ (r : EnFrame). take (ret_len r) (array (array env.stale whole.bytes) r.bytes))
              (head-framed frm)
            ∙ take-append (length (framed (take frm_msg_hdr_len frm)))
                (framed (take frm_msg_hdr_len frm)) _ refl;
      }

  build_loop-BuiltOf :
      (f n msglen : ℕ) (b : Built)
      → build_loop env smac dmac seq msg slices f n msglen ≡ some b
      → BuiltOf n b
  unfolding build_loop
  build_loop-BuiltOf zero n msglen b e = cc
  build_loop-BuiltOf (suc f) n msglen b e =
      let frm = data_frame smac dmac seq (take msglen msg) n slices in
      let len = slice_len * n + frm_msg_hdr_len in
      let whole = en_frame (take len frm) link_mtu in
      let cut = (len - whole.used + slice_data_len) / slice_data_len in
      elim (Bool-cases whole.fits) [
        | inl q ↦ subst (BuiltOf n) (ground (arith, e, q)) (built_now n msglen q)
        | inr q ↦ elim (Bool-cases (leb n cut)) [
          | inl q' ↦ absurd (ground (arith, e, q, q'))
          | inr q' ↦
              let ih =
                build_loop-BuiltOf f (n - cut) (slice_data_len * (n - cut)) b
                  (ground (arith, e, q, q')) in
              record {
                frm = ih.frm;
                slices_left = omega (arith, ih.slices_left);
                fits = ih.fits;
                esc_len = ih.esc_len;
                escaped = ih.escaped;
              }
        ]
      ]

  Ends-next :
      (n msglen : ℕ) (o : Option Built)
      → (round n msglen).fits ≡ false
      → cut_of n msglen < n
      → Ends (n - cut_of n msglen) (slice_data_len * (n - cut_of n msglen)) o
      → Ends n msglen o
  Ends-next n msglen none over some_left h = record {
    left = h.left;
    len = h.len;
    rounds = next over some_left h.rounds;
    over = h.over;
    all_cut = h.all_cut;
  }
  Ends-next n msglen (some b) over some_left h = record {
    rounds = next over some_left h.rounds;
    fits = h.fits;
  }

  build_loop-Ends :
      (f n msglen : ℕ) → n < f → Ends n msglen (build_loop env smac dmac seq msg slices f n msglen)
  unfolding build_loop
  build_loop-Ends zero n msglen h = absurd (omega arith)
  build_loop-Ends (suc f) n msglen h =
      let cut = cut_of n msglen in
      let least = one_at_least (slice_len * n + frm_msg_hdr_len - (round n msglen).used) in
      elim (Bool-cases (round n msglen).fits) [
        | inl q ↦ rw q (record { rounds = here; fits = q })
        | inr q ↦ elim (Bool-cases (leb n cut)) [
          | inl q' ↦
              rw (q, q')
                (record {
                  left = n;
                  len = msglen;
                  rounds = here;
                  over = q;
                  all_cut = ground (arith, q');
                })
          | inr q' ↦
              let some_left : cut < n = ground (arith, q') in
              rw (q, q')
                (Ends-next n msglen _ q some_left
                  (build_loop-Ends f (n - cut) (slice_data_len * (n - cut)) (omega arith)))
        ]
      ]

  -- From `n` slices on, fuel above `n` is enough for the loop of `upper_send`: it ends in one of its
  -- rounds, either with the packet of a round whose frame fits, or, with none, in a round whose frame
  -- does not fit and that would cut all of its slices off; and more fuel changes nothing. If it
  -- builds a packet, its frame holds the headers for the first `msglen` bytes and at most `n` slices,
  -- fits in LINK_MTU when stuffed, and what is queued for the link is the frame of its two headers.
  pub build_loop_lem :
      (f n msglen : ℕ)
      → n < f
      → ((g : ℕ)
          → n < g
          → build_loop env smac dmac seq msg slices g n msglen
            ≡ build_loop env smac dmac seq msg slices f n msglen)
        × ((b : Built) → build_loop env smac dmac seq msg slices f n msglen ≡ some b → BuiltOf n b)
        × Ends n msglen (build_loop env smac dmac seq msg slices f n msglen)
  build_loop_lem f n msglen h = (
    λ g h'. enough_fuel g f n msglen h' h,
    λ b e. build_loop-BuiltOf f n msglen b e,
    build_loop-Ends f n msglen h,
  )
