-- ===== src/Split/Link/Start.antt =====
-- What `upper_send` puts on its way: a packet of the first bytes of the message.
use ipcf.Common.{
  ℕ, zero, suc, ◌+◌, ◌-◌, ◌*◌, ◌/◌, ◌≤◌, ◌<◌, ◌≡◌, ◌⊎◌, inl, inr, refl, sym, ap, ◌∙◌, false,
  Bool-cases, some, List, [], arith, length, take, length-take, leb,
}
use ipcf.Split.Types.{link_mtu, frm_msg_hdr_len, slice_len, slice_data_len, slice_bytes, Env}
use ipcf.Split.Types.{frame_bytes}
use ipcf.Split.Frame.{en_frame}
use ipcf.Split.Frame.Encode.{framed, length-framed, length-stuffed}
use ipcf.Split.Slice.{fill_slice_k}
use ipcf.Split.Slice.Fill.{genuine_from}
use ipcf.Split.Slice.Layout.{all_bytes}
use ipcf.Split.Link.Patch.{block-take, slice_at}
use ipcf.Split.Link.Ask.{data_hdr, data_msg_hdr}
use ipcf.Split.Link.Answer.{Packet}
use ipcf.Split.UpperSend.{Built, data_frame, build_loop}
use ipcf.Split.UpperSend.Build.{BuiltOf, one_at_least}

-- `n` slices carry the first `m` bytes of a message, and each of them but the message's last one is
-- whole.
pub record Carries (msg : List ℕ) (n m : ℕ) : Type 0 where
  pub count : n ≡ (m + 31) / 32
  pub some_bytes : 0 < m
  pub prefix : m ≤ length msg
  pub whole : (m ≡ 32 * n) ⊎ (m ≡ length msg)

cut-Carries :
    (msg : List ℕ) (n m cut : ℕ)
    → Carries msg n m
    → 1 ≤ cut
    → leb n cut ≡ false
    → Carries msg (n - cut) (32 * (n - cut))
cut-Carries msg n m cut c h l =
    let more : cut < n = ground arith in
    record {
      count = omega arith;
      some_bytes = omega arith;
      prefix = omega (arith, c.count, c.prefix, c.some_bytes);
      whole = inl refl;
    }

module _ (env : Env) (smac dmac seq : ℕ) (msg slices : List ℕ) where
  pub build_loop-Carries :
      (f n m : ℕ) (b : Built)
      → Carries msg n m
      → build_loop env smac dmac seq msg slices f n m ≡ some b
      → Carries msg b.snode.n_slices b.msglen
  unfolding build_loop
  build_loop-Carries zero n m b c e = cc
  build_loop-Carries (suc f) n m b c e =
      let frm = data_frame smac dmac seq (take m msg) n slices in
      let len = slice_len * n + frm_msg_hdr_len in
      let whole = en_frame (take len frm) link_mtu in
      let cut = (len - whole.used + slice_data_len) / slice_data_len in
      elim (Bool-cases whole.fits) [
        | inl q ↦ ground (arith, e, q, c)
        | inr q ↦ elim (Bool-cases (leb n cut)) [
          | inl q' ↦ absurd (ground (arith, e, q, q'))
          | inr q' ↦
              build_loop-Carries f (n - cut) (slice_data_len * (n - cut)) b
                (cut-Carries msg n m cut c (one_at_least (len - whole.used)) q')
                (ground (arith, e, q, q'))
        ]
      ]

-- A built packet carries the first bytes of the message.
pub Built-Packet :
    (env : Env) (smac dmac seq : ℕ) (full : List ℕ) (total : ℕ) (b : Built)
    → BuiltOf env smac dmac seq full (all_bytes (genuine_from full 0 total)) total b
    → Carries full b.snode.n_slices b.msglen
    → total ≤ 27
    → Packet smac dmac seq (take b.msglen full) b.snode
Built-Packet env smac dmac seq full total b built c few =
    let msg = take b.msglen full in
    let slices = all_bytes (genuine_from full 0 total) in
    let len : length msg ≡ b.msglen = omega (arith, length-take b.msglen full, c.prefix) in
    let count : b.snode.n_slices ≡ (length msg + 31) / 32 = omega (arith, c.count, len) in
    let frm : b.snode.frm
        ≡ frame_bytes (data_hdr smac dmac ((length msg + 31) / 32)) (data_msg_hdr seq msg) []
            slices =
      built.frm
      ∙ ap (λ (t : ℕ). frame_bytes (data_hdr smac dmac t) (data_msg_hdr seq msg) [] slices) count in
    let header =
      frame_bytes (data_hdr smac dmac ((length msg + 31) / 32)) (data_msg_hdr seq msg) [] [] in
    let head = take frm_msg_hdr_len b.snode.frm in
    record {
      slices = slices;
      frm = frm;
      n_slices = count;
      at = λ d l.
          slice_at header full b.snode.frm total d refl frm (omega (arith, built.slices_left))
          ∙ ap (λ bytes. slice_bytes (fill_slice_k d bytes))
              (sym (block-take full b.msglen d (in_front d l)));
      esc_len = omega (
        arith,
        built.esc_len,
        length-framed head,
        length-stuffed head,
        length-take frm_msg_hdr_len b.snode.frm,
      );
      escaped = built.escaped ∙ ap (λ l. framed (take frm_msg_hdr_len l)) frm;
      some_bytes = omega (arith, len, c.some_bytes);
      small = omega (arith, len, c.count, built.slices_left);
    }
  where
    in_front :
        (d : ℕ)
        → d < b.snode.n_slices
        → (slice_data_len * (d + 1) ≤ b.msglen) ⊎ (length full ≤ b.msglen)
    in_front d l = elim c.whole [ inl e ↦ inl (omega arith) | inr e ↦ inr (omega arith) ]
