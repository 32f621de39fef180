-- ===== src/Split/Link/Silent.antt =====
-- A peer that does not know the message that the sender asks about: the sender asks some times, then
-- it sends the headers again.
use ipcf.Common.{
  ℕ, ◌≡◌, inl, inr, refl, ap, ◌∙◌, true, false, Option, Option-cases, none, some, List, [], arith,
  length, ◌==◌, ltb,
}
use ipcf.Common.Fault.{◌>>=◌}
use ipcf.Split.Types.{frm_hdr_len, msg_hdr_len, read_frm, read_msg, msg_csum, Node, Env, size_sub}
use ipcf.Split.Frame.Encode.{framed}
use ipcf.Split.Recv.{put_rse, proc_ack_req}
use ipcf.Split.Node.{lower_put}
use ipcf.Split.Link.Ask.{HasRoom}
use ipcf.Split.Link.Step.{Unknown}
use ipcf.Split.Link.Retry.{ackr_frame, looked, read_msg-ackr_frame, lower_put-ackr}

-- What a look at a session leaves as it was.
pub record Untouched (mac seq : ℕ) (n n' : Node) : Type 0 where
  pub lower : n'.lower_send_list ≡ n.lower_send_list
  pub upper : n'.upper_recv_list ≡ n.upper_recv_list
  pub room : HasRoom mac n → HasRoom mac n'
  pub unknown : Unknown mac seq n'

module _ (env : Env) (smac dmac seq reserved : ℕ) (n : Node) (unknown : Unknown smac seq n) where
  proc_ack_req-Untouched :
      (buf : List ℕ)
      → (read_frm buf).src ≡ smac
      → (read_msg buf).seq ≡ seq
      → ltb (size_sub (length buf) frm_hdr_len) msg_hdr_len ≡ false
      → ((read_msg buf).csum == msg_csum (read_msg buf) []) ≡ true
      → (n' : Node) × (proc_ack_req env buf n ≡ some n') × Untouched smac seq n n'
  unfolding proc_ack_req
  proc_ack_req-Untouched buf src is_seq long good = elim (Option-cases (n.rse smac)) [
    | inl q ↦
        let here : n.rse (read_frm buf).src ≡ none = ap n.rse src ∙ q in
        (
          n,
          rw (long, good, here) refl,
          record { lower = refl; upper = refl; room = λ h. h; unknown = unknown },
        )
    | inr (se, q) ↦
        let here : n.rse (read_frm buf).src ≡ some se = ap n.rse src ∙ q in
        let other : (se.seq_exp == (read_msg buf).seq) ≡ false =
          ap (λ (t : ℕ). se.seq_exp == t) is_seq ∙ unknown.other se q in
        (
          put_rse smac (looked env se) n,
          rw (long, good, here, other, src) refl,
          record {
            lower = refl;
            upper = refl;
            room = λ h m e. ground (arith, e, h se q);
            unknown = record { other = λ m e. ground (arith, e, unknown.other se q) };
          },
        )
  ]

  -- Such a node drops the frame that asks.
  pub lower_put-Untouched :
      let raw = framed (ackr_frame smac dmac seq reserved) in
      (n' : Node) × (lower_put env raw n ≡ some (some (length raw), n')) × Untouched smac seq n n'
  lower_put-Untouched =
      let frame = ackr_frame smac dmac seq reserved in
      let (is_seq, good) = read_msg-ackr_frame smac dmac seq reserved in
      let (n', run, untouched) = proc_ack_req-Untouched frame refl is_seq refl good in
      (
        n',
        lower_put-ackr env smac dmac seq reserved n
            ∙ ap (λ (m : Option Node). m >>= λ n'. some (some (length (framed frame)), n')) run,
        untouched,
      )
