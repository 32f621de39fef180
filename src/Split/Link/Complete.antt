-- ===== src/Split/Link/Complete.antt =====
-- The frame of the missing slices at the receiver, which then has the whole message.
use ipcf.Common.{
  ℕ, suc, ◌+◌, ◌-◌, ◌*◌, ◌/◌, ◌≤◌, ◌<◌, ◌≡◌, ◌⊎◌, inl, inr, refl, sym, ap, ap₂, ◌∙◌, true, false,
  ◌||◌, Option, some, List, [], ◌∷◌, ◌++◌, map, arith, length, ◌==◌, ==_iff, ltb, le→ltb-false, All,
}
use mathlib.Core.Path.{subst}
use mathlib.Core.List.{append-nil}
use ipcf.Common.Fault.{◌>>=◌}
use ipcf.Common.Bits.{bit}
use ipcf.Common.Word.{u8}
use ipcf.Compact.Table.{has}
use ipcf.Split.Types.{
  link_mtu, frm_hdr_len, msg_hdr_len, slice_len, frm_msg_hdr_len, read_frm, MsgHdr, read_msg,
  msg_csum, frame_bytes, frame_type_acka, Rse, Node, Env, size_sub, Slice, idle_timeout_ms,
}
use ipcf.Split.Types.Headers.{read_msg-frame_bytes}
use ipcf.Split.Frame.Encode.{framed}
use ipcf.Split.Slice.{patch_rse, read_slices}
use ipcf.Split.Slice.Layout.{all_bytes, IsSlice, read_slices_lem}
use ipcf.Split.Slice.Patch.{Waits, Arrival, genuine, any_brings, arrivals}
use ipcf.Split.Recv.{put_rse, ack_frame, patch_done, proc_patch}
use ipcf.Split.Recv.Deliver.{Answers, Delivers, patch_done-Delivers}
use ipcf.Split.Node.{lower_put}
use ipcf.Split.Link.Wire.{queue_frame-queued, lower_put-framed}
use ipcf.Split.Link.Patch.{genuine_slice, genuine_slice-IsSlice}
use ipcf.Split.Link.Ask.{Awaits, ack_frame_fits}
use ipcf.Split.Link.Answer.{patch_hdr, patch_msg_hdr, patch_frame, length-slices}

slices-IsSlice : (msg ms : List ℕ) → All IsSlice (map (genuine_slice msg) ms)
slices-IsSlice msg [] = tt
slices-IsSlice msg (m ∷ ms) = (genuine_slice-IsSlice msg m, slices-IsSlice msg ms)

length-map : (S : ℕ → Slice) (ms : List ℕ) → length (map S ms) ≡ length ms
length-map S [] = refl
length-map S (m ∷ ms) = ap suc (length-map S ms)

-- The slices that are read from the frame.
read_slices-patch_frame :
    (smac dmac seq : ℕ) (msg ms : List ℕ)
    → read_slices (patch_frame smac dmac seq msg ms) (length ms) ≡ map (genuine_slice msg) ms
read_slices-patch_frame smac dmac seq msg ms =
    let ss = map (genuine_slice msg) ms in
    let header =
      frame_bytes (patch_hdr smac dmac (length ms)) (patch_msg_hdr seq (length ms)) [] [] in
    ap₂ (λ (b : List ℕ) (t : ℕ). read_slices (header ++ b) t) (sym (append-nil (all_bytes ss)))
      (sym (length-map (genuine_slice msg) ms))
    ∙ read_slices_lem header [] ss refl (slices-IsSlice msg ms)

module _ (msg : List ℕ) where
  -- Slices of the message, as arrivals.
  arrive : (ms : List ℕ) → All (λ d. d < (length msg + 31) / 32) ms → List (Arrival msg)
  arrive [] below = []
  arrive (m ∷ ms) below = genuine m below.0 ∷ arrive ms below.1

  arrivals-arrive :
      (ms : List ℕ) (below : All (λ d. d < (length msg + 31) / 32) ms)
      → arrivals (arrive ms below) ≡ map (genuine_slice msg) ms
  unfolding arrive
  arrivals-arrive [] below = refl
  arrivals-arrive (m ∷ ms) below = ap (λ l. genuine_slice msg m ∷ l) (arrivals-arrive ms below.1)

  any_brings-arrive :
      (j : ℕ) (ms : List ℕ) (below : All (λ d. d < (length msg + 31) / 32) ms)
      → any_brings j (arrive ms below) ≡ has j ms
  unfolding arrive
  any_brings-arrive j [] below = refl
  any_brings-arrive j (m ∷ ms) below = ap (λ b. j == m || b) (any_brings-arrive j ms below.1)

-- The path of `proc_patch` to the session.
proc_patch-session :
    (env : Env) (buf : List ℕ) (n : Node) (se : Rse) (count : ℕ)
    → n.rse (read_frm buf).src ≡ some se
    → (read_msg buf).len ≡ count
    → u8 ((length buf - frm_msg_hdr_len) / slice_len) ≡ count
    → (se.seq_exp == (read_msg buf).seq) ≡ true
    → se.completed ≡ false
    → ltb (size_sub (length buf) frm_hdr_len) (msg_hdr_len + slice_len) ≡ false
    → ((read_msg buf).csum == msg_csum (read_msg buf) []) ≡ true
    → let se' : Rse = record se { idle_timeout = env.now + idle_timeout_ms } in
      proc_patch env buf n ≡ (do
        se'' ← patch_rse se' (read_slices buf count)
        patch_done env (read_frm buf) se'' (put_rse (read_frm buf).src se' n))
unfolding proc_patch
proc_patch-session env buf n se count known len possible number open_ long good =
    let full : ltb count count ≡ false = le→ltb-false count count (omega arith) in
    rw (long, good, known, number, open_, possible, len, full) refl

-- The message has been handed up once, after what waited there, and its acknowledgement is queued
-- for the link.
pub record Completed (smac dmac seq : ℕ) (msg : List ℕ) (n n' : Node) : Type 0 where
  pub upper : n'.upper_recv_list ≡ n.upper_recv_list ++ (msg ∷ [])
  pub lower :
      n'.lower_send_list
      ≡ n.lower_send_list ++ (framed (ack_frame smac dmac frame_type_acka seq []) ∷ [])
  pub session : (se : Rse) × (n'.rse smac ≡ some se) × Answers seq se

module _ (env : Env) (smac dmac seq : ℕ) (msg : List ℕ) (w : ℕ) (ms : List ℕ) (se : Rse) (n : Node)
    (known : n.rse smac ≡ some se) (a : Awaits msg seq w se) (some_bytes : 0 < length msg)
    (small : length msg ≤ 27 * 32) (below : All (λ d. d < (length msg + 31) / 32) ms)
    (clear : (j : ℕ) → (length msg + 31) / 32 ≤ j → bit w j ≡ 0)
    (all : (k : ℕ) → k < (length msg + 31) / 32 → (has k ms ≡ true) ⊎ (bit w k ≡ 1))
    (some_ms : 0 < length ms) (few : length ms ≤ 27)
    (fits : length (framed (patch_frame smac dmac seq msg ms)) ≤ link_mtu) where
  abbrev frame : List ℕ
  frame = patch_frame smac dmac seq msg ms

  header : read_msg frame ≡ record (patch_msg_hdr seq (length ms)) {
    csum = msg_csum (patch_msg_hdr seq (length ms)) [];
  }
  header =
      read_msg-frame_bytes (patch_hdr smac dmac (length ms)) (patch_msg_hdr seq (length ms)) []
        (all_bytes (map (genuine_slice msg) ms))
        (record { d_csum = omega arith; len = omega arith; len2 = omega arith })

  -- The session, looked at, still waits for the message.
  looked : Rse
  looked = record se { idle_timeout = env.now + idle_timeout_ms }

  looked-Waits : Waits msg w looked
  unfolding looked
  looked-Waits = record {
    n_slices = a.waits.n_slices;
    msglen = a.waits.msglen;
    bitmap = a.waits.bitmap;
    room = a.waits.room;
    stored = a.waits.stored;
  }

  proc_patch-Delivers :
      (n' : Node) × (proc_patch env frame n ≡ some n')
      × Delivers env (read_frm frame) seq msg (put_rse smac looked n) n'
  unfolding looked
  proc_patch-Delivers =
      let body = length-slices msg ms in
      let good : ((read_msg frame).csum == msg_csum (read_msg frame) []) ≡ true =
        (==_iff _ _).1
          (ap (λ (h : MsgHdr). h.csum) header ∙ sym (ap (λ (h : MsgHdr). msg_csum h []) header)) in
      let brought : (k : ℕ)
          → k < (length msg + 31) / 32
          → (any_brings k (arrive msg ms below) ≡ true) ⊎ (bit w k ≡ 1) =
        λ k l. elim (all k l) [
          | inl e ↦ inl (any_brings-arrive msg k ms below ∙ e)
          | inr e ↦ inr e
        ] in
      let (n', run, delivers) =
        patch_done-Delivers msg (arrive msg ms below) w looked some_bytes small looked-Waits clear
          brought a.d_csum a.nak env (read_frm frame) (put_rse smac looked n) in
      (
        n',
        proc_patch-session env frame n se (length ms) known (ap (λ (h : MsgHdr). h.len) header)
              (omega (arith, body))
              ((==_iff _ _).1 (a.seq_exp ∙ sym (ap (λ (h : MsgHdr). h.seq) header))) a.completed
              (le→ltb-false _ _ (omega (arith, body))) good
            ∙ ap
                (λ l. do
                  se'' ← patch_rse looked l
                  patch_done env (read_frm frame) se'' (put_rse smac looked n))
                (read_slices-patch_frame smac dmac seq msg ms ∙ sym (arrivals-arrive msg ms below))
            ∙ run,
        subst (λ (q : ℕ). Delivers env (read_frm frame) q msg (put_rse smac looked n) n') a.seq_exp
            delivers,
      )

  -- A session waits for a message of 1 to 864 bytes, and a frame brings slices of it: all that the
  -- bitmap lacks, among the ones that the message has. Then `lower_put` hands the message up, once,
  -- marks the session as completed, and queues one frame, the acknowledgement.
  pub lower_put-completes :
      (n' : Node) × (lower_put env (framed frame) n ≡ some (some (length (framed frame)), n'))
      × Completed smac dmac seq msg n n'
  unfolding looked
  lower_put-completes =
      let (n', run, delivers) = proc_patch-Delivers in
      (
        n',
        lower_put-framed env (patch_hdr smac dmac (length ms)) (patch_msg_hdr seq (length ms)) []
              (all_bytes (map (genuine_slice msg) ms)) n (omega arith) fits
            ∙ ap (λ (m : Option Node). m >>= λ n'. some (some (length (framed frame)), n')) run,
        record {
          upper = delivers.upper;
          lower =
              delivers.lower
              ∙ ap (λ (m : Node). m.lower_send_list)
                  (queue_frame-queued env (ack_frame smac dmac frame_type_acka seq [])
                    (put_rse smac looked n)
                    (ack_frame_fits smac dmac frame_type_acka seq [] (omega arith)));
          session = delivers.session;
        },
      )
