-- ===== src/Split/Link/Ask.antt =====
-- The receiver of the headers of a message asks for all of its slices.
use ipcf.Common.{
  ℕ, ◌+◌, ◌-◌, ◌*◌, ◌/◌, ◌^◌, ◌≤◌, ◌<◌, ◌≡◌, inl, inr, refl, ap, ◌∙◌, true, false, ◌&&◌, some, List,
  [], ◌∷◌, arith, length, length-replicate, ltb, leb, ◌==◌, if◌then◌else◌, Bool-cases, Option-cases,
  replicate,
}
use ipcf.Common.Bits.{bit}
use ipcf.Common.Word.{u8}
use ipcf.Compact.Table.{has}
use ipcf.Split.Types.{
  link_mtu, frm_msg_hdr_len, frame_type_data, frame_type_ackp, FrmHdr, read_frm, MsgHdr, read_msg,
  msg_csum, Rse, Node, Env, csum32, slice_data_len,
}
use ipcf.Split.Frame.Encode.{framed, length-framed, length-stuffed}
use ipcf.Split.Bitmap.{test_all_bits_set}
use ipcf.Split.Bitmap.Laws.{test_all_bits_set_lem, test_all_bits_set_iff}
use ipcf.Split.Slice.{patch_rse, read_slices, slices_from}
use ipcf.Split.Slice.Patch.{Waits}
use ipcf.Split.Recv.{create_rse, reset_rse, ack_frame, send_ack, data_done, proc_data}
use ipcf.Split.Link.Missing.{zeros, missing_loop_lem}
use ipcf.Split.Link.Wire.{queued, queue_frame-queued}

-- A session that waits for the slices of `msg` whose bits are 0 in `w`, with its header taken over.
pub record Awaits (msg : List ℕ) (seq w : ℕ) (se : Rse) : Type 0 where
  pub waits : Waits msg w se
  pub d_csum : se.d_csum ≡ csum32 msg
  pub seq_exp : se.seq_exp ≡ seq
  pub completed : se.completed ≡ false
  pub nak : se.nak ≡ false

-- A bitmap with a bit missing is not full.
pub test_all_bits_set_missing :
    (w n k : ℕ) → n < 32 → k < n → bit w k ≡ 0 → test_all_bits_set (w ∷ []) n ≡ some false
test_all_bits_set_missing w n k h l missing =
    let test = test_all_bits_set_lem w n h in
    elim (Bool-cases (if n == 0 then true else w == 2 ^ n - 1)) [
      | inl e ↦
          absurd
            (cc (missing, ((test_all_bits_set_iff w n h (omega arith)).0 (test ∙ ap some e)).0 k l))
      | inr e ↦ test ∙ ap some e
    ]

-- The frames of acknowledgements fit.
pub ack_frame_fits :
    (dst src type seq : ℕ) (missing : List ℕ)
    → length missing ≤ 27
    → length (framed (ack_frame dst src type seq missing)) ≤ link_mtu
ack_frame_fits dst src type seq missing h =
    let frame = ack_frame dst src type seq missing in
    omega (arith, length-framed frame, length-stuffed frame)

-- A session with a slice missing, which may answer, asks for exactly the missing slices.
pub send_ack-Awaits :
    (env : Env) (dst src : ℕ) (msg : List ℕ) (seq w k : ℕ) (se : Rse) (n : Node)
    → Awaits msg seq w se
    → length msg ≤ 27 * 32
    → k < (length msg + 31) / 32
    → bit w k ≡ 0
    → send_ack env dst src se n
      ≡ some (
          queued
            (framed (ack_frame dst src frame_type_ackp seq (zeros w 0 ((length msg + 31) / 32))))
            n)
unfolding send_ack
send_ack-Awaits env dst src msg seq w k se n a small l missing =
    let count = (length msg + 31) / 32 in
    let (k', ran, more, below, all, len) = missing_loop_lem w count (omega arith) in
    let waits = a.waits in
    let listed : has k (zeros w 0 count) ≡ true = all k l missing in
    let later : (k' == 0) ≡ false = elim more [
      | inl e ↦ absurd (ground (arith, listed, e))
      | inr p ↦ ground arith
    ] in
    rw
      (
        a.nak,
        waits.bitmap,
        waits.n_slices,
        test_all_bits_set_missing w count k (omega arith) l missing,
        ran,
        later,
        a.seq_exp,
      )
      (ap some (
        queue_frame-queued env (ack_frame dst src frame_type_ackp seq (zeros w 0 count)) n
          (ack_frame_fits dst src frame_type_ackp seq (zeros w 0 count) (omega arith))))

-- The headers of a message of `n_slices` slices, and what `escaped` sends of its packet first.
abbrev pub data_hdr : ℕ → ℕ → ℕ → FrmHdr
data_hdr smac dmac n_slices = record {
  src = smac;
  dst = dmac;
  type = frame_type_data;
  reserved = 0;
  len = 36 * n_slices + frm_msg_hdr_len;
  csum = 0;
}

abbrev pub data_msg_hdr : ℕ → List ℕ → MsgHdr
data_msg_hdr seq msg = record {
  d_csum = csum32 msg;
  len = length msg;
  len2 = length msg;
  seq = seq;
  csum = 0;
}

-- The arrays of the session for a peer, if there is one, have their size.
abbrev pub HasRoom : ℕ → Node → Type 0
HasRoom mac n = (se : Rse) → n.rse mac ≡ some se → length se.buf ≡ link_mtu

-- What `proc_data` makes of a frame of two intact headers: a session without slices.
pub proc_data_headers :
    (env : Env) (buf : List ℕ) (n : Node) (mh : MsgHdr) (n_slices : ℕ)
    → read_msg buf ≡ mh
    → length buf ≡ 18
    → (mh.len == mh.len2) ≡ true
    → (mh.csum == msg_csum mh []) ≡ true
    → u8 ((mh.len + slice_data_len - 1) / slice_data_len) ≡ n_slices
    → n_slices ≤ 27
    → HasRoom (read_frm buf).src n
    → (array : List ℕ) × (idle : ℕ) × (length array ≡ link_mtu)
      × (proc_data env buf n
          ≡ data_done env
              (read_frm buf)
              (record {
                idle_timeout = idle;
                bitmap = 0 ∷ [];
                seq_exp = mh.seq;
                n_slices = n_slices;
                msglen = mh.len;
                d_csum = mh.d_csum;
                buf = array;
                completed = false;
                nak = false;
              })
              n)
unfolding proc_data read_slices slices_from patch_rse create_rse reset_rse
proc_data_headers env buf n mh n_slices e len same good count small room =
    let h = read_msg buf in
    let same' : (h.len == h.len2) ≡ true = ap (λ (m : MsgHdr). m.len == m.len2) e ∙ same in
    let good' : (h.csum == msg_csum h []) ≡ true =
      ap (λ (m : MsgHdr). m.csum == msg_csum m []) e ∙ good in
    let count' : u8 ((h.len + slice_data_len - 1) / slice_data_len) ≡ n_slices =
      ap (λ (m : MsgHdr). u8 ((m.len + slice_data_len - 1) / slice_data_len)) e ∙ count in
    let few : (leb 2 env.info_level && ltb 27 n_slices) ≡ false = ground arith in
    let seq : h.seq ≡ mh.seq = ap (λ (m : MsgHdr). m.seq) e in
    let msglen : h.len ≡ mh.len = ap (λ (m : MsgHdr). m.len) e in
    let d_csum : h.d_csum ≡ mh.d_csum = ap (λ (m : MsgHdr). m.d_csum) e in
    elim (Option-cases (n.rse (read_frm buf).src)) [
      | inl q ↦ (
        replicate link_mtu 0,
        env.now + 10000,
        length-replicate {A = ℕ} link_mtu 0,
        rw (len, same', good', count', few, q, seq, msglen, d_csum) refl,
      )
      | inr (se, q) ↦ (
        se.buf,
        env.now + 10000,
        room se q,
        rw (len, same', good', count', few, q, seq, msglen, d_csum) refl,
      )
    ]
