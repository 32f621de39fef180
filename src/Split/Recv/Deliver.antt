-- ===== src/Split/Recv/Deliver.antt =====
-- The receiving side hands a message up once it has all of it.
use ipcf.Common.{
  ℕ, ◌+◌, ◌*◌, ◌/◌, ◌≤◌, ◌<◌, ◌≡◌, refl, ap, ◌∙◌, Bool, true, false, ◌⊎◌, Option, some, List, [],
  ◌∷◌, ◌++◌, arith, length, take, not, ltb, ◌==◌, if◌then◌else◌,
}
use ipcf.Common.Fault.{◌>>=◌, >>=-eq-some}
use ipcf.Split.Types.{
  link_mtu, FrmHdr, Slice, Rse, Node, Env, read_bytes, write_bytes, slice_data_len, csum32,
  frame_type_acka,
}
use ipcf.Split.Queue.{data_node, put_upper_recv_list, put_lower_send_list}
use ipcf.Split.Bitmap.{set_bit, test_all_bits_set}
use ipcf.Split.Slice.{slice_csum, copy_len, cp_slice_to_rse, patch_rse}
use ipcf.Split.Slice.Patch.{Waits, Arrival, arrivals, any_brings}
use ipcf.Split.Slice.Reassemble.{patch_rse_complete}
use ipcf.Common.Bits.{bit}
use ipcf.Split.Recv.{put_rse, ack_frame, queue_frame, send_ack, submit, patch_done, data_done}

-- What the slices do not change in a session.
record SameHeader (a b : Rse) : Type 0 where
  d_csum : a.d_csum ≡ b.d_csum
  msglen : a.msglen ≡ b.msglen
  nak : a.nak ≡ b.nak
  completed : a.completed ≡ b.completed
  seq_exp : a.seq_exp ≡ b.seq_exp

same : (se : Rse) (buf bitmap : List ℕ) → SameHeader (record se { buf = buf; bitmap = bitmap }) se
same se buf bitmap = record {
  d_csum = refl;
  msglen = refl;
  nak = refl;
  completed = refl;
  seq_exp = refl;
}

SameHeader-if :
    (se se' : Rse) (b : Bool) (x y : Option Rse)
    → (x ≡ some se' → SameHeader se' se)
    → (y ≡ some se' → SameHeader se' se)
    → (if b then x else y) ≡ some se'
    → SameHeader se' se
SameHeader-if se se' true x y hx hy = hx
SameHeader-if se se' false x y hx hy = hy

SameHeader-self : (se se' : Rse) → some se ≡ some se' → SameHeader se' se
SameHeader-self se se' e = ground (arith, e, same se se.buf se.bitmap)

cp_slice-SameHeader :
    (se se' : Rse) (s : Slice) → cp_slice_to_rse se s ≡ some se' → SameHeader se' se
unfolding cp_slice_to_rse
cp_slice-SameHeader se se' s =
    SameHeader-if se se' (not (s.csum == slice_csum s)) _ _ (SameHeader-self se se') (
      SameHeader-if se se' (ltb se.n_slices s.seq) _ _ (SameHeader-self se se') (λ e.
        let (buf, wrote, e') =
          >>=-eq-some
            (write_bytes se.buf (slice_data_len * s.seq) (take (copy_len se s.seq) s.payload)) _
            e in
        let (bitmap, marked, e'') = >>=-eq-some (set_bit se.bitmap s.seq) _ e' in
        ground (arith, e'', same se buf bitmap)))

patch_rse-SameHeader :
    (se se' : Rse) (ss : List Slice) → patch_rse se ss ≡ some se' → SameHeader se' se
unfolding patch_rse
patch_rse-SameHeader se se' [] e = ground (arith, e)
patch_rse-SameHeader se se' (s ∷ ss) e =
    let (m, one, rest) = >>=-eq-some (cp_slice_to_rse se s) (λ m. patch_rse m ss) e in
    ground (arith, cp_slice-SameHeader se m s one, patch_rse-SameHeader m se' ss rest)

-- The bytes handed up.
read-take :
    (buf : List ℕ) (len : ℕ)
    → len ≤ 864
    → length buf ≡ 1000
    → (read_bytes buf len ≡ some (take len buf)) × (data_node buf len ≡ take len buf)
unfolding read_bytes data_node
read-take buf len h l = ground arith

-- The node after the last slice: the message acknowledged and handed up.
abbrev delivered_to : Env → FrmHdr → Rse → Node → Node
delivered_to env fh se n =
    put_rse fh.src (record se { completed = true })
      (put_upper_recv_list se.buf se.msglen
        (queue_frame env (ack_frame fh.src fh.dst frame_type_acka se.seq_exp []) n))

-- A session that has the whole message, intact.
record Whole (msg : List ℕ) (se : Rse) : Type 0 where
  answers : se.nak ≡ false
  full : test_all_bits_set se.bitmap se.n_slices ≡ some true
  bytes : take se.msglen se.buf ≡ msg
  msglen : se.msglen ≤ 864
  room : length se.buf ≡ 1000
  d_csum : se.d_csum ≡ csum32 msg

patch_done_lem :
    (env : Env) (fh : FrmHdr) (msg : List ℕ) (se : Rse) (n : Node)
    → Whole msg se
    → patch_done env fh se n ≡ some (delivered_to env fh se n)
unfolding patch_done submit send_ack
patch_done_lem env fh msg se n h =
    let read = (read-take se.buf se.msglen h.msglen h.room).0 ∙ ap some h.bytes in
    let good : (csum32 msg == se.d_csum) ≡ true = ground (arith, h.d_csum) in
    rw (h.full, read, good, h.answers) refl

data_done_lem :
    (env : Env) (fh : FrmHdr) (msg : List ℕ) (se : Rse) (n : Node)
    → Whole msg se
    → se.completed ≡ false
    → data_done env fh se n ≡ some (delivered_to env fh se n)
unfolding data_done submit send_ack
data_done_lem env fh msg se n h c =
    let read = (read-take se.buf se.msglen h.msglen h.room).0 ∙ ap some h.bytes in
    let good : (se.d_csum == csum32 msg) ≡ true = ground (arith, h.d_csum) in
    rw (h.full, read, good, c, h.answers) refl

-- A completed session, which acknowledges its message again if it is asked.
pub record Answers (seq : ℕ) (se : Rse) : Type 0 where
  pub completed : se.completed ≡ true
  pub answers : se.nak ≡ false
  pub full : test_all_bits_set se.bitmap se.n_slices ≡ some true
  pub seq_exp : se.seq_exp ≡ seq
  pub room : length se.buf ≡ link_mtu

-- The message is handed up once, after what waits there, and one frame is queued for the sender, an
-- ACKA of the session's sequence number; the session is completed.
pub record Delivers (env : Env) (fh : FrmHdr) (seq : ℕ) (msg : List ℕ) (n n' : Node) : Type 0 where
  pub upper : n'.upper_recv_list ≡ n.upper_recv_list ++ (msg ∷ [])
  pub lower :
      n'.lower_send_list
      ≡ (queue_frame env (ack_frame fh.src fh.dst frame_type_acka seq []) n).lower_send_list
  pub session : (se : Rse) × (n'.rse fh.src ≡ some se) × Answers seq se

delivered_to-Delivers :
    (env : Env) (fh : FrmHdr) (msg : List ℕ) (se : Rse) (n : Node) (seq : ℕ)
    → Whole msg se
    → se.seq_exp ≡ seq
    → Delivers env fh seq msg n (delivered_to env fh se n)
unfolding put_upper_recv_list queue_frame put_lower_send_list
delivered_to-Delivers env fh msg se n seq h e = record {
  upper = rw ((read-take se.buf se.msglen h.msglen h.room).1, h.bytes) refl;
  lower = rw e refl;
  session = (
    record se { completed = true },
    ground arith,
    record { completed = refl; answers = h.answers; full = h.full; seq_exp = e; room = h.room },
  );
}

module _ (msg : List ℕ) (arr : List (Arrival msg)) (w : ℕ) (se : Rse) (some_bytes : 0 < length msg)
    (small : length msg ≤ 27 * 32) (waits : Waits msg w se)
    (clear : (j : ℕ) → (length msg + 31) / 32 ≤ j → bit w j ≡ 0)
    (all : (k : ℕ) → k < (length msg + 31) / 32 → (any_brings k arr ≡ true) ⊎ (bit w k ≡ 1))
    (sum : se.d_csum ≡ csum32 msg) (answers : se.nak ≡ false) (env : Env) (fh : FrmHdr)
    (n : Node) where
  patch_rse-Whole :
      (se' : Rse) × (patch_rse se (arrivals arr) ≡ some se') × Whole msg se' × SameHeader se' se
  patch_rse-Whole =
      let (se', run, full, whole, room) =
        patch_rse_complete msg arr w se some_bytes small waits clear all in
      let h = patch_rse-SameHeader se se' (arrivals arr) run in
      (
        se',
        run,
        record {
          answers = h.nak ∙ answers;
          full = full;
          bytes = whole;
          msglen = omega (arith, h.msglen, waits.msglen);
          room = room;
          d_csum = h.d_csum ∙ sum;
        },
        h,
      )

  -- A session waits for a message of 1 to 864 bytes with its CRC and has not refused to answer. If
  -- the slices of a PATCH frame bring every block that has not come before, the end of `proc_patch`
  -- hands the message up, once, and acknowledges it.
  pub patch_done-Delivers :
      (n' : Node) × ((do se' ← patch_rse se (arrivals arr); patch_done env fh se' n) ≡ some n')
      × Delivers env fh se.seq_exp msg n n'
  patch_done-Delivers =
      let (se', run, whole, h) = patch_rse-Whole in
      (
        delivered_to env fh se' n,
        rw run (patch_done_lem env fh msg se' n whole),
        delivered_to-Delivers env fh msg se' n se.seq_exp whole h.seq_exp,
      )

  -- A session waits for a message of 1 to 864 bytes with its CRC, has not refused to answer and is
  -- not completed. If the slices of a DATA frame bring every block that has not come before, the
  -- end of `proc_data` hands the message up, once, and acknowledges it.
  pub data_done-Delivers :
      se.completed ≡ false
      → (n' : Node) × ((do se' ← patch_rse se (arrivals arr); data_done env fh se' n) ≡ some n')
        × Delivers env fh se.seq_exp msg n n'
  data_done-Delivers c =
      let (se', run, whole, h) = patch_rse-Whole in
      (
        delivered_to env fh se' n,
        rw run (data_done_lem env fh msg se' n whole (h.completed ∙ c)),
        delivered_to-Delivers env fh msg se' n se.seq_exp whole h.seq_exp,
      )
