-- ===== src/Split/Recv.antt =====
-- The receiving side of split.c: receive sessions, `send_ack`, and the handlers of the frames that
-- a sender sends: DATA, PATCH and ACKR. `none` is an access outside of the arrays of a session.
pub mod Deliver
pub mod Inv
pub mod Size
pub mod Room
mod Tests
use ipcf.Common.{
  ℕ, zero, suc, ◌+◌, ◌-◌, ◌*◌, ◌/◌, Bool, true, false, ◌&&◌, not, Option, none, some, List, [], ◌∷◌,
  ◌++◌, length, take, replicate, ltb, leb, ◌==◌, if◌then◌else◌,
}
use ipcf.Common.Fault.{◌>>=◌}
use ipcf.Common.Word.{u8, u16}
use ipcf.Split.Types.{
  link_mtu, slice_data_len, slice_len, idle_timeout_ms, frm_hdr_len, msg_hdr_len, frm_msg_hdr_len,
  max_slice_num, bitmap32_size, frame_type_acka, frame_type_ackp, FrmHdr, read_frm, MsgHdr,
  read_msg, Rse, Node, Env, update, size_sub, read_bytes, array, ret_len, msg_csum, frame_bytes,
  csum32,
}
use ipcf.Split.Frame.{en_frame}
use ipcf.Split.Bitmap.{find_first_zero, test_all_bits_set}
use ipcf.Split.Slice.{patch_rse, read_slices}
use ipcf.Split.Queue.{put_upper_recv_list, put_lower_send_list}

unfoldable pub clr_all_bits : Rse → Rse
clr_all_bits se = record se { bitmap = replicate bitmap32_size 0 }

-- `reset_rse` sets every field; the session before does not matter.
unfoldable pub reset_rse : Env → Rse
reset_rse env = record {
  idle_timeout = env.now + idle_timeout_ms;
  bitmap = replicate bitmap32_size 0;
  seq_exp = 0xff;
  n_slices = 0;
  msglen = 0;
  d_csum = 0xffffffff;
  buf = replicate link_mtu 0;
  completed = false;
  nak = false;
}

-- A look at a session puts its idle timeout off.
unfoldable pub get_rse : Env → Node → ℕ → Option Rse
get_rse env n mac = elim (n.rse mac) [
  | none ↦ none
  | some se ↦ some (record se { idle_timeout = env.now + idle_timeout_ms })
]

unfoldable pub create_rse : Env → Rse
unfolding reset_rse
create_rse env = reset_rse env

abbrev pub put_rse : ℕ → Rse → Node → Node
put_rse mac se n = record n { rse = update n.rse mac (some se) }

-- The loop of `send_ack` that lists the missing slices, on fuel, with the last value of `k`.
unfoldable pub missing_loop : List ℕ → ℕ → ℕ → ℕ → Option (List ℕ × ℕ)
missing_loop map n zero k = some ([], k)
missing_loop map n (suc fuel) k = find_first_zero map k n >>= λ r. elim r [
  | none ↦ some ([], k)
  | some z ↦ missing_loop map n fuel (u8 (z + 1)) >>= λ (rest, k'). some (z ∷ rest, k')
]

-- The frame of an acknowledgement with the sequence numbers of the missing slices.
abbrev pub ack_frame : ℕ → ℕ → ℕ → ℕ → List ℕ → List ℕ
ack_frame dst src type seq missing =
    let fh : FrmHdr = record {
      src = src;
      dst = dst;
      type = type;
      reserved = 0;
      len = frm_msg_hdr_len + length missing;
      csum = 0;
    } in
    let mh : MsgHdr = record {
      d_csum = 0xffffffff;
      len = length missing;
      len2 = length missing;
      seq = seq;
      csum = 0;
    } in
    frame_bytes fh mh missing missing

-- Stuffs a frame and queues it; what does not fit is queued all the same, as 1000 bytes.
unfoldable pub queue_frame : Env → List ℕ → Node → Node
queue_frame env frame n =
    let r = en_frame frame link_mtu in put_lower_send_list (array env.stale r.bytes) (ret_len r) n

unfoldable pub send_ack : Env → ℕ → ℕ → Rse → Node → Option Node
unfolding queue_frame
send_ack env dst src se n =
    let answer = (do
      full ← test_all_bits_set se.bitmap se.n_slices
      (missing, k) ← (if full then some ([], 0) else missing_loop se.bitmap se.n_slices 256 0)
      let type = if full then frame_type_acka else frame_type_ackp
      let frame = ack_frame dst src type se.seq_exp missing
      if not full && k == 0 then some n else some (queue_frame env frame n)) in
    if se.nak then some n else answer

-- The message is complete and intact: acknowledge it and hand it up.
unfoldable pub submit : Env → FrmHdr → Rse → Node → Option Node
submit env fh se n = do
  n' ← send_ack env fh.src fh.dst se n
  some (put_rse fh.src (record se { completed = true }) (put_upper_recv_list se.buf se.msglen n'))

-- The end of `proc_data`, on a session that has taken over the header and the slices of the frame.
unfoldable pub data_done : Env → FrmHdr → Rse → Node → Option Node
data_done env fh se n =
    let waiting = (do n' ← send_ack env fh.src fh.dst se n; some (put_rse fh.src se n')) in
    let complete = (do
      d ← read_bytes se.buf se.msglen
      if not (se.d_csum == csum32 d)
          then some (put_rse fh.src (record se { nak = true }) n)
          else if not se.completed
          then submit env fh se n
          else some (put_rse fh.src se n)) in
    do full ← test_all_bits_set se.bitmap se.n_slices; if full then complete else waiting

-- `buf` is the frame as `de_frame` has stored it.
unfoldable pub proc_data : Env → List ℕ → Node → Option Node
unfolding get_rse create_rse clr_all_bits
proc_data env buf n =
    let fh = read_frm buf in
    let mh = read_msg buf in
    let n_possible = u8 ((length buf - frm_msg_hdr_len) / slice_len) in
    let n_slices = u8 ((mh.len + slice_data_len - 1) / slice_data_len) in
    let found : Rse = elim (get_rse env n fh.src) [ none ↦ create_rse env | some se ↦ se ] in
    let start : Rse = record (clr_all_bits found) {
      seq_exp = mh.seq;
      msglen = mh.len;
      d_csum = mh.d_csum;
      n_slices = n_slices;
      completed = false;
      nak = false;
    } in
    let taken = (do se ← patch_rse start (read_slices buf n_possible); data_done env fh se n) in
    if ltb (size_sub (length buf) frm_hdr_len) msg_hdr_len
    then some n
    else if not (mh.len == mh.len2)
    then some n
    else if not (mh.csum == msg_csum mh [])
    then some n
    else if leb 2 env.info_level && ltb max_slice_num n_slices
    then some n
    else taken

unfoldable pub proc_ack_req : Env → List ℕ → Node → Option Node
unfolding get_rse
proc_ack_req env buf n =
    let fh = read_frm buf in
    let mh = read_msg buf in
    let answered : Option Node = elim (get_rse env n fh.src) [
      | none ↦ some n
      | some se ↦
          let n' = put_rse fh.src se n in
          if se.seq_exp == mh.seq then send_ack env fh.src fh.dst se n' else some n'
    ] in
    if ltb (size_sub (length buf) frm_hdr_len) msg_hdr_len
    then some n
    else if not (mh.csum == msg_csum mh [])
    then some n
    else answered

-- The end of `proc_patch`: an incomplete message is not acknowledged again.
unfoldable pub patch_done : Env → FrmHdr → Rse → Node → Option Node
patch_done env fh se n =
    let complete = (do
      d ← read_bytes se.buf se.msglen
      if not (csum32 d == se.d_csum)
          then some (put_rse fh.src (record se { nak = true }) n)
          else submit env fh se n) in
    do
      full ← test_all_bits_set se.bitmap se.n_slices
      if full then complete else some (put_rse fh.src se n)

unfoldable pub proc_patch : Env → List ℕ → Node → Option Node
unfolding get_rse
proc_patch env buf n =
    let fh = read_frm buf in
    let mh = read_msg buf in
    let n_possible = u8 ((length buf - frm_msg_hdr_len) / slice_len) in
    let n_slices = if ltb mh.len n_possible then u8 mh.len else n_possible in
    let patched : Option Node = elim (get_rse env n fh.src) [
      | none ↦ some n
      | some se ↦
          let n' = put_rse fh.src se n in
          if not (se.seq_exp == mh.seq)
          then some n'
          else if not se.completed
          then (do se' ← patch_rse se (read_slices buf n_slices); patch_done env fh se' n')
          else some n'
    ] in
    if ltb (size_sub (length buf) frm_hdr_len) (msg_hdr_len + slice_len)
    then some n
    else if not (mh.csum == msg_csum mh [])
    then some n
    else patched
