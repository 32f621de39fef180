-- ===== src/Split/Recv/Room.antt =====
-- The receiving handlers keep the size of the arrays of the receive sessions.
use ipcf.Common.{
  ℕ, ◌+◌, ◌-◌, ◌/◌, ◌≡◌, refl, [], length, ltb, leb, ◌==◌, ◌&&◌, not, true, false, Option, none,
  some, List, if◌then◌else◌, length-replicate,
}
use ipcf.Common.Word.{u8}
use ipcf.Split.Bitmap.{test_all_bits_set}
use ipcf.Split.Slice.{patch_rse, read_slices}
use ipcf.Split.Types.{
  FrmHdr, Rse, Node, Env, read_frm, read_msg, read_bytes, idle_timeout_ms, size_sub, link_mtu,
  frm_hdr_len, msg_hdr_len, msg_csum, max_slice_num, frm_msg_hdr_len, slice_len, slice_data_len,
}
use ipcf.Split.Queue.{put_lower_send_list, put_upper_recv_list}
use ipcf.Split.Recv.{
  get_rse, create_rse, reset_rse, clr_all_bits, missing_loop, put_rse, queue_frame, send_ack,
  submit, data_done, proc_data, proc_ack_req, patch_done, proc_patch,
}
use ipcf.Split.Recv.Size.{
  AllRoom, Yields, Yields-some, Yields->>=, Yields-if, Roomy, put_rse-AllRoom, HasSize,
  patch_rse-HasSize,
}

queue_frame-AllRoom :
    (env : Env) (frame : List ℕ) (n : Node) → AllRoom n → AllRoom (queue_frame env frame n)
unfolding queue_frame put_lower_send_list
queue_frame-AllRoom env frame n h = record { each = h.each }

put_upper-AllRoom :
    (b : List ℕ) (l : ℕ) (n : Node) → AllRoom n → AllRoom (put_upper_recv_list b l n)
unfolding put_upper_recv_list
put_upper-AllRoom b l n h = record { each = h.each }

send_ack-Roomy :
    (env : Env) (d s : ℕ) (se : Rse) (n : Node) → AllRoom n → Roomy (send_ack env d s se n)
unfolding send_ack
send_ack-Roomy env d s se n h =
    let same = Yields-some AllRoom n h in
    Yields-if AllRoom se.nak same (
      Yields->>= AllRoom (test_all_bits_set se.bitmap se.n_slices) _ (λ full t.
        Yields->>= AllRoom (if full then some ([], 0) else missing_loop se.bitmap se.n_slices 256 0)
          _
          (λ x m.
            Yields-if AllRoom _ same (Yields-some AllRoom _ (queue_frame-AllRoom env _ n h)))))

submit-Roomy :
    (env : Env) (fh : FrmHdr) (se : Rse) (n : Node)
    → HasSize se
    → AllRoom n
    → Roomy (submit env fh se n)
unfolding submit
submit-Roomy env fh se n size h = Yields->>= AllRoom (send_ack env fh.src fh.dst se n) _ (λ m e.
    Yields-some AllRoom _ (
      put_rse-AllRoom fh.src (record se { completed = true }) _ size
        (put_upper-AllRoom se.buf se.msglen m
          ((send_ack-Roomy env fh.src fh.dst se n h).each m e))))

data_done-Roomy :
    (env : Env) (fh : FrmHdr) (se : Rse) (n : Node)
    → HasSize se
    → AllRoom n
    → Roomy (data_done env fh se n)
unfolding data_done
data_done-Roomy env fh se n size h =
    Yields->>= AllRoom (test_all_bits_set se.bitmap se.n_slices) _ (λ full t.
      Yields-if AllRoom full
        (Yields->>= AllRoom (read_bytes se.buf se.msglen) _ (λ d r.
          Yields-if AllRoom _
            (Yields-some AllRoom _ (put_rse-AllRoom fh.src (record se { nak = true }) n size h))
            (Yields-if AllRoom _ (submit-Roomy env fh se n size h)
              (Yields-some AllRoom _ (put_rse-AllRoom fh.src se n size h)))))
        (Yields->>= AllRoom (send_ack env fh.src fh.dst se n) _ (λ m e.
          Yields-some AllRoom _ (
            put_rse-AllRoom fh.src se m size
              ((send_ack-Roomy env fh.src fh.dst se n h).each m e)))))

patch_done-Roomy :
    (env : Env) (fh : FrmHdr) (se : Rse) (n : Node)
    → HasSize se
    → AllRoom n
    → Roomy (patch_done env fh se n)
unfolding patch_done
patch_done-Roomy env fh se n size h =
    Yields->>= AllRoom (test_all_bits_set se.bitmap se.n_slices) _ (λ full t.
      Yields-if AllRoom full
        (Yields->>= AllRoom (read_bytes se.buf se.msglen) _ (λ d r.
          Yields-if AllRoom _
            (Yields-some AllRoom _ (put_rse-AllRoom fh.src (record se { nak = true }) n size h))
            (submit-Roomy env fh se n size h)))
        (Yields-some AllRoom _ (put_rse-AllRoom fh.src se n size h)))

look-HasSize :
    (env : Env) (o : Option Rse)
    → ((se : Rse) → o ≡ some se → HasSize se)
    → Yields HasSize (elim o [
      | none ↦ none
      | some se ↦ some (record se { idle_timeout = env.now + idle_timeout_ms })
    ])
look-HasSize env none h = record { each = λ se f. cc }
look-HasSize env (some se) h = Yields-some HasSize _ (h se refl)

get_rse-HasSize : (env : Env) (n : Node) (mac : ℕ) → AllRoom n → Yields HasSize (get_rse env n mac)
unfolding get_rse
get_rse-HasSize env n mac h = look-HasSize env (n.rse mac) (h.each mac)

-- A session that is found or made.
found-HasSize :
    (env : Env) (o : Option Rse)
    → Yields HasSize o
    → HasSize (elim o [ none ↦ create_rse env | some se ↦ se ])
unfolding create_rse reset_rse
found-HasSize env none y = length-replicate {A = ℕ} link_mtu 0
found-HasSize env (some se) y = y.each se refl

-- A session that is found, if any.
Roomy-session :
    (n : Node) (o : Option Rse) (f : Rse → Option Node)
    → AllRoom n
    → Yields HasSize o
    → ((se : Rse) → HasSize se → Roomy (f se))
    → Roomy (elim o [ none ↦ some n | some se ↦ f se ])
Roomy-session n none f h y g = Yields-some AllRoom n h
Roomy-session n (some se) f h y g = g se (y.each se refl)

pub proc_data-Roomy :
    (env : Env) (buf : List ℕ) (n : Node) → AllRoom n → Roomy (proc_data env buf n)
unfolding proc_data clr_all_bits
proc_data-Roomy env buf n h =
    let fh = read_frm buf in
    let mh = read_msg buf in
    let n_possible = u8 ((length buf - frm_msg_hdr_len) / slice_len) in
    let found : Rse = elim (get_rse env n fh.src) [ none ↦ create_rse env | some se ↦ se ] in
    let start : Rse = record (clr_all_bits found) {
      seq_exp = mh.seq;
      msglen = mh.len;
      d_csum = mh.d_csum;
      n_slices = u8 ((mh.len + slice_data_len - 1) / slice_data_len);
      completed = false;
      nak = false;
    } in
    let same = Yields-some AllRoom n h in
    let size : HasSize start =
      found-HasSize env (get_rse env n fh.src) (get_rse-HasSize env n fh.src h) in
    let slices = read_slices buf n_possible in
    Yields-if AllRoom (ltb (size_sub (length buf) frm_hdr_len) msg_hdr_len) same (
      Yields-if AllRoom (not (mh.len == mh.len2)) same (
        Yields-if AllRoom (not (mh.csum == msg_csum mh [])) same (
          Yields-if AllRoom (leb 2 env.info_level && ltb max_slice_num start.n_slices) same (
            Yields->>= AllRoom (patch_rse start slices) _ (λ se e.
              data_done-Roomy env fh se n ((patch_rse-HasSize slices start size).each se e) h)))))

pub proc_ack_req-Roomy :
    (env : Env) (buf : List ℕ) (n : Node) → AllRoom n → Roomy (proc_ack_req env buf n)
unfolding proc_ack_req
proc_ack_req-Roomy env buf n h =
    let fh = read_frm buf in
    let same = Yields-some AllRoom n h in
    Yields-if AllRoom _ same (
      Yields-if AllRoom _ same (
        Roomy-session n (get_rse env n fh.src) _ h (get_rse-HasSize env n fh.src h) (λ se size.
          let m = put_rse fh.src se n in
          let hm = put_rse-AllRoom fh.src se n size h in
          Yields-if AllRoom _ (send_ack-Roomy env fh.src fh.dst se m hm)
            (Yields-some AllRoom m hm))))

pub proc_patch-Roomy :
    (env : Env) (buf : List ℕ) (n : Node) → AllRoom n → Roomy (proc_patch env buf n)
unfolding proc_patch
proc_patch-Roomy env buf n h =
    let fh = read_frm buf in
    let mh = read_msg buf in
    let n_possible = u8 ((length buf - frm_msg_hdr_len) / slice_len) in
    let slices = read_slices buf (if ltb mh.len n_possible then u8 mh.len else n_possible) in
    let same = Yields-some AllRoom n h in
    Yields-if AllRoom _ same (
      Yields-if AllRoom _ same (
        Roomy-session n (get_rse env n fh.src) _ h (get_rse-HasSize env n fh.src h) (λ se size.
          let m = put_rse fh.src se n in
          let hm = put_rse-AllRoom fh.src se n size h in
          let put = Yields-some AllRoom m hm in
          Yields-if AllRoom _ put (
            Yields-if AllRoom _
              (Yields->>= AllRoom (patch_rse se slices) _ (λ se' e.
                patch_done-Roomy env fh se' m ((patch_rse-HasSize slices se size).each se' e) hm))
              put))))
