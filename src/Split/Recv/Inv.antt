-- ===== src/Split/Recv/Inv.antt =====
-- The receiving handlers leave the send sessions alone.
use ipcf.Common.{
  ℕ, ◌+◌, ◌-◌, ◌/◌, [], length, ltb, leb, ◌==◌, ◌&&◌, not, ◌≡◌, refl, ◌∙◌, Bool, true, false,
  Option, none, some, List, arith, if◌then◌else◌,
}
use ipcf.Common.Fault.{◌>>=◌}
use ipcf.Common.Word.{u8}
use ipcf.Split.Bitmap.{test_all_bits_set}
use ipcf.Split.Slice.{patch_rse, read_slices}
use ipcf.Split.Types.{
  FrmHdr, Rse, Node, Env, read_frm, read_msg, read_bytes, size_sub, frm_hdr_len, msg_hdr_len,
  msg_csum, max_slice_num, frm_msg_hdr_len, slice_len, slice_data_len,
}
use ipcf.Split.Queue.{put_lower_send_list, put_upper_recv_list}
use ipcf.Split.Recv.{
  get_rse, create_rse, clr_all_bits, missing_loop, put_rse, queue_frame, send_ack, submit,
  data_done, proc_data, proc_ack_req, patch_done, proc_patch,
}

-- Where the code is no fault, the send sessions are those of `n`.
pub record Leaves (n : Node) (o : Option Node) : Type 0 where
  pub each : (n' : Node) → o ≡ some n' → n'.sse ≡ n.sse

leaves : (n m : Node) → m.sse ≡ n.sse → Leaves n (some m)
leaves n m e = record { each = λ n' h. ground (arith, h, e) }

Leaves->>= {ℓ} :
    {A : Type ℓ} (n : Node) (o : Option A) (f : A → Option Node)
    → ((x : A) → Leaves n (f x))
    → Leaves n (o >>= f)
Leaves->>= n none f h = record { each = λ n' e. cc }
Leaves->>= n (some x) f h = h x

Leaves-if :
    (n : Node) (b : Bool) {x y : Option Node}
    → Leaves n x
    → Leaves n y
    → Leaves n (if b then x else y)
Leaves-if n true hx hy = hx
Leaves-if n false hx hy = hy

Leaves-session :
    (n : Node) (o : Option Rse) (f : Rse → Option Node)
    → ((se : Rse) → Leaves n (f se))
    → Leaves n (elim o [ none ↦ some n | some se ↦ f se ])
Leaves-session n none f h = leaves n n refl
Leaves-session n (some se) f h = h se

queue_frame-sse : (env : Env) (frame : List ℕ) (n : Node) → (queue_frame env frame n).sse ≡ n.sse
unfolding queue_frame put_lower_send_list
queue_frame-sse env frame n = refl

put_upper-sse : (b : List ℕ) (l : ℕ) (n : Node) → (put_upper_recv_list b l n).sse ≡ n.sse
unfolding put_upper_recv_list
put_upper-sse b l n = refl

Leaves-of : (n m : Node) (o : Option Node) → Leaves m o → m.sse ≡ n.sse → Leaves n o
Leaves-of n m o l e = record { each = λ n' h. l.each n' h ∙ e }

-- After a handler that leaves the send sessions alone, code that does.
Leaves-then :
    (n : Node) (o : Option Node) (f : Node → Option Node)
    → Leaves n o
    → ((m : Node) → Leaves m (f m))
    → Leaves n (o >>= f)
Leaves-then n none f l h = record { each = λ n' e. cc }
Leaves-then n (some m) f l h = Leaves-of n m (f m) (h m) (l.each m refl)

send_ack-Leaves : (env : Env) (d s : ℕ) (se : Rse) (n : Node) → Leaves n (send_ack env d s se n)
unfolding send_ack
send_ack-Leaves env d s se n = Leaves-if n se.nak (leaves n n refl) (
    Leaves->>= n (test_all_bits_set se.bitmap se.n_slices) _ (λ full.
      Leaves->>= n (if full then some ([], 0) else missing_loop se.bitmap se.n_slices 256 0) _
        (λ x. Leaves-if n _ (leaves n n refl) (leaves n _ (queue_frame-sse env _ n)))))

submit-Leaves : (env : Env) (fh : FrmHdr) (se : Rse) (n : Node) → Leaves n (submit env fh se n)
unfolding submit
submit-Leaves env fh se n =
    Leaves-then n (send_ack env fh.src fh.dst se n) _ (send_ack-Leaves env fh.src fh.dst se n)
      (λ m. leaves m _ (put_upper-sse se.buf se.msglen m))

data_done-Leaves :
    (env : Env) (fh : FrmHdr) (se : Rse) (n : Node) → Leaves n (data_done env fh se n)
unfolding data_done
data_done-Leaves env fh se n = Leaves->>= n (test_all_bits_set se.bitmap se.n_slices) _ (λ full.
    Leaves-if n full
      (Leaves->>= n (read_bytes se.buf se.msglen) _ (λ d.
        Leaves-if n _ (leaves n _ refl)
          (Leaves-if n _ (submit-Leaves env fh se n) (leaves n _ refl))))
      (Leaves-then n (send_ack env fh.src fh.dst se n) _ (send_ack-Leaves env fh.src fh.dst se n)
        (λ m. leaves m _ refl)))

patch_done-Leaves :
    (env : Env) (fh : FrmHdr) (se : Rse) (n : Node) → Leaves n (patch_done env fh se n)
unfolding patch_done
patch_done-Leaves env fh se n = Leaves->>= n (test_all_bits_set se.bitmap se.n_slices) _ (λ full.
    Leaves-if n full
      (Leaves->>= n (read_bytes se.buf se.msglen) _
        (λ d. Leaves-if n _ (leaves n _ refl) (submit-Leaves env fh se n)))
      (leaves n _ refl))

pub proc_data-Leaves : (env : Env) (buf : List ℕ) (n : Node) → Leaves n (proc_data env buf n)
unfolding proc_data
proc_data-Leaves env buf n =
    let fh = read_frm buf in
    let mh = read_msg buf in
    let n_possible = u8 ((length buf - frm_msg_hdr_len) / slice_len) in
    let found : Rse = elim (get_rse env n fh.src) [ none ↦ create_rse env | some se ↦ se ] in
    let start : Rse = record (clr_all_bits found) {
      seq_exp = mh.seq;
      msglen = mh.len;
      d_csum = mh.d_csum;
      n_slices = u8 ((mh.len + slice_data_len - 1) / slice_data_len);
      completed = false;
      nak = false;
    } in
    Leaves-if n (ltb (size_sub (length buf) frm_hdr_len) msg_hdr_len) (leaves n n refl) (
      Leaves-if n (not (mh.len == mh.len2)) (leaves n n refl) (
        Leaves-if n (not (mh.csum == msg_csum mh [])) (leaves n n refl) (
          Leaves-if n (leb 2 env.info_level && ltb max_slice_num start.n_slices) (leaves n n refl) (
            Leaves->>= n (patch_rse start (read_slices buf n_possible)) _
              (λ se. data_done-Leaves env fh se n)))))

pub proc_ack_req-Leaves : (env : Env) (buf : List ℕ) (n : Node) → Leaves n (proc_ack_req env buf n)
unfolding proc_ack_req
proc_ack_req-Leaves env buf n =
    let fh = read_frm buf in
    let m : Rse → Node = λ se. put_rse fh.src se n in
    Leaves-if n _ (leaves n n refl) (
      Leaves-if n _ (leaves n n refl) (
        Leaves-session n (get_rse env n fh.src) _ (λ se.
          Leaves-if n _ (Leaves-of n (m se) _ (send_ack-Leaves env fh.src fh.dst se (m se)) refl)
            (leaves n (m se) refl))))

pub proc_patch-Leaves : (env : Env) (buf : List ℕ) (n : Node) → Leaves n (proc_patch env buf n)
unfolding proc_patch
proc_patch-Leaves env buf n =
    let fh = read_frm buf in
    let mh = read_msg buf in
    let n_possible = u8 ((length buf - frm_msg_hdr_len) / slice_len) in
    let n_slices = if ltb mh.len n_possible then u8 mh.len else n_possible in
    let m : Rse → Node = λ se. put_rse fh.src se n in
    Leaves-if n _ (leaves n n refl) (
      Leaves-if n _ (leaves n n refl) (
        Leaves-session n (get_rse env n fh.src) _ (λ se. Leaves-if n _ (leaves n (m se) refl) (
          Leaves-if n _
            (Leaves->>= n (patch_rse se (read_slices buf n_slices)) _
              (λ se'. Leaves-of n (m se) _ (patch_done-Leaves env fh se' (m se)) refl))
            (leaves n (m se) refl)))))
