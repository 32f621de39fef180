-- ===== src/Split/Node/Same.antt =====
-- The sending handlers of split.c leave the receive sessions alone.
use ipcf.Common.{
  ℕ, ◌+◌, ◌≡◌, refl, Bool, true, false, not, Option, none, some, List, [], ◌∷◌, length, take, drop,
  ltb, leb, ◌==◌, if◌then◌else◌, inl, inr, Bool-cases,
}
use ipcf.Split.Types.{
  ack_timeout_ms, size_sub, msg_hdr_len, msg_csum, frm_msg_hdr_len, frm_hdr_len, FrmHdr, read_frm,
  MsgHdr, read_msg, SendNode, Sse, Node, Env,
}
use ipcf.Split.Queue.{put_lower_send_list}
use ipcf.Split.Recv.{queue_frame}
use ipcf.Split.Send.{
  put_sse, addresses_match, try_lower_send, ack_all_session, proc_ack_all, send_patch, patch_slots,
  ack_part_session, proc_ack_part, send_ack_req, get_sse,
}
use ipcf.Split.UpperSend.{Built, send_built, upper_send}

-- The receive sessions are the same.
pub record Same (n m : Node) : Type 0 where
  pub rse : m.rse ≡ n.rse

Same-if : (n : Node) (b : Bool) {x y : Node} → Same n x → Same n y → Same n (if b then x else y)
Same-if n true hx hy = hx
Same-if n false hx hy = hy

try_lower_send-Same :
    (env : Env) (se : Sse) (n : Node) (l : List SendNode)
    → se.pkt_list ≡ l
    → Same n (try_lower_send env se n).1
unfolding try_lower_send put_lower_send_list
try_lower_send-Same env se n [] e = rw e (record { rse = refl })
try_lower_send-Same env se n (pkt ∷ rest) e = elim (Bool-cases se.is_waiting) [
  | inl w ↦ rw (e, w) (record { rse = refl })
  | inr w ↦ rw (e, w) (record { rse = refl })
]

ack_all_session-Same :
    (env : Env) (fh : FrmHdr) (mh : MsgHdr) (se : Sse) (n : Node) (l : List SendNode)
    → Same n (ack_all_session env fh mh se n l)
unfolding ack_all_session
ack_all_session-Same env fh mh se n [] = record { rse = refl }
ack_all_session-Same env fh mh se n (pkt ∷ rest) =
    let popped : Sse = record se {
      pkt_list = rest;
      is_waiting = false;
      ack_timeout = none;
      data_retry = 0;
      ack_retry = 0;
    } in
    let kept : Same n (put_sse fh.src se n) = record { rse = refl } in
    let (se', n') = try_lower_send env popped n in
    let sent : Same n (put_sse fh.src se' n') = record {
      rse = (try_lower_send-Same env popped n rest refl).rse;
    } in
    Same-if n (not (addresses_match fh pkt)) kept
      (Same-if n ((read_msg pkt.frm).seq == mh.seq) sent kept)

session-Same :
    (n : Node) (o : Option Sse) (f : Sse → Node)
    → ((se : Sse) → Same n (f se))
    → Same n (elim o as (λ x. Node) [ none ↦ n | some se ↦ f se ])
session-Same n none f h = record { rse = refl }
session-Same n (some se) f h = h se

pub proc_ack_all-Same : (env : Env) (buf : List ℕ) (n : Node) → Same n (proc_ack_all env buf n)
unfolding proc_ack_all
proc_ack_all-Same env buf n =
    let same : Same n n = record { rse = refl } in
    Same-if n (ltb (size_sub (length buf) frm_hdr_len) msg_hdr_len) same (
      Same-if n (not ((read_msg buf).csum == msg_csum (read_msg buf) [])) same (
        session-Same n (get_sse env n (read_frm buf).src) _
          (λ se. ack_all_session-Same env (read_frm buf) (read_msg buf) se n se.pkt_list)))

queue_frame-Same : (env : Env) (frame : List ℕ) (n : Node) → Same n (queue_frame env frame n)
unfolding queue_frame put_lower_send_list
queue_frame-Same env frame n = record { rse = refl }

send_patch-Same :
    (env : Env) (pkt : SendNode) (missing : List ℕ) (n : Node)
    → Same n (send_patch env pkt missing n)
unfolding send_patch
send_patch-Same env pkt missing n =
    let (slots, count) = patch_slots env pkt 0 missing in
    Same-if n (count == 0) (record { rse = refl }) (queue_frame-Same env _ n)

ack_part_session-Same :
    (env : Env) (fh : FrmHdr) (mh : MsgHdr) (missing : List ℕ) (se : Sse) (n : Node)
    (l : List SendNode)
    → Same n (ack_part_session env fh mh missing se n l)
unfolding ack_part_session
ack_part_session-Same env fh mh missing se n [] = record { rse = refl }
ack_part_session-Same env fh mh missing se n (pkt ∷ rest) =
    let se' : Sse = record se { ack_timeout = some (env.now + ack_timeout_ms); ack_retry = 0 } in
    let kept : Same n (put_sse fh.src se n) = record { rse = refl } in
    let sent : Same n (send_patch env pkt missing (put_sse fh.src se' n)) = record {
      rse = (send_patch-Same env pkt missing (put_sse fh.src se' n)).rse;
    } in
    Same-if n (not (addresses_match fh pkt)) kept
      (Same-if n (not ((read_msg pkt.frm).seq == mh.seq)) kept sent)

pub proc_ack_part-Same : (env : Env) (buf : List ℕ) (n : Node) → Same n (proc_ack_part env buf n)
unfolding proc_ack_part
proc_ack_part-Same env buf n =
    let fh = read_frm buf in
    let mh = read_msg buf in
    let missing = take mh.len (drop frm_msg_hdr_len buf) in
    let same : Same n n = record { rse = refl } in
    Same-if n (ltb (size_sub (length buf) frm_hdr_len) (msg_hdr_len + 1)) same (
      Same-if n (not (mh.len == size_sub (length buf) frm_msg_hdr_len)) same (
        Same-if n (not (mh.csum == msg_csum mh missing)) same (
          Same-if n (ltb (size_sub (length buf) frm_msg_hdr_len) mh.len) same (
            session-Same n (get_sse env n fh.src) _
              (λ se. ack_part_session-Same env fh mh missing se n se.pkt_list)))))

send_built-Same :
    (env : Env) (dmac : ℕ) (se : Sse) (n : Node) (b : Option Built)
    → Same n (send_built env dmac se n b).1
unfolding send_built
send_built-Same env dmac se n none = record { rse = refl }
send_built-Same env dmac se n (some b) = record { rse = (try_lower_send-Same env _ n _ refl).rse }

pub upper_send-Same :
    (env : Env) (smac dmac : ℕ) (msg : List ℕ) (n : Node)
    → Same n (upper_send env smac dmac msg n).1
unfolding upper_send
upper_send-Same env smac dmac msg n = elim (Bool-cases (leb (length msg) 0)) [
  | inl e ↦ rw e (record { rse = refl })
  | inr e ↦ rw e (send_built-Same env dmac _ n _)
]

send_ack_req-Same :
    (env : Env) (dst src : ℕ) (se : Sse) (n : Node) → Same n (send_ack_req env dst src se n)
unfolding send_ack_req
send_ack_req-Same env dst src se n = queue_frame-Same env _ n
