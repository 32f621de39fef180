-- ===== src/Split/Send/Inv.antt =====
-- Stop and wait: the invariant of a send session, and the handlers that keep it.
use ipcf.Common.{
  is_empty, ℕ, ◌+◌, ◌≤◌, ◌≡◌, refl, Bool, true, false, not, Option, none, some, List, [], ◌∷◌,
  arith, length, ltb, ◌==◌, if◌then◌else◌, Bool-cases, inl, inr, Option-cases, sym, ap, ◌∙◌, take,
  drop,
}
use ipcf.Split.Types.{
  FrmHdr, frm_msg_hdr_len, frm_hdr_len, msg_hdr_len, msg_csum, size_sub, MsgHdr, ack_timeout_ms,
  max_retry_times, SendNode, Sse, Node, Env, read_frm, read_msg,
}
use ipcf.Split.Recv.{queue_frame}
use ipcf.Split.Queue.{put_lower_send_list}
use ipcf.Split.Send.{
  get_sse, put_sse, try_lower_send, proc_ack_all, send_patch, proc_ack_part, send_ack_req,
  ack_all_session, ack_part_session,
}

abbrev pub is_set : Option ℕ → Bool
is_set none = false
is_set (some t) = true

-- A session waits for an acknowledgement exactly if it has a packet; exactly then its timer runs;
-- and its two retry counters stay within MAX_RETRY_TIMES.
pub record InStep (se : Sse) : Type 0 where
  pub waiting : se.is_waiting ≡ not (is_empty se.pkt_list)
  pub timer : is_set se.ack_timeout ≡ se.is_waiting
  pub data_retries : se.data_retry ≤ max_retry_times
  pub ack_retries : se.ack_retry ≤ max_retry_times

-- `try_lower_send` on a session that waits for nothing.
pub try_lower_send-InStep :
    (env : Env) (se : Sse) (n : Node)
    → se.is_waiting ≡ false
    → se.ack_timeout ≡ none
    → se.data_retry ≤ max_retry_times
    → se.ack_retry ≤ max_retry_times
    → InStep (try_lower_send env se n).0
unfolding try_lower_send
try_lower_send-InStep env se n w t d a = ground arith

-- Every session of a node keeps step.
pub record AllInStep (n : Node) : Type 0 where
  pub each : (i : ℕ) (se : Sse) → n.sse i ≡ some se → InStep se

pub get_sse-InStep :
    (env : Env) (n : Node) (mac : ℕ) (se : Sse)
    → get_sse env n mac ≡ some se
    → AllInStep n
    → InStep se
unfolding get_sse
get_sse-InStep env n mac se e inv = elim (Option-cases (n.sse mac)) [
  | inl q ↦ ground (arith, q)
  | inr (s, q) ↦ ground (arith, q, inv.each mac s q)
]

pub put_sse-AllInStep :
    (mac : ℕ) (se : Sse) (n : Node) → InStep se → AllInStep n → AllInStep (put_sse mac se n)
put_sse-AllInStep mac se n s inv = record {
  each = λ i se' e. elim (Bool-cases (i == mac)) [
    | inl q ↦ ground (arith, q)
    | inr q ↦ ground (arith, inv.each i se')
  ];
}

pub if-AllInStep :
    (b : Bool) (m n : Node) → AllInStep m → AllInStep n → AllInStep (if b then m else n)
if-AllInStep true m n hm hn = hm
if-AllInStep false m n hm hn = hn

session-AllInStep :
    (o : Option Sse) (f : Sse → Node) (n : Node)
    → AllInStep n
    → ((se : Sse) → o ≡ some se → AllInStep (f se))
    → AllInStep (elim o [ none ↦ n | some se ↦ f se ])
session-AllInStep none f n h k = h
session-AllInStep (some se) f n h k = k se refl

-- What the senders of frames leave alone.
pub sse-try_lower_send : (env : Env) (se : Sse) (n : Node) → (try_lower_send env se n).1.sse ≡ n.sse
unfolding try_lower_send put_lower_send_list
sse-try_lower_send env se n = ground arith

sse-send_patch :
    (env : Env) (pkt : SendNode) (d : List ℕ) (n : Node) → (send_patch env pkt d n).sse ≡ n.sse
unfolding send_patch queue_frame put_lower_send_list
sse-send_patch env pkt d n = ground arith

pub sse-send_ack_req :
    (env : Env) (d s : ℕ) (se : Sse) (n : Node) → (send_ack_req env d s se n).sse ≡ n.sse
unfolding send_ack_req put_lower_send_list
sse-send_ack_req env d s se n = refl

-- A session that an update of a node brings back.
pub AllInStep-sse : (m n : Node) → m.sse ≡ n.sse → AllInStep n → AllInStep m
AllInStep-sse m n e inv = record {
  each = λ i se h. inv.each i se (ap (λ (f : ℕ → Option Sse). f i) (sym e) ∙ h);
}

ack_all_session-AllInStep :
    (env : Env) (fh : FrmHdr) (mh : MsgHdr) (se : Sse) (n : Node) (l : List SendNode)
    → l ≡ se.pkt_list
    → InStep se
    → AllInStep n
    → AllInStep (ack_all_session env fh mh se n l)
unfolding ack_all_session
ack_all_session-AllInStep env fh mh se n [] e s inv = put_sse-AllInStep fh.src se n s inv
ack_all_session-AllInStep env fh mh se n (pkt ∷ rest) e s inv =
    let popped : Sse = record se {
      pkt_list = rest;
      is_waiting = false;
      ack_timeout = none;
      data_retry = 0;
      ack_retry = 0;
    } in
    let sent = try_lower_send env popped n in
    let same = put_sse-AllInStep fh.src se n s inv in
    if-AllInStep _ (put_sse fh.src se n) _ same (
      if-AllInStep _ (put_sse fh.src sent.0 sent.1) (put_sse fh.src se n)
        (put_sse-AllInStep fh.src sent.0 sent.1
          (try_lower_send-InStep env popped n refl refl (omega arith) (omega arith))
          (AllInStep-sse sent.1 n (sse-try_lower_send env popped n) inv))
        same)

ack_part_session-AllInStep :
    (env : Env) (fh : FrmHdr) (mh : MsgHdr) (d : List ℕ) (se : Sse) (n : Node) (l : List SendNode)
    → l ≡ se.pkt_list
    → InStep se
    → AllInStep n
    → AllInStep (ack_part_session env fh mh d se n l)
unfolding ack_part_session
ack_part_session-AllInStep env fh mh d se n [] e s inv = put_sse-AllInStep fh.src se n s inv
ack_part_session-AllInStep env fh mh d se n (pkt ∷ rest) e s inv =
    let asked : Sse = record se { ack_timeout = some (env.now + ack_timeout_ms); ack_retry = 0 } in
    let same = put_sse-AllInStep fh.src se n s inv in
    let next = put_sse-AllInStep fh.src asked n (ground (arith, e)) inv in
    if-AllInStep _ (put_sse fh.src se n) _ same (
      if-AllInStep _ (put_sse fh.src se n) _ same (
        AllInStep-sse (send_patch env pkt d (put_sse fh.src asked n)) (put_sse fh.src asked n)
          (sse-send_patch env pkt d (put_sse fh.src asked n)) next))

-- `proc_ack_all` keeps the invariant.
pub proc_ack_all-AllInStep :
    (env : Env) (buf : List ℕ) (n : Node) → AllInStep n → AllInStep (proc_ack_all env buf n)
unfolding proc_ack_all
proc_ack_all-AllInStep env buf n inv = if-AllInStep _ n _ inv (
    if-AllInStep _ n _ inv (
      session-AllInStep (get_sse env n (read_frm buf).src)
        (λ se. ack_all_session env (read_frm buf) (read_msg buf) se n se.pkt_list) n inv
        (λ se e.
          ack_all_session-AllInStep env (read_frm buf) (read_msg buf) se n se.pkt_list refl
            (get_sse-InStep env n _ se e inv) inv)))

-- `proc_ack_part` keeps the invariant.
pub proc_ack_part-AllInStep :
    (env : Env) (buf : List ℕ) (n : Node) → AllInStep n → AllInStep (proc_ack_part env buf n)
unfolding proc_ack_part
proc_ack_part-AllInStep env buf n inv =
    let fh = read_frm buf in
    let mh = read_msg buf in
    let d = take mh.len (drop frm_msg_hdr_len buf) in
    let size = size_sub (length buf) frm_msg_hdr_len in
    if-AllInStep (ltb (size_sub (length buf) frm_hdr_len) (msg_hdr_len + 1)) n _ inv (
      if-AllInStep (not (mh.len == size)) n _ inv (
        if-AllInStep (not (mh.csum == msg_csum mh d)) n _ inv (
          if-AllInStep (ltb size mh.len) n _ inv (
            session-AllInStep (get_sse env n fh.src)
              (λ se. ack_part_session env fh mh d se n se.pkt_list) n inv
              (λ se e.
                ack_part_session-AllInStep env fh mh d se n se.pkt_list refl
                  (get_sse-InStep env n fh.src se e inv) inv)))))
