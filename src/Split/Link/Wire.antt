-- ===== src/Split/Link/Wire.antt =====
-- A frame between two nodes: queued by one, and taken in by the other's `lower_put`.
use ipcf.Common.{
  ℕ, ◌≤◌, ◌<◌, ◌≡◌, refl, sym, ap, ◌∙◌, true, false, Option, none, some, List, [], ◌∷◌, ◌++◌, arith,
  length, take, take_all, take-append, leb, ltb, le→ltb-false, ◌==◌, if◌then◌else◌,
}
use mathlib.Core.List.{append-nil}
use ipcf.Common.Fault.{◌>>=◌}
use ipcf.Common.Word.{u8, u16}
use ipcf.Split.Types.{
  link_mtu, frm_hdr_len, frame_type_data, frame_type_acka, frame_type_ackr, frame_type_ackp,
  frame_type_patch, FrmHdr, read_frm, frm_csum, MsgHdr, Node, Env, array, frame_bytes,
}
use ipcf.Split.Types.Headers.{read_frm-frame_bytes, frm_csum-good}
use ipcf.Split.Frame.{de_frame}
use ipcf.Split.Frame.Encode.{framed, length-framed, length-stuffed, en_frame-framed}
use ipcf.Split.Frame.RoundTrip.{de_frame-framed}
use ipcf.Split.Queue.{data_node, put_lower_send_list, lower_fetch_queue, lower_fetch}
use ipcf.Split.Recv.{proc_data, proc_ack_req, proc_patch, queue_frame}
use ipcf.Split.Send.{proc_ack_all, proc_ack_part}
use ipcf.Split.Node.{lower_put}

-- A node with a frame more in its queue for the link.
abbrev pub queued : List ℕ → Node → Node
queued raw n = record n { lower_send_list = n.lower_send_list ++ (raw ∷ []) }

-- The first `len` bytes of an array are what is queued.
pub put_lower_send_list-queued :
    (buf raw : List ℕ) (len : ℕ) (n : Node)
    → len ≤ link_mtu
    → take len buf ≡ raw
    → put_lower_send_list buf len n ≡ queued raw n
unfolding put_lower_send_list data_node
put_lower_send_list-queued buf raw len n h e =
    let small : leb len link_mtu ≡ true = ground arith in rw (small, e) refl

-- A frame that fits in LINK_MTU is queued stuffed.
pub queue_frame-queued :
    (env : Env) (frame : List ℕ) (n : Node)
    → length (framed frame) ≤ link_mtu
    → queue_frame env frame n ≡ queued (framed frame) n
unfolding queue_frame
queue_frame-queued env frame n h = rw (en_frame-framed frame link_mtu h) (
    put_lower_send_list-queued (array env.stale (framed frame)) (framed frame)
      (length (framed frame)) n h (take-append (length (framed frame)) (framed frame) _ refl))

-- A raw frame at the head of the queue is fetched whole.
pub lower_fetch-head :
    (raw : List ℕ) (rest : List (List ℕ)) (n : Node) (cap : ℕ)
    → n.lower_send_list ≡ raw ∷ rest
    → length raw ≤ cap
    → ((lower_fetch n cap).0.buf ≡ raw)
      × ((lower_fetch n cap).1 ≡ record n { lower_send_list = rest })
unfolding lower_fetch lower_fetch_queue
lower_fetch-head raw rest n cap e h =
    let fits : leb (length raw) cap ≡ true = ground arith in
    (rw (e, fits) (take_all (length raw) raw (omega arith)), rw (e, fits) refl)

-- What `lower_put` does with a frame whose header is intact, by its type.
abbrev pub handled : Env → ℕ → ℕ → List ℕ → Node → Option (Option ℕ × Node)
handled env raw_len type buf n =
    let done : Option Node → Option (Option ℕ × Node) = λ m. m >>= λ n'. some (some raw_len, n') in
    if type == frame_type_data
    then done (proc_data env buf n)
    else if type == frame_type_ackr
    then done (proc_ack_req env buf n)
    else if type == frame_type_patch
    then done (proc_patch env buf n)
    else if type == frame_type_acka
    then done (some (proc_ack_all env buf n))
    else if type == frame_type_ackp
    then done (some (proc_ack_part env buf n))
    else some (none, n)

-- The bytes that `lower_put` gets out of a frame.
de_frame-whole :
    (frame : List ℕ)
    → length (framed frame) ≤ link_mtu
    → (de_frame (take (u16 (length (framed frame))) (framed frame)) link_mtu).buf ≡ frame
de_frame-whole frame h =
    let all : take (u16 (length (framed frame))) (framed frame) ≡ framed frame =
      take_all _ (framed frame) (omega arith) in
    let small : ltb link_mtu (length frame) ≡ false =
      ground (arith, length-framed frame, length-stuffed frame) in
    rw all (
      ap (λ l. (de_frame l link_mtu).buf) (sym (append-nil (framed frame)))
      ∙ rw (de_frame-framed [] frame [] link_mtu tt) (rw small refl))

lower_put-handled :
    (env : Env) (raw buf : List ℕ) (n : Node)
    → (de_frame (take (u16 (length raw)) raw) link_mtu).buf ≡ buf
    → ltb (length buf) frm_hdr_len ≡ false
    → (u8 (read_frm buf).csum == frm_csum (read_frm buf)) ≡ true
    → lower_put env raw n ≡ handled env (length raw) (read_frm buf).type buf n
unfolding lower_put
lower_put-handled env raw buf n e room good = rw (e, room, good) refl

-- The frame of two headers and a body reaches the handler of its type.
pub lower_put-framed :
    (env : Env) (fh : FrmHdr) (mh : MsgHdr) (summed body : List ℕ) (n : Node)
    → let frame = frame_bytes fh mh summed body in
      fh.len < 65536
      → length (framed frame) ≤ link_mtu
      → lower_put env (framed frame) n ≡ handled env (length (framed frame)) fh.type frame n
lower_put-framed env fh mh summed body n small h =
    let frame = frame_bytes fh mh summed body in
    let header = read_frm-frame_bytes fh mh summed body small in
    lower_put-handled env (framed frame) frame n (de_frame-whole frame h)
      (le→ltb-false (length frame) frm_hdr_len (omega arith))
      (ap (λ (h : FrmHdr). u8 h.csum == frm_csum h) header ∙ frm_csum-good fh mh summed body)
    ∙ ap (λ (h : FrmHdr). handled env (length (framed frame)) h.type frame n) header
