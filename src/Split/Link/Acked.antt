-- ===== src/Split/Link/Acked.antt =====
-- The frames of acknowledgements at the sender of a message.
use ipcf.Common.{
  ℕ, ◌+◌, ◌≤◌, ◌<◌, ◌≡◌, refl, sym, ap, ap₂, ◌∙◌, true, false, none, some, List, [], ◌∷◌, arith,
  length, take, drop, take_all, ◌==◌, ==_iff, ltb, le→ltb-false, All,
}
use ipcf.Split.Types.{
  link_mtu, frm_hdr_len, msg_hdr_len, frm_msg_hdr_len, FrmHdr, read_frm, MsgHdr, read_msg, msg_csum,
  frame_type_acka, frame_type_ackp, SendNode, Sse, Node, Env, ack_timeout_ms, idle_timeout_ms,
  size_sub,
}
use ipcf.Split.Types.Headers.{read_msg-frame_bytes}
use ipcf.Split.Frame.Encode.{framed}
use ipcf.Split.Recv.{ack_frame}
use ipcf.Split.Send.{
  addresses_match, send_patch, put_sse, ack_part_session, ack_all_session, proc_ack_part,
  proc_ack_all, try_lower_send,
}
use ipcf.Split.Node.{lower_put}
use ipcf.Split.Link.Wire.{queued, lower_put-framed}
use ipcf.Split.Link.Ask.{ack_frame_fits}
use ipcf.Split.Link.Answer.{Packet, patch_frame, packet_frm, packet_seq, send_patch_lem}

-- The headers of an acknowledgement, and what a node reads back.
abbrev ack_hdr : ℕ → ℕ → ℕ → ℕ → FrmHdr
ack_hdr dst src type count = record {
  src = src;
  dst = dst;
  type = type;
  reserved = 0;
  len = frm_msg_hdr_len + count;
  csum = 0;
}

abbrev ack_msg_hdr : ℕ → ℕ → MsgHdr
ack_msg_hdr seq count = record {
  d_csum = 0xffffffff;
  len = count;
  len2 = count;
  seq = seq;
  csum = 0;
}

read_msg-ack_frame :
    (dst src type seq : ℕ) (missing : List ℕ)
    → length missing ≤ 27
    → read_msg (ack_frame dst src type seq missing) ≡ record (ack_msg_hdr seq (length missing)) {
      csum = msg_csum (ack_msg_hdr seq (length missing)) missing;
    }
read_msg-ack_frame dst src type seq missing h =
    read_msg-frame_bytes (ack_hdr dst src type (length missing)) (ack_msg_hdr seq (length missing))
      missing missing (record { d_csum = omega arith; len = omega arith; len2 = omega arith })

module _ (env : Env) (smac dmac seq : ℕ) (msg : List ℕ) (pkt : SendNode) (rest : List SendNode)
    (p : Packet smac dmac seq msg pkt) (se : Sse) (n : Node) (known : n.sse dmac ≡ some se)
    (front : se.pkt_list ≡ pkt ∷ rest) where
  -- The addresses of the packet are those of a frame from its receiver.
  addressed : (fh : FrmHdr) → fh.src ≡ dmac → fh.dst ≡ smac → addresses_match fh pkt ≡ true
  addressed fh s d =
      let src : (read_frm pkt.frm).src ≡ smac =
        ap (λ (h : FrmHdr). h.src) (packet_frm smac dmac seq msg pkt p) in
      let dst : (read_frm pkt.frm).dst ≡ dmac =
        ap (λ (h : FrmHdr). h.dst) (packet_frm smac dmac seq msg pkt p) in
      ground (arith, src, dst, s, d)

  -- The session after a look at it, and after slices have been asked for.
  abbrev seen : Sse
  seen = record se { idle_timeout = env.now + idle_timeout_ms }

  abbrev pub asked : Sse
  asked = record se {
    idle_timeout = env.now + idle_timeout_ms;
    ack_timeout = some (env.now + ack_timeout_ms);
    ack_retry = 0;
  }

  proc_ack_part_front :
      (buf : List ℕ)
      → (read_frm buf).src ≡ dmac
      → (read_frm buf).dst ≡ smac
      → let mh = read_msg buf in
        let missing = take mh.len (drop frm_msg_hdr_len buf) in
        mh.seq ≡ seq
        → ltb (size_sub (length buf) frm_hdr_len) (msg_hdr_len + 1) ≡ false
        → (mh.len == size_sub (length buf) frm_msg_hdr_len) ≡ true
        → (mh.csum == msg_csum mh missing) ≡ true
        → ltb (size_sub (length buf) frm_msg_hdr_len) mh.len ≡ false
        → proc_ack_part env buf n ≡ send_patch env pkt missing (put_sse dmac asked n)
  unfolding proc_ack_part ack_part_session
  proc_ack_part_front buf src dst is_seq long whole good fits =
      let same = addressed (read_frm buf) src dst in
      let number : ((read_msg pkt.frm).seq == (read_msg buf).seq) ≡ true =
        (==_iff _ _).1 (packet_seq smac dmac seq msg pkt p ∙ sym is_seq) in
      let here : n.sse (read_frm buf).src ≡ some se = ap n.sse src ∙ known in
      rw (long, whole, good, fits, here, front, same, number, src) refl

  -- The session after its front packet has been acknowledged.
  abbrev pub popped : Sse
  popped = record se {
    idle_timeout = env.now + idle_timeout_ms;
    pkt_list = rest;
    is_waiting = false;
    ack_timeout = none;
    data_retry = 0;
    ack_retry = 0;
  }

  proc_ack_all_front :
      (buf : List ℕ)
      → (read_frm buf).src ≡ dmac
      → (read_frm buf).dst ≡ smac
      → let mh = read_msg buf in
        mh.seq ≡ seq
        → ltb (size_sub (length buf) frm_hdr_len) msg_hdr_len ≡ false
        → (mh.csum == msg_csum mh []) ≡ true
        → proc_ack_all env buf n
          ≡ (let (se', n') = try_lower_send env popped n in put_sse dmac se' n')
  unfolding proc_ack_all ack_all_session
  proc_ack_all_front buf src dst is_seq long good =
      let same = addressed (read_frm buf) src dst in
      let number : ((read_msg pkt.frm).seq == (read_msg buf).seq) ≡ true =
        (==_iff _ _).1 (packet_seq smac dmac seq msg pkt p ∙ sym is_seq) in
      let here : n.sse (read_frm buf).src ≡ some se = ap n.sse src ∙ known in
      rw (long, good, here, front, same, number, src) refl

  -- A frame that asks for slices of the packet at the front of the session is answered by a frame
  -- of exactly these slices, if that fits in LINK_MTU; the timer starts again.
  pub lower_put-asked :
      (ms : List ℕ)
      → All (λ d. d < pkt.n_slices) ms
      → 0 < length ms
      → length ms ≤ 27
      → length (framed (patch_frame smac dmac seq msg ms)) ≤ link_mtu
      → let raw = framed (ack_frame smac dmac frame_type_ackp seq ms) in
        lower_put env raw n
        ≡ some (
          some (length raw),
          queued (framed (patch_frame smac dmac seq msg ms)) (put_sse dmac asked n),
        )
  lower_put-asked ms below some_ms few fits =
      let frame = ack_frame smac dmac frame_type_ackp seq ms in
      let header = read_msg-ack_frame smac dmac frame_type_ackp seq ms few in
      let len : (read_msg frame).len ≡ length ms = ap (λ (h : MsgHdr). h.len) header in
      let body : take (read_msg frame).len ms ≡ ms =
        ap (λ (t : ℕ). take t ms) len ∙ take_all (length ms) ms (omega arith) in
      let left : size_sub (length frame) frm_msg_hdr_len ≡ length ms = omega arith in
      let good : ((read_msg frame).csum == msg_csum (read_msg frame) (take (read_msg frame).len ms))
          ≡ true =
        (==_iff _ _).1 (ap (λ (h : MsgHdr). h.csum) header ∙ sym (ap₂ msg_csum header body)) in
      lower_put-framed env (ack_hdr smac dmac frame_type_ackp (length ms))
        (ack_msg_hdr seq (length ms)) ms ms n (omega arith)
        (ack_frame_fits smac dmac frame_type_ackp seq ms few)
      ∙ ap (λ (m : Node). some (some (length (framed frame)), m))
          (proc_ack_part_front frame refl refl (ap (λ (h : MsgHdr). h.seq) header)
              (le→ltb-false _ _ (omega arith)) ((==_iff _ _).1 (len ∙ sym left)) good
              (le→ltb-false _ _ (omega arith))
            ∙ ap (λ (l : List ℕ). send_patch env pkt l (put_sse dmac asked n)) body
            ∙ send_patch_lem smac dmac seq msg pkt p env ms (put_sse dmac asked n) below some_ms few
                fits)

  -- A frame that acknowledges the packet at the front of the session drops it, and the next one is
  -- sent, if there is one.
  pub lower_put-acked :
      let raw = framed (ack_frame smac dmac frame_type_acka seq []) in
      lower_put env raw n
      ≡ some
          (some (length raw), (let (se', n') = try_lower_send env popped n in put_sse dmac se' n'))
  lower_put-acked =
      let frame = ack_frame smac dmac frame_type_acka seq [] in
      let header = read_msg-ack_frame smac dmac frame_type_acka seq [] (omega arith) in
      let good : ((read_msg frame).csum == msg_csum (read_msg frame) []) ≡ true =
        (==_iff _ _).1
          (ap (λ (h : MsgHdr). h.csum) header ∙ sym (ap (λ (h : MsgHdr). msg_csum h []) header)) in
      lower_put-framed env (ack_hdr smac dmac frame_type_acka 0) (ack_msg_hdr seq 0) [] [] n
        (omega arith) (ack_frame_fits smac dmac frame_type_acka seq [] (omega arith))
      ∙ ap (λ (m : Node). some (some (length (framed frame)), m))
          (proc_ack_all_front frame refl refl (ap (λ (h : MsgHdr). h.seq) header) refl good)
