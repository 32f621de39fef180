-- ===== src/Split/Link/Retry.antt =====
-- A timeout at the sender of a message: it asks for an acknowledgement, and the receiver answers.
use ipcf.Common.{
  ℕ, ◌+◌, ◌*◌, ◌/◌, ◌≤◌, ◌<◌, ◌≡◌, refl, sym, ap, ap₂, ◌∙◌, true, false, Option, some, List, [],
  ◌∷◌, arith, length, get_or, ◌==◌, ==_iff, leb, ltb,
}
use ipcf.Common.Fault.{◌>>=◌}
use ipcf.Common.Bits.{bit}
use ipcf.Common.Word.{u8}
use ipcf.Split.Types.{
  link_mtu, frm_hdr_len, msg_hdr_len, frm_msg_hdr_len, idle_timeout_ms, max_retry_times, FrmHdr,
  read_frm, MsgHdr, read_msg, msg_csum, frame_bytes, frame_type_ackr, frame_type_acka,
  frame_type_ackp, SendNode, Sse, Rse, Node, Env, size_sub,
}
use ipcf.Split.Types.Headers.{read_msg-frame_bytes}
use ipcf.Split.Frame.Encode.{framed, length-framed, length-stuffed}
use ipcf.Split.Bitmap.{test_all_bits_set}
use ipcf.Split.Recv.{put_rse, ack_frame, send_ack, proc_ack_req, queue_frame}
use ipcf.Split.Recv.Deliver.{Answers}
use ipcf.Split.Send.{put_sse, send_ack_req, timeout_session, proc_sse_ack_timeout}
use ipcf.Split.Node.{lower_put, ack_due, sse_tick}
use ipcf.Split.Link.Missing.{zeros}
use ipcf.Split.Link.Wire.{queued, queue_frame-queued, lower_put-framed}
use ipcf.Split.Link.Ask.{Awaits, ack_frame_fits, send_ack-Awaits}
use ipcf.Split.Link.Answer.{Packet, packet_frm}

-- The headers that ask for an acknowledgement; `reserved` is a byte of the stack.
abbrev ackr_hdr : ℕ → ℕ → ℕ → FrmHdr
ackr_hdr smac dmac reserved = record {
  src = smac;
  dst = dmac;
  type = frame_type_ackr;
  reserved = reserved;
  len = frm_msg_hdr_len;
  csum = 0;
}

abbrev ackr_msg_hdr : ℕ → MsgHdr
ackr_msg_hdr seq = record { d_csum = 0xffffffff; len = 0; len2 = 0; seq = seq; csum = 0 }

abbrev pub ackr_frame : ℕ → ℕ → ℕ → ℕ → List ℕ
ackr_frame smac dmac seq reserved =
    frame_bytes (ackr_hdr smac dmac reserved) (ackr_msg_hdr seq) [] []

pub ackr_frame_fits :
    (smac dmac seq reserved : ℕ) → length (framed (ackr_frame smac dmac seq reserved)) ≤ link_mtu
ackr_frame_fits smac dmac seq reserved =
    let frame = ackr_frame smac dmac seq reserved in
    omega (arith, length-framed frame, length-stuffed frame)

-- The session after the first timeouts of its front packet.
abbrev pub retried : Env → Sse → Sse
retried env se = record se {
  idle_timeout = env.now + idle_timeout_ms;
  ack_retry = se.ack_retry + 1;
}

-- The frame by which the session asks.
abbrev pub asks_again : Env → ℕ → ℕ → Sse → List ℕ
asks_again env smac dmac se =
    framed (ackr_frame smac dmac (u8 (se.seq + 255)) (get_or env.stale 3 0))

module _ (env : Env) (smac dmac seq : ℕ) (msg : List ℕ) (pkt : SendNode) (rest : List SendNode)
    (p : Packet smac dmac seq msg pkt) (se : Sse) (n : Node) (front : se.pkt_list ≡ pkt ∷ rest)
    (few : se.ack_retry + 1 ≤ max_retry_times) where
  timeout_session-retried :
      timeout_session env se n (pkt ∷ rest)
      ≡ some (retried env se, queued (asks_again env smac dmac se) n)
  unfolding timeout_session send_ack_req
  timeout_session-retried =
      let asks : leb (se.ack_retry + 1) max_retry_times ≡ true = ground arith in
      let src : (read_frm pkt.frm).src ≡ smac =
        ap (λ (h : FrmHdr). h.src) (packet_frm smac dmac seq msg pkt p) in
      let dst : (read_frm pkt.frm).dst ≡ dmac =
        ap (λ (h : FrmHdr). h.dst) (packet_frm smac dmac seq msg pkt p) in
      let frame = ackr_frame smac dmac (u8 (se.seq + 255)) (get_or env.stale 3 0) in
      rw asks (
        ap₂
          (λ (d s : ℕ). some (
            retried env se,
            queue_frame env (ackr_frame s d (u8 (se.seq + 255)) (get_or env.stale 3 0)) n,
          ))
          dst src
        ∙ ap (λ (m : Node). some (retried env se, m))
            (queue_frame-queued env frame n
              (ackr_frame_fits smac dmac (u8 (se.seq + 255)) (get_or env.stale 3 0))))

  -- A session whose timer is due, of a packet that has not been asked about too often: one frame is
  -- queued, which asks for its acknowledgement.
  pub sse_tick-retried :
      n.sse dmac ≡ some se
      → ack_due env.now se ≡ true
      → sse_tick env dmac n
        ≡ some (put_sse dmac (retried env se) (queued (asks_again env smac dmac se) n))
  unfolding sse_tick proc_sse_ack_timeout
  sse_tick-retried known due =
      let stays : leb (env.now + 10000) env.now ≡ false = ground arith in
      let timeout : proc_sse_ack_timeout env se n
          ≡ some (retried env se, queued (asks_again env smac dmac se) n) =
        ap (timeout_session env se n) front ∙ timeout_session-retried in
      rw (sse_tick, known, due, timeout, stays) refl

-- A session that has all of its message answers with one frame.
send_ack-Answers :
    (env : Env) (smac dmac seq : ℕ) (se : Rse) (n : Node)
    → se.nak ≡ false
    → test_all_bits_set se.bitmap se.n_slices ≡ some true
    → se.seq_exp ≡ seq
    → send_ack env smac dmac se n
      ≡ some (queue_frame env (ack_frame smac dmac frame_type_acka seq []) n)
unfolding send_ack
send_ack-Answers env smac dmac seq se n nak full number = rw (nak, full, number) refl

-- The session after a look at it.
abbrev pub looked : Env → Rse → Rse
looked env se = record se { idle_timeout = env.now + idle_timeout_ms }

-- The message header of the frame that asks, as a node reads it.
pub read_msg-ackr_frame :
    (smac dmac seq reserved : ℕ)
    → let frame = ackr_frame smac dmac seq reserved in
      ((read_msg frame).seq ≡ seq)
      × (((read_msg frame).csum == msg_csum (read_msg frame) []) ≡ true)
read_msg-ackr_frame smac dmac seq reserved =
    let header =
      read_msg-frame_bytes (ackr_hdr smac dmac reserved) (ackr_msg_hdr seq) [] []
        (record { d_csum = omega arith; len = omega arith; len2 = omega arith }) in
    (
      ap (λ (h : MsgHdr). h.seq) header,
      (==_iff _ _).1
          (ap (λ (h : MsgHdr). h.csum) header ∙ sym (ap (λ (h : MsgHdr). msg_csum h []) header)),
    )

pub lower_put-ackr :
    (env : Env) (smac dmac seq reserved : ℕ) (n : Node)
    → let frame = ackr_frame smac dmac seq reserved in
      lower_put env (framed frame) n
      ≡ (proc_ack_req env frame n >>= λ n'. some (some (length (framed frame)), n'))
lower_put-ackr env smac dmac seq reserved n =
    lower_put-framed env (ackr_hdr smac dmac reserved) (ackr_msg_hdr seq) [] [] n (omega arith)
      (ackr_frame_fits smac dmac seq reserved)

module _ (env : Env) (smac dmac seq reserved : ℕ) (se : Rse) (n : Node)
    (known : n.rse smac ≡ some se) (number : se.seq_exp ≡ seq) where
  abbrev raw : List ℕ
  raw = framed (ackr_frame smac dmac seq reserved)

  abbrev at : Node
  at = put_rse smac (looked env se) n

  proc_ack_req-session :
      (buf : List ℕ)
      → (read_frm buf).src ≡ smac
      → (read_frm buf).dst ≡ dmac
      → (read_msg buf).seq ≡ seq
      → ltb (size_sub (length buf) frm_hdr_len) msg_hdr_len ≡ false
      → ((read_msg buf).csum == msg_csum (read_msg buf) []) ≡ true
      → proc_ack_req env buf n ≡ send_ack env smac dmac (looked env se) at
  unfolding proc_ack_req
  proc_ack_req-session buf src dst is_seq long good =
      let same : (se.seq_exp == (read_msg buf).seq) ≡ true = (==_iff _ _).1 (number ∙ sym is_seq) in
      let here : n.rse (read_frm buf).src ≡ some se = ap n.rse src ∙ known in
      rw (long, good, here, same, src, dst) refl

  -- A frame that asks for the acknowledgement of the session's message: the session answers.
  pub lower_put-asks_again :
      lower_put env raw n
      ≡ (send_ack env smac dmac (looked env se) at >>= λ n'. some (some (length raw), n'))
  lower_put-asks_again =
      let (is_seq, good) = read_msg-ackr_frame smac dmac seq reserved in
      lower_put-ackr env smac dmac seq reserved n
      ∙ ap (λ (m : Option Node). m >>= λ n'. some (some (length raw), n'))
          (proc_ack_req-session (ackr_frame smac dmac seq reserved) refl refl is_seq refl good)

  -- If it waits for slices, it asks for them.
  pub asks_again-Awaits :
      (msg : List ℕ) (w k : ℕ)
      → Awaits msg seq w se
      → length msg ≤ 27 * 32
      → k < (length msg + 31) / 32
      → bit w k ≡ 0
      → Awaits msg seq w (looked env se)
        × (lower_put env raw n
            ≡ some (
              some (length raw),
              queued
                  (framed
                    (ack_frame smac dmac frame_type_ackp seq (zeros w 0 ((length msg + 31) / 32))))
                  at,
            ))
  asks_again-Awaits msg w k a small l missing =
      let again : Awaits msg seq w (looked env se) = record {
        waits = record {
          n_slices = a.waits.n_slices;
          msglen = a.waits.msglen;
          bitmap = a.waits.bitmap;
          room = a.waits.room;
          stored = a.waits.stored;
        };
        d_csum = a.d_csum;
        seq_exp = a.seq_exp;
        completed = a.completed;
        nak = a.nak;
      } in
      (
        again,
        lower_put-asks_again
            ∙ ap (λ (m : Option Node). m >>= λ n'. some (some (length raw), n'))
                (send_ack-Awaits env smac dmac msg seq w k (looked env se) at again small l
                  missing),
      )

  -- If it is completed, it acknowledges again, and hands nothing up.
  pub asks_again-Answers :
      Answers seq se
      → lower_put env raw n
        ≡ some (some (length raw), queued (framed (ack_frame smac dmac frame_type_acka seq [])) at)
  asks_again-Answers a =
      let frame = ack_frame smac dmac frame_type_acka seq [] in
      lower_put-asks_again
      ∙ ap (λ (m : Option Node). m >>= λ n'. some (some (length raw), n'))
          (send_ack-Answers env smac dmac seq (looked env se) at a.answers a.full a.seq_exp
            ∙ ap some (
                queue_frame-queued env frame at
                  (ack_frame_fits smac dmac frame_type_acka seq [] (omega arith))))
