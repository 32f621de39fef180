-- ===== src/Split/Link/Answer.antt =====
-- The sender of a message answers the receiver's frames: it sends the slices that are asked for, and
-- drops the packet that is acknowledged.
use ipcf.Common.{
  ℕ, ◌+◌, ◌*◌, ◌/◌, ◌≤◌, ◌<◌, ◌≡◌, refl, ap, ◌∙◌, false, List, [], ◌∷◌, map, arith, length,
  length-append, take, drop, take_all, ◌==◌, All,
}
use ipcf.Split.Types.{
  link_mtu, slice_len, frm_msg_hdr_len, FrmHdr, read_frm, MsgHdr, read_msg, frm_csum, frame_bytes,
  frame_type_patch, SendNode, Node, Env, slice_bytes,
}
use ipcf.Split.Types.Headers.{read_frm-frame_bytes, read_msg-frame_bytes, csum32-lt}
use ipcf.Split.Frame.Encode.{framed}
use ipcf.Split.Slice.Layout.{all_bytes, length-slice_bytes}
use ipcf.Split.Send.{send_patch}
use ipcf.Split.Link.Wire.{queued, queue_frame-queued}
use ipcf.Split.Link.Patch.{genuine_slice, genuine_slice-IsSlice, patch_slots_lem}
use ipcf.Split.Link.Ask.{data_hdr, data_msg_hdr}
use ipcf.Split.Link.Header.{header_frame}

-- A packet of the message, ready for the link: its slices stand behind its headers, and the frame of
-- the headers alone is what is sent first.
pub record Packet (smac dmac seq : ℕ) (msg : List ℕ) (pkt : SendNode) : Type 0 where
  pub slices : List ℕ
  pub frm :
      pkt.frm
      ≡ frame_bytes (data_hdr smac dmac ((length msg + 31) / 32)) (data_msg_hdr seq msg) [] slices
  pub n_slices : pkt.n_slices ≡ (length msg + 31) / 32
  pub at :
      (d : ℕ)
      → d < pkt.n_slices
      → take slice_len (drop (frm_msg_hdr_len + slice_len * d) pkt.frm)
        ≡ slice_bytes (genuine_slice msg d)
  pub esc_len : pkt.esc_len ≤ link_mtu
  pub escaped : take pkt.esc_len pkt.escaped ≡ framed (header_frame smac dmac seq msg)
  pub some_bytes : 0 < length msg
  pub small : length msg ≤ 27 * 32

abbrev pub patch_hdr : ℕ → ℕ → ℕ → FrmHdr
patch_hdr smac dmac count = record {
  src = smac;
  dst = dmac;
  type = frame_type_patch;
  reserved = 0;
  len = frm_msg_hdr_len + slice_len * count;
  csum = 0;
}

abbrev pub patch_msg_hdr : ℕ → ℕ → MsgHdr
patch_msg_hdr seq count = record {
  d_csum = 0xffffffff;
  len = count;
  len2 = count;
  seq = seq;
  csum = 0;
}

-- The frame of these slices of the message.
abbrev pub patch_frame : ℕ → ℕ → ℕ → List ℕ → List ℕ → List ℕ
patch_frame smac dmac seq msg ms =
    frame_bytes (patch_hdr smac dmac (length ms)) (patch_msg_hdr seq (length ms)) []
      (all_bytes (map (genuine_slice msg) ms))

pub length-slices :
    (msg ms : List ℕ) → length (all_bytes (map (genuine_slice msg) ms)) ≡ slice_len * length ms
length-slices msg [] = refl
length-slices msg (m ∷ ms) =
    let one = genuine_slice msg m in
    omega (
      arith,
      length-append (slice_bytes one) (all_bytes (map (genuine_slice msg) ms)),
      length-slice_bytes one (genuine_slice-IsSlice msg m),
      length-slices msg ms,
    )

module _ (smac dmac seq : ℕ) (msg : List ℕ) (pkt : SendNode)
    (p : Packet smac dmac seq msg pkt) where
  -- The headers of the packet.
  pub packet_frm :
      read_frm pkt.frm
      ≡ let fh = data_hdr smac dmac ((length msg + 31) / 32) in record fh { csum = frm_csum fh }
  packet_frm =
      ap read_frm p.frm
      ∙ read_frm-frame_bytes (data_hdr smac dmac ((length msg + 31) / 32)) (data_msg_hdr seq msg) []
          p.slices (omega (arith, p.small))

  pub packet_seq : (read_msg pkt.frm).seq ≡ seq
  packet_seq =
      ap (λ b. (read_msg b).seq) p.frm
      ∙ ap (λ (h : MsgHdr). h.seq)
          (read_msg-frame_bytes (data_hdr smac dmac ((length msg + 31) / 32)) (data_msg_hdr seq msg)
            [] p.slices
            (record {
              d_csum = csum32-lt msg;
              len = omega (arith, p.small);
              len2 = omega (arith, p.small);
            }))

  module _ (env : Env) (ms : List ℕ) (n : Node) (below : All (λ d. d < pkt.n_slices) ms)
      (some_ms : 0 < length ms) (few : length ms ≤ 27)
      (fits : length (framed (patch_frame smac dmac seq msg ms)) ≤ link_mtu) where
    -- `send_patch` queues the frame of exactly these slices.
    pub send_patch_lem :
        send_patch env pkt ms n ≡ queued (framed (patch_frame smac dmac seq msg ms)) n
    unfolding send_patch
    send_patch_lem =
        let slots = patch_slots_lem env pkt (genuine_slice msg) 0 ms p.at below (omega arith) in
        let whole =
          take_all (slice_len * length ms) (all_bytes (map (genuine_slice msg) ms))
            (omega (arith, length-slices msg ms)) in
        let more : (length ms == 0) ≡ false = ground arith in
        let src : (read_frm pkt.frm).src ≡ smac = ap (λ (h : FrmHdr). h.src) packet_frm in
        let dst : (read_frm pkt.frm).dst ≡ dmac = ap (λ (h : FrmHdr). h.dst) packet_frm in
        rw (slots, more, whole, src, dst, packet_seq)
          (queue_frame-queued env (patch_frame smac dmac seq msg ms) n fits)
