-- ===== src/Split/Link/Header.antt =====
-- The first frame of a message, its two headers, at the receiver.
use ipcf.Common.{
  ℕ, ◌+◌, ◌*◌, ◌/◌, ◌≤◌, ◌<◌, ◌≡◌, refl, ◌∙◌, false, some, List, [], ◌∷◌, arith, length, ==_iff,
}
use ipcf.Common.Bits.{bit, bit-zero}
use ipcf.Split.Types.{
  link_mtu, FrmHdr, read_frm, MsgHdr, msg_csum, frame_bytes, frame_type_ackp, Rse, Node, Env,
  csum32,
}
use ipcf.Split.Types.Headers.{IsMsgHdr, read_msg-frame_bytes, csum32-lt}
use ipcf.Split.Frame.Encode.{framed, length-framed, length-stuffed}
use ipcf.Split.Bitmap.{test_all_bits_set}
use ipcf.Split.Slice.Patch.{Waits}
use ipcf.Split.Recv.{put_rse, ack_frame, data_done, proc_data}
use ipcf.Split.Node.{lower_put}
use ipcf.Split.Link.Missing.{zeros}
use ipcf.Split.Link.Wire.{queued, lower_put-framed}
use ipcf.Split.Link.Ask.{
  Awaits, HasRoom, data_hdr, data_msg_hdr, send_ack-Awaits, test_all_bits_set_missing,
  proc_data_headers,
}

-- An incomplete message is not handed up; its missing slices are asked for.
data_done-Awaits :
    (env : Env) (fh : FrmHdr) (msg : List ℕ) (seq w k : ℕ) (se : Rse) (n : Node)
    → Awaits msg seq w se
    → length msg ≤ 27 * 32
    → k < (length msg + 31) / 32
    → bit w k ≡ 0
    → data_done env fh se n
      ≡ some (
          put_rse fh.src se (
            queued
              (framed
                (ack_frame fh.src fh.dst frame_type_ackp seq (zeros w 0 ((length msg + 31) / 32))))
              n))
unfolding data_done
data_done-Awaits env fh msg seq w k se n a small l missing =
    let full : test_all_bits_set se.bitmap se.n_slices ≡ some false =
      rw (a.waits.bitmap, a.waits.n_slices)
        (test_all_bits_set_missing w ((length msg + 31) / 32) k (omega arith) l missing) in
    rw (full, send_ack-Awaits env fh.src fh.dst msg seq w k se n a small l missing) refl

-- The frame of the two headers of a message of 1 to 864 bytes.
abbrev pub header_frame : ℕ → ℕ → ℕ → List ℕ → List ℕ
header_frame smac dmac seq msg =
    frame_bytes (data_hdr smac dmac ((length msg + 31) / 32)) (data_msg_hdr seq msg) [] []

module _ (env : Env) (smac dmac seq : ℕ) (msg : List ℕ) (n : Node) (some_bytes : 0 < length msg)
    (small : length msg ≤ 27 * 32) (room : HasRoom smac n) where
  fields : IsMsgHdr (data_msg_hdr seq msg)
  fields = record { d_csum = csum32-lt msg; len = omega arith; len2 = omega arith }

  pub header_frame_fits : length (framed (header_frame smac dmac seq msg)) ≤ link_mtu
  header_frame_fits =
      let frame = header_frame smac dmac seq msg in
      omega (arith, length-framed frame, length-stuffed frame)

  proc_data-headers :
      (se : Rse) × Awaits msg seq 0 se
      × (proc_data env (header_frame smac dmac seq msg) n
          ≡ some (
              put_rse smac se (
                queued
                  (framed
                    (ack_frame smac dmac frame_type_ackp seq (zeros 0 0 ((length msg + 31) / 32))))
                  n)))
  proc_data-headers =
      let fh = data_hdr smac dmac ((length msg + 31) / 32) in
      let mh = data_msg_hdr seq msg in
      let frame = header_frame smac dmac seq msg in
      let mh' : MsgHdr = record mh { csum = msg_csum mh [] } in
      let (array, idle, len, run) =
        proc_data_headers env frame n mh' ((length msg + 31) / 32)
          (read_msg-frame_bytes fh mh [] [] fields) refl ((==_iff _ _).1 refl) ((==_iff _ _).1 refl)
          (omega arith) (omega arith) room in
      let se : Rse = record {
        idle_timeout = idle;
        bitmap = 0 ∷ [];
        seq_exp = seq;
        n_slices = (length msg + 31) / 32;
        msglen = length msg;
        d_csum = csum32 msg;
        buf = array;
        completed = false;
        nak = false;
      } in
      let waits : Waits msg 0 se = record {
        n_slices = refl;
        msglen = refl;
        bitmap = refl;
        room = len;
        stored = λ i l b. absurd (ground (arith, bit-zero (i / 32), b));
      } in
      let a : Awaits msg seq 0 se = record {
        waits = waits;
        d_csum = refl;
        seq_exp = refl;
        completed = refl;
        nak = refl;
      } in
      (
        se,
        a,
        run
            ∙ data_done-Awaits env (read_frm frame) msg seq 0 0 se n a small (omega arith)
                (bit-zero 0),
      )

  -- A node that gets the frame of the headers of a message of 1 to 864 bytes opens a session for
  -- it, and queues one frame, which asks for all of its slices.
  pub lower_put-headers :
      (se : Rse) × Awaits msg seq 0 se
      × (lower_put env (framed (header_frame smac dmac seq msg)) n
          ≡ some (
            some (length (framed (header_frame smac dmac seq msg))),
            put_rse smac se (
                queued
                  (framed
                    (ack_frame smac dmac frame_type_ackp seq (zeros 0 0 ((length msg + 31) / 32))))
                  n),
          ))
  lower_put-headers =
      let (se, a, run) = proc_data-headers in
      let fh = data_hdr smac dmac ((length msg + 31) / 32) in
      (
        se,
        a,
        lower_put-framed env fh (data_msg_hdr seq msg) [] [] n (omega arith) header_frame_fits
            ∙ rw run refl,
      )
