-- ===== src/Split/Types/Headers.antt =====
-- The two headers, read back from the bytes of a frame.
use ipcf.Common.{ℕ, ◌+◌, ◌*◌, ◌/◌, ◌%◌, ◌^◌, ◌<◌, ◌≡◌, refl, true, List, arith, ◌==◌}
use ipcf.Common.Word.{u8}
use ipcf.Crc.Bounds.{crc8-lt, crc16-lt, crc32c-lt}
use ipcf.Split.Types.{
  FrmHdr, frm_bytes, read_frm, MsgHdr, read_msg, csum8, csum16, csum32, frm_csum, msg_csum,
  frame_bytes,
}

pub csum8-lt : (bs : List ℕ) → csum8 bs < 256
unfolding csum8
csum8-lt bs = crc8-lt bs 0xff (omega arith)

pub csum16-lt : (bs : List ℕ) → csum16 bs < 65536
unfolding csum16
csum16-lt bs = crc16-lt bs 0xffff (omega arith)

pub csum32-lt : (bs : List ℕ) → csum32 bs < 2 ^ 32
unfolding csum32
csum32-lt bs = crc32c-lt bs

two_bytes : (n : ℕ) → n < 65536 → n % 256 + 256 * (n / 256 % 256) ≡ n
two_bytes n h = omega arith

four_bytes :
    (n : ℕ)
    → n < 2 ^ 32
    → n % 256 + 256 * (n / 256 % 256) + 65536 * (n / 65536 % 256 + 256 * (n / 2 ^ 24 % 256)) ≡ n
four_bytes n h = omega arith

-- The fields of a message header fit their widths.
pub record IsMsgHdr (mh : MsgHdr) : Type 0 where
  pub d_csum : mh.d_csum < 2 ^ 32
  pub len : mh.len < 65536
  pub len2 : mh.len2 < 65536

module _ (fh : FrmHdr) (mh : MsgHdr) (summed body : List ℕ) where
  pub read_frm-frame_bytes :
      fh.len < 65536 → read_frm (frame_bytes fh mh summed body) ≡ record fh { csum = frm_csum fh }
  read_frm-frame_bytes h =
      let sum = csum8-lt (frm_bytes (record fh { csum = 0xff })) in
      rw (two_bytes fh.len h, two_bytes (frm_csum fh) (omega (arith, sum))) refl

  pub read_msg-frame_bytes :
      IsMsgHdr mh
      → read_msg (frame_bytes fh mh summed body) ≡ record mh { csum = msg_csum mh summed }
  read_msg-frame_bytes h =
      rw (four_bytes mh.d_csum h.d_csum, two_bytes mh.len h.len, two_bytes mh.len2 h.len2) refl

  pub frm_csum-good : (u8 (frm_csum fh) == frm_csum fh) ≡ true
  frm_csum-good = ground (arith, csum8-lt (frm_bytes (record fh { csum = 0xff })))
