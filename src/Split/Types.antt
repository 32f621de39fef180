-- ===== src/Split/Types.antt =====
-- include/split.h: the sizes, the headers of frames and messages as they lie in memory, the slices.
pub mod Memory
pub mod Headers
use ipcf.Common.{
  ℕ, ◌+◌, ◌-◌, ◌*◌, ◌/◌, ◌%◌, ◌^◌, List, [], ◌∷◌, ◌++◌, get_or, take, drop, length, Option, none,
  some, Bool, ltb, ◌==◌, if◌then◌else◌,
}
use ipcf.Common.Word.{le16, le32, get16, get32}
use ipcf.Split.Frame.{EnFrame}
use ipcf.Crc.{crc8, crc16, crc32c}

abbrev pub num_of_se : ℕ
num_of_se = 256

abbrev pub link_mtu : ℕ
link_mtu = 1000

abbrev pub slice_data_len : ℕ
slice_data_len = 32

abbrev pub idle_timeout_ms : ℕ
idle_timeout_ms = 10 * 1000

abbrev pub ack_timeout_ms : ℕ
ack_timeout_ms = 3 * 1000

abbrev pub max_retry_times : ℕ
max_retry_times = 5

-- `sizeof(frm_hdr_t)`, `sizeof(msg_hdr_t)`, `FRM_MSG_HDR_LEN`, `sizeof(slice_t)`.
abbrev pub frm_hdr_len : ℕ
frm_hdr_len = 8

abbrev pub msg_hdr_len : ℕ
msg_hdr_len = 10

abbrev pub frm_msg_hdr_len : ℕ
frm_msg_hdr_len = 18

abbrev pub slice_len : ℕ
slice_len = 36

abbrev pub link_data_max : ℕ
link_data_max = link_mtu - frm_msg_hdr_len

abbrev pub max_slice_num : ℕ
max_slice_num = (link_mtu - frm_msg_hdr_len) / slice_len

abbrev pub bitmap32_size : ℕ
bitmap32_size = (max_slice_num + 31) / 32

abbrev pub slice_seperator : ℕ
slice_seperator = 0x7e

abbrev pub frame_type_data : ℕ
frame_type_data = 1

abbrev pub frame_type_acka : ℕ
frame_type_acka = 2

abbrev pub frame_type_ackr : ℕ
frame_type_ackr = 3

abbrev pub frame_type_ackp : ℕ
frame_type_ackp = 4

abbrev pub frame_type_patch : ℕ
frame_type_patch = 5

-- `frm_hdr_t`, and its bytes.
pub record FrmHdr : Type 0 where
  pub src : ℕ
  pub dst : ℕ
  pub type : ℕ
  pub reserved : ℕ
  pub len : ℕ
  pub csum : ℕ

abbrev pub frm_bytes : FrmHdr → List ℕ
frm_bytes h = h.src ∷ h.dst ∷ h.type ∷ h.reserved ∷ le16 h.len ++ le16 h.csum

-- `(frm_hdr_t *)buf`.
abbrev pub read_frm : List ℕ → FrmHdr
read_frm b = record {
  src = get_or b 0 0;
  dst = get_or b 1 0;
  type = get_or b 2 0;
  reserved = get_or b 3 0;
  len = get16 b 4;
  csum = get16 b 6;
}

-- `msg_hdr_t`, which is packed, and its bytes.
pub record MsgHdr : Type 0 where
  pub d_csum : ℕ
  pub len : ℕ
  pub len2 : ℕ
  pub seq : ℕ
  pub csum : ℕ

abbrev pub msg_bytes : MsgHdr → List ℕ
msg_bytes h = le32 h.d_csum ++ (le16 h.len ++ (le16 h.len2 ++ (h.seq ∷ h.csum ∷ [])))

-- `(msg_hdr_t *)fh->data`.
abbrev pub read_msg : List ℕ → MsgHdr
read_msg b = record {
  d_csum = get32 b 8;
  len = get16 b 12;
  len2 = get16 b 14;
  seq = get_or b 16 0;
  csum = get_or b 17 0;
}

-- `slice_t`, which is packed, and its bytes. `data` has SLICE_DATA_LEN bytes.
pub record Slice : Type 0 where
  pub sep : ℕ
  pub seq : ℕ
  pub payload : List ℕ
  pub csum : ℕ

abbrev pub slice_bytes : Slice → List ℕ
slice_bytes s = s.sep ∷ s.seq ∷ s.payload ++ le16 s.csum

-- `slice_t` number `i` behind the two headers.
abbrev pub read_slice : List ℕ → ℕ → Slice
read_slice b i =
    let at : ℕ = frm_msg_hdr_len + slice_len * i in
    record {
      sep = get_or b at 0;
      seq = get_or b (at + 1) 0;
      payload = take slice_data_len (drop (at + 2) b);
      csum = get16 b (at + 34);
    }

unfoldable pub csum8 : List ℕ → ℕ
csum8 d = crc8 0xff d

unfoldable pub csum16 : List ℕ → ℕ
csum16 d = crc16 0xffff d

unfoldable pub csum32 : List ℕ → ℕ
csum32 d = crc32c d

-- `send_node_t`: `frm` holds the headers and the slices filled, `escaped` the bytes of that array.
pub record SendNode : Type 0 where
  pub n_slices : ℕ
  pub frm : List ℕ
  pub esc_len : ℕ
  pub escaped : List ℕ

-- `sse_t` without its lock; `ack_timeout` is `none` for -1.
pub record Sse : Type 0 where
  pub idle_timeout : ℕ
  pub ack_timeout : Option ℕ
  pub data_retry : ℕ
  pub ack_retry : ℕ
  pub is_waiting : Bool
  pub seq : ℕ
  pub pkt_list : List SendNode

-- `rse_t` without its lock.
pub record Rse : Type 0 where
  pub idle_timeout : ℕ
  pub bitmap : List ℕ
  pub seq_exp : ℕ
  pub n_slices : ℕ
  pub msglen : ℕ
  pub d_csum : ℕ
  pub buf : List ℕ
  pub completed : Bool
  pub nak : Bool

-- The globals of split.c: the sessions by their 8-bit key, and the two queues.
pub record Node : Type 0 where
  pub sse : ℕ → Option Sse
  pub rse : ℕ → Option Rse
  pub upper_recv_list : List (List ℕ)
  pub lower_send_list : List (List ℕ)

-- What a handler finds around it: one reading of `ts_msec()`, the bytes that an uninitialised array
-- on its stack or fresh from malloc holds, and the build's __MILO_INFO_LEVEL__.
pub record Env : Type 0 where
  pub now : ℕ
  pub stale : List ℕ
  pub info_level : ℕ

abbrev pub update {ℓ} : {A : Type ℓ} → (ℕ → A) → ℕ → A → ℕ → A
update f k v j = if j == k then v else f j

-- `len` of an `int` that is compared with a `size_t`: the difference of two `size_t`.
abbrev pub size_sub : ℕ → ℕ → ℕ
size_sub a b = (a + 2 ^ 64 - b) % 2 ^ 64

-- Writes `bytes` over `buf` from offset `i` on (`memcpy`); past the end it is a fault.
unfoldable pub write_bytes : List ℕ → ℕ → List ℕ → Option (List ℕ)
write_bytes buf i bytes =
    if ltb (length buf) (i + length bytes)
    then none
    else some (take i buf ++ (bytes ++ drop (i + length bytes) buf))

-- The first `n` bytes of an array; past the end it is a fault.
unfoldable pub read_bytes : List ℕ → ℕ → Option (List ℕ)
read_bytes buf n = if ltb (length buf) n then none else some (take n buf)

-- An uninitialised array after `bytes` have been stored from its start on.
abbrev pub array : List ℕ → List ℕ → List ℕ
array stale bytes = bytes ++ drop (length bytes) stale

-- The result of `en_frame` in a `u16 esc_len`: -1 becomes 65535.
abbrev pub ret_len : EnFrame → ℕ
ret_len r = if r.fits then length r.bytes else 65535

-- `fh->csum = 0xff; fh->csum = csum8(fh, sizeof *fh);`
abbrev pub frm_csum : FrmHdr → ℕ
frm_csum h = csum8 (frm_bytes (record h { csum = 0xff }))

-- `mh->csum = 0xff; mh->csum = csum8(mh, sizeof *mh + …);` with the bytes behind the header.
abbrev pub msg_csum : MsgHdr → List ℕ → ℕ
msg_csum h body = csum8 (msg_bytes (record h { csum = 0xff }) ++ body)

-- The bytes of a frame with both checksums filled in; `summed` are the bytes of the body that the
-- checksum of the message header covers.
abbrev pub frame_bytes : FrmHdr → MsgHdr → List ℕ → List ℕ → List ℕ
frame_bytes fh mh summed body =
    frm_bytes (record fh { csum = frm_csum fh })
    ++ (msg_bytes (record mh { csum = msg_csum mh summed }) ++ body)
