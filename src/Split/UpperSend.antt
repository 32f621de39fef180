-- ===== src/Split/UpperSend.antt =====
-- `upper_send` of split.c: the message is cut up, and slices are cut off until the frame fits.
pub mod Build
pub mod Inv
mod Tests
use ipcf.Common.{
  ℕ, zero, suc, ◌+◌, ◌-◌, ◌*◌, ◌/◌, Bool, true, false, ◌&&◌, ◌||◌, not, Option, none, some, List,
  [], ◌∷◌, ◌++◌, length, take, drop, get_or, ltb, leb, ◌==◌, if◌then◌else◌,
}
use ipcf.Common.Word.{u8, u16}
use ipcf.Split.Types.{
  link_mtu, slice_data_len, slice_len, idle_timeout_ms, ack_timeout_ms, max_retry_times,
  frm_hdr_len, msg_hdr_len, frm_msg_hdr_len, link_data_max, frame_type_data, frame_type_ackr,
  frame_type_patch, FrmHdr, read_frm, MsgHdr, read_msg, SendNode, Sse, Node, Env, update, size_sub,
  array, ret_len, msg_csum, frame_bytes, csum32, slice_bytes,
}
use ipcf.Split.Frame.{en_frame}
use ipcf.Split.Slice.{fill_slices}
use ipcf.Split.Slice.Layout.{all_bytes}
use ipcf.Split.Queue.{put_lower_send_list}
use ipcf.Split.Recv.{queue_frame}
use ipcf.Split.Send.{get_sse, create_sse, put_sse, try_lower_send}

-- The frame of the first `n_slices` slices, `frm` with its two headers filled in; the slices that
-- have been cut stay behind it.
abbrev pub data_frame : ℕ → ℕ → ℕ → List ℕ → ℕ → List ℕ → List ℕ
data_frame smac dmac seq part n_slices slices =
    let fh : FrmHdr = record {
      src = smac;
      dst = dmac;
      type = frame_type_data;
      reserved = 0;
      len = slice_len * n_slices + frm_msg_hdr_len;
      csum = 0;
    } in
    let mh : MsgHdr = record {
      d_csum = csum32 part;
      len = length part;
      len2 = length part;
      seq = seq;
      csum = 0;
    } in
    frame_bytes fh mh [] slices

-- A packet ready to be sent, and the length that `upper_send` returns.
pub record Built : Type 0 where
  pub snode : SendNode
  pub msglen : ℕ

-- The `do … while` of `upper_send`, on fuel: cut slices off the tail until the stuffed frame fits.
-- Then only the headers are put in `escaped`. `none` is the jump to `err_out`.
unfoldable pub build_loop : Env → ℕ → ℕ → ℕ → List ℕ → List ℕ → ℕ → ℕ → ℕ → Option Built
build_loop env smac dmac seq msg slices zero n_slices msglen = none
build_loop env smac dmac seq msg slices (suc fuel) n_slices msglen =
    let frm = data_frame smac dmac seq (take msglen msg) n_slices slices in
    let len = slice_len * n_slices + frm_msg_hdr_len in
    let whole = en_frame (take len frm) link_mtu in
    let head = en_frame (take frm_msg_hdr_len frm) link_mtu in
    let cut_slice = (len - whole.used + slice_data_len) / slice_data_len in
    let again =
      build_loop env smac dmac seq msg slices fuel (n_slices - cut_slice)
        (slice_data_len * (n_slices - cut_slice)) in
    if whole.fits
    then some (record {
      snode = record {
        n_slices = n_slices;
        frm = frm;
        esc_len = ret_len head;
        escaped = array (array env.stale whole.bytes) head.bytes;
      };
      msglen = msglen;
    })
    else if leb n_slices cut_slice
    then none
    else again

-- The end of `upper_send`, on a built packet.
unfoldable pub send_built : Env → ℕ → Sse → Node → Option Built → Option ℕ × Node
send_built env dmac se n none = (none, put_sse dmac se n)
send_built env dmac se n (some b) =
    let (se', n') = try_lower_send env (record se { pkt_list = se.pkt_list ++ (b.snode ∷ []) }) n in
    (some b.msglen, put_sse dmac se' n')

-- The list is the `msglen` bytes of the message. The result `none` stands for -1.
unfoldable pub upper_send : Env → ℕ → ℕ → List ℕ → Node → Option ℕ × Node
unfolding get_sse create_sse
upper_send env smac dmac msg n =
    let found : Sse = elim (get_sse env n dmac) [ none ↦ create_sse env | some se ↦ se ] in
    let se : Sse = record found { seq = u8 (found.seq + 1) } in
    let filled = fill_slices link_data_max msg in
    let built =
      build_loop env smac dmac found.seq msg (all_bytes filled.slices) (filled.n_slices + 1)
        filled.n_slices (length msg - filled.remain) in
    if leb (length msg) 0 then (none, n) else send_built env dmac se n built
