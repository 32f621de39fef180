-- ===== src/Split/Send.antt =====
-- The sending side of split.c: send sessions, the handlers of the frames that a receiver sends
-- (ACKA and ACKP), and the acknowledgement timer.
pub mod Inv
use ipcf.Common.{
  ℕ, zero, suc, ◌+◌, ◌-◌, ◌*◌, ◌/◌, Bool, true, false, ◌&&◌, ◌||◌, not, Option, none, some, List,
  [], ◌∷◌, ◌++◌, length, take, drop, get_or, ltb, leb, ◌==◌, if◌then◌else◌,
}
use ipcf.Common.Word.{u8, u16}
use ipcf.Split.Types.{
  link_mtu, slice_data_len, slice_len, idle_timeout_ms, ack_timeout_ms, max_retry_times,
  frm_hdr_len, msg_hdr_len, frm_msg_hdr_len, link_data_max, frame_type_data, frame_type_ackr,
  frame_type_patch, FrmHdr, read_frm, MsgHdr, read_msg, SendNode, Sse, Node, Env, update, size_sub,
  array, ret_len, msg_csum, frame_bytes, csum32, slice_bytes,
}
use ipcf.Split.Frame.{en_frame}
use ipcf.Split.Slice.{fill_slices}
use ipcf.Split.Slice.Layout.{all_bytes}
use ipcf.Split.Queue.{put_lower_send_list}
use ipcf.Split.Recv.{queue_frame}

unfoldable pub get_sse : Env → Node → ℕ → Option Sse
get_sse env n mac = elim (n.sse mac) [
  | none ↦ none
  | some se ↦ some (record se { idle_timeout = env.now + idle_timeout_ms })
]

unfoldable pub create_sse : Env → Sse
create_sse env = record {
  idle_timeout = env.now + idle_timeout_ms;
  ack_timeout = none;
  data_retry = 0;
  ack_retry = 0;
  is_waiting = false;
  seq = 0;
  pkt_list = [];
}

abbrev pub put_sse : ℕ → Sse → Node → Node
put_sse mac se n = record n { sse = update n.sse mac (some se) }

-- Sends the first packet of the list, if none is on its way.
unfoldable pub try_lower_send : Env → Sse → Node → Sse × Node
try_lower_send env se n = elim se.pkt_list [
  | [] ↦ (se, n)
  | pkt ∷ rest ↦
      if not se.is_waiting
      then (
        record se { ack_timeout = some (env.now + ack_timeout_ms); is_waiting = true },
        put_lower_send_list pkt.escaped pkt.esc_len n,
      )
      else (se, n)
]

-- The front packet of a session is what an acknowledgement speaks of: its addresses, swapped, and
-- its sequence number.
abbrev pub addresses_match : FrmHdr → SendNode → Bool
addresses_match fh pkt = let fh' = read_frm pkt.frm in fh'.src == fh.dst && fh'.dst == fh.src

-- What `proc_ack_all` does with a session, by its list of packets.
unfoldable pub ack_all_session : Env → FrmHdr → MsgHdr → Sse → Node → List SendNode → Node
ack_all_session env fh mh se n [] = put_sse fh.src se n
ack_all_session env fh mh se n (pkt ∷ rest) =
    let popped : Sse = record se {
      pkt_list = rest;
      is_waiting = false;
      ack_timeout = none;
      data_retry = 0;
      ack_retry = 0;
    } in
    let (se', n') = try_lower_send env popped n in
    if not (addresses_match fh pkt)
    then put_sse fh.src se n
    else if (read_msg pkt.frm).seq == mh.seq
    then put_sse fh.src se' n'
    else put_sse fh.src se n

unfoldable pub proc_ack_all : Env → List ℕ → Node → Node
unfolding get_sse
proc_ack_all env buf n =
    let fh = read_frm buf in
    let mh = read_msg buf in
    let acked : Node = elim (get_sse env n fh.src) [
      | none ↦ n
      | some se ↦ ack_all_session env fh mh se n se.pkt_list
    ] in
    if ltb (size_sub (length buf) frm_hdr_len) msg_hdr_len
    then n
    else if not (mh.csum == msg_csum mh [])
    then n
    else acked

-- The slots of a patch frame from slot `i` on: slice `d` of the packet, or, where the packet has no
-- slice `d`, what the array held before. The number counts the slices.
unfoldable pub patch_slots : Env → SendNode → ℕ → List ℕ → List ℕ × ℕ
patch_slots env snode i [] = ([], 0)
patch_slots env snode i (d ∷ ds) =
    let (rest, count) = patch_slots env snode (i + 1) ds in
    let at = frm_msg_hdr_len + slice_len * i in
    if ltb at (link_mtu - slice_len)
    then (if ltb d snode.n_slices
        then (take slice_len (drop (frm_msg_hdr_len + slice_len * d) snode.frm) ++ rest, count + 1)
        else (take slice_len (drop at env.stale) ++ rest, count))
    else ([], 0)

-- `data` are the sequence numbers that the receiver misses.
unfoldable pub send_patch : Env → SendNode → List ℕ → Node → Node
send_patch env snode missing n =
    let (slots, count) = patch_slots env snode 0 missing in
    let fh = read_frm snode.frm in
    let mh = read_msg snode.frm in
    let fh' : FrmHdr = record {
      src = fh.src;
      dst = fh.dst;
      type = frame_type_patch;
      reserved = 0;
      len = frm_msg_hdr_len + slice_len * count;
      csum = 0;
    } in
    let mh' : MsgHdr = record {
      d_csum = 0xffffffff;
      len = count;
      len2 = count;
      seq = mh.seq;
      csum = 0;
    } in
    if count == 0
    then n
    else queue_frame env (frame_bytes fh' mh' [] (take (slice_len * count) slots)) n

-- What `proc_ack_part` does with a session, by its list of packets.
unfoldable pub ack_part_session : Env → FrmHdr → MsgHdr → List ℕ → Sse → Node → List SendNode → Node
ack_part_session env fh mh missing se n [] = put_sse fh.src se n
ack_part_session env fh mh missing se n (pkt ∷ rest) =
    let se' : Sse = record se { ack_timeout = some (env.now + ack_timeout_ms); ack_retry = 0 } in
    if not (addresses_match fh pkt)
    then put_sse fh.src se n
    else if not ((read_msg pkt.frm).seq == mh.seq)
    then put_sse fh.src se n
    else send_patch env pkt missing (put_sse fh.src se' n)

unfoldable pub proc_ack_part : Env → List ℕ → Node → Node
unfolding get_sse
proc_ack_part env buf n =
    let fh = read_frm buf in
    let mh = read_msg buf in
    let missing = take mh.len (drop frm_msg_hdr_len buf) in
    let patched : Node = elim (get_sse env n fh.src) [
      | none ↦ n
      | some se ↦ ack_part_session env fh mh missing se n se.pkt_list
    ] in
    if ltb (size_sub (length buf) frm_hdr_len) (msg_hdr_len + 1)
    then n
    else if not (mh.len == size_sub (length buf) frm_msg_hdr_len)
    then n
    else if not (mh.csum == msg_csum mh missing)
    then n
    else if ltb (size_sub (length buf) frm_msg_hdr_len) mh.len
    then n
    else patched

-- `reserved` is not set: it is what the array held.
unfoldable pub send_ack_req : Env → ℕ → ℕ → Sse → Node → Node
unfolding queue_frame
send_ack_req env dst src se n =
    let fh : FrmHdr = record {
      src = src;
      dst = dst;
      type = frame_type_ackr;
      reserved = get_or env.stale 3 0;
      len = frm_msg_hdr_len;
      csum = 0;
    } in
    let mh : MsgHdr = record {
      d_csum = 0xffffffff;
      len = 0;
      len2 = 0;
      seq = u8 (se.seq + 255);
      csum = 0;
    } in
    queue_frame env (frame_bytes fh mh [] []) n

-- A timeout of a session, by its list of packets. With an empty one the list's head would be read
-- as a packet: a fault.
unfoldable pub timeout_session : Env → Sse → Node → List SendNode → Option (Sse × Node)
unfolding send_ack_req try_lower_send
timeout_session env se n [] = none
timeout_session env se n (pkt ∷ rest) =
    let fh = read_frm pkt.frm in
    let asked : Sse = record se {
      idle_timeout = env.now + idle_timeout_ms;
      ack_retry = se.ack_retry + 1;
    } in
    let again : Sse = record asked {
      ack_retry = 0;
      data_retry = se.data_retry + 1;
      is_waiting = false;
    } in
    let dropped : Sse = record again { pkt_list = rest; ack_timeout = none; data_retry = 0 } in
    if leb (se.ack_retry + 1) max_retry_times
    then some (asked, send_ack_req env fh.dst fh.src asked n)
    else if ltb max_retry_times (se.data_retry + 1)
    then some (try_lower_send env dropped n)
    else some (try_lower_send env again n)

unfoldable pub proc_sse_ack_timeout : Env → Sse → Node → Option (Sse × Node)
unfolding timeout_session
proc_sse_ack_timeout env se n = timeout_session env se n se.pkt_list
