-- ===== src/Split/Node/Tests.antt =====
-- One message from one node to another, frame by frame, and a run of the timer.
use ipcf.Common.{ℕ, ◌≡◌, refl, Option, some, List, [], ◌∷◌, replicate}
use ipcf.Common.Fault.{◌>>=◌}
use ipcf.Split.Types.{Node, Env, csum8, csum16, csum32, write_bytes, read_bytes}
use ipcf.Crc.{crc8, crc16, crc32c}
use ipcf.Split.Frame.{en_frame, de_frame}
use ipcf.Split.Bitmap.{set_bit, find_first_zero, test_all_bits_set}
use ipcf.Split.Slice.{fill_slices, cp_slice_to_rse, patch_rse, read_slices}
use ipcf.Split.Queue.{put_lower_send_list, put_upper_recv_list}
use ipcf.Split.Send.{
  patch_slots, send_patch, ack_all_session, ack_part_session, proc_ack_all, proc_ack_part,
  try_lower_send,
}
use ipcf.Split.UpperSend.{build_loop, send_built, upper_send}
use ipcf.Split.Recv.{missing_loop, send_ack, submit, proc_data, data_done, proc_patch, patch_done}
use ipcf.Split.Send.Inv.{AllInStep}
use ipcf.Split.Node.Inv.{Call, sends, receives, fetches, call, calls, calls-safe}
use ipcf.Split.Node.Timer.{Survives}
use ipcf.Split.Queue.{upper_recv, lower_fetch, get_urq_num, get_lsq_num, split_cleanup}
use ipcf.Split.Node.{split_init, lower_put, proc_timer}

abbrev env : Env
env = record { now = 5; stale = replicate 1000 0; info_level = 1 }

abbrev first : List (List ℕ) → List ℕ
first [] = []
first (x ∷ xs) = x

-- The frame that a node has queued, and the node without it.
abbrev fetch : Node → List ℕ × Node
fetch n = (first n.lower_send_list, record n { lower_send_list = [] })

abbrev put : Node → List ℕ → Option Node
put n frame = lower_put env frame n >>= λ (r, n'). some n'

-- Node 1 sends; node 2 gets the headers, asks for the slices, gets them, and acknowledges.
abbrev exchange : List ℕ → Option (Node × Node)
exchange msg =
    let (r, a) = upper_send env 1 2 msg split_init in
    let (head, a) = fetch a in
    put split_init head >>= λ b.
    let (ask, b) = fetch b in
    put a ask >>= λ a.
    let (patch, a) = fetch a in
    put b patch >>= λ b. let (ack, b) = fetch b in put a ack >>= λ a. some (a, b)

-- What node 2 has handed up, and what node 1 still has to send.
delivered : List ℕ → Option (List (List ℕ) × List (List ℕ))
unfolding upper_send build_loop send_built try_lower_send lower_put proc_data proc_patch
    proc_ack_all proc_ack_part de_frame en_frame fill_slices csum8 csum16 csum32 crc8 crc16 crc32c
    put_lower_send_list put_upper_recv_list patch_rse read_slices test_all_bits_set find_first_zero
    cp_slice_to_rse write_bytes read_bytes set_bit missing_loop send_ack submit data_done patch_done
    patch_slots send_patch ack_all_session ack_part_session
delivered msg = exchange msg >>= λ (a, b). some (b.upper_recv_list, a.lower_send_list)

-- The message is handed up once, and the sender has nothing left to send.
exchange_delivers :
    delivered (0xc0 ∷ 7 ∷ 0xdb ∷ 9 ∷ []) ≡ some ((0xc0 ∷ 7 ∷ 0xdb ∷ 9 ∷ []) ∷ [], [])
unfolding delivered
exchange_delivers = refl

-- Two messages for one receiver, of which the first one's headers are taken from the queue.
abbrev history : List Call
history = sends env 1 2 (7 ∷ []) ∷ fetches 1000 ∷ sends env 1 2 (8 ∷ 9 ∷ []) ∷ receives 100 ∷ []

abbrev after : Node
after =
    (upper_recv
      (upper_send env 1 2 (8 ∷ 9 ∷ [])
        (lower_fetch (upper_send env 1 2 (7 ∷ []) split_init).1 1000).1).1
      100).1

history-after : calls history split_init ≡ some after
unfolding calls call
history-after = refl

-- When both timers of the session are due.
abbrev late : Env
late = record { now = 20000; stale = replicate 1000 0; info_level = 1 }

calls-safe_example : AllInStep after × Survives (proc_timer late after)
calls-safe_example = calls-safe history after late history-after

-- A node with a message for its upper layer and a frame for its peer, and what the cleanup leaves.
abbrev full : Node
full = record split_init { upper_recv_list = (7 ∷ []) ∷ []; lower_send_list = (8 ∷ []) ∷ [] }

cleanup_counts : (get_urq_num full ≡ 1) × (get_lsq_num full ≡ 1) × (split_cleanup full ≡ split_init)
unfolding get_urq_num get_lsq_num split_cleanup
cleanup_counts = (refl, refl, refl)
