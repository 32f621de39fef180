-- ===== src/Lib.antt =====
-- ipcf sends IP packets over a slow link with small frames. This library models its split layer,
-- split.c with include/split.h, and the CRCs, lib/crc.c, that it rests on; and its header
-- compression, compact.c with include/compact.h and include/ipv4.h, with the pool of identifiers,
-- lib/idpool.c, and the Internet checksum, lib/csum.c, that it rests on; and the lock of
-- include/atomic.h that both use; and the program that joins them, test.c.
--
-- The parts. test.c moves packets between a tun device (tun.c), the split layer and a link (udp.c).
-- The split layer has four entry points for data and one for time: `upper_send` takes a message of
-- the upper layer, cuts it up into slices of 32 bytes and queues a DATA frame; `lower_fetch` gives
-- frames to the link; `lower_put` takes what the link brings; `upper_recv` hands messages up;
-- `proc_timer` runs the timers. A sender keeps a send session for each receiver, which works stop and
-- wait: the front packet is on its way until an ACKA frame comes for it. The receiver keeps a receive
-- session for each sender; it asks for missing slices by ACKP, gets them by PATCH, and is asked by
-- ACKR. Headers have an 8-bit checksum, slices a 16-bit one, messages a 32-bit one.
--
-- The header compression stands between the device and the split layer. `xmit_compress` finds the flow
-- of an IPv4 packet by its addresses and ports, or makes one with a free 8-bit identifier; a new flow
-- is announced by a control frame with its headers, and its packets go as they are until the other
-- side has acknowledged it, then as frames of 3 bytes, the fields that change, and the payload.
-- `recv_compress` keeps a flow for each announcement, and rebuilds packets from it and the frames.
-- `timer_event` removes the flows that were not used for 10 seconds.
--
-- The files.
--   Common        what the modules share: names, tests, lists, bits of a word, faults.
--   Crc           lib/crc.c: the tables, crc8, crc16, crc32c. Crc/Serial has the bit-serial register
--                 that they are compared with.
--   Csum          lib/csum.c: csum and its parts, recalc_csum16, recalc_csum32. Csum/Check has data with
--                 their own checksum.
--   Idpool        lib/idpool.c: init_idpool, get_id, release_id. Its children: Refine (the ring and the
--                 queue that it holds), Queue (runs).
--   Compact/Ipv4  include/ipv4.h: the headers and their bytes.
--   Compact/Types, Encode, Decode  include/compact.h and the parts of compact.c that make frames
--                 (build_ctl, build_ack, build_cpkt) and packets (recv_tcp, recv_udp, recv_raw).
--                 RoundTrip has what becomes of a packet that goes through both.
--   Compact/Table the interface of the hash table; Table/Rows a table that fulfils it.
--   Compact/Flows, Xmit  the flows of compact.c: the searches, build_sflow_by_hash,
--                 build_rflow_by_hash, timer_event; xmit_compress and recv_compress. Compact/Inv has
--                 their invariant: Make, Expire, Swept, Timers, Keeps (each operation), Keyed and Known (the
--                 search by key), Events and Safety (histories), Sends (what xmit_compress sends).
--                 Compact/Ids counts identifiers.
--   Compact/Link  two nodes: an announcement, its answer, and the frames after it.
--   Lock          include/atomic.h: _lock and _unlock, and threads that use them. Lock/Inv has the
--                 invariant of a schedule, Lock/Safety what follows from it.
--   Split/Frame   en_frame and de_frame, the byte stuffing of the link.
--   Split/Types   include/split.h: sizes, headers and slices and their bytes (little-endian, packed),
--                 the sessions, the two queues; csum8, csum16, csum32. Types/Memory has the laws of
--                 writing to an array, Types/Headers reads the headers back.
--   Split/Bitmap  set_bit, find_first_zero, test_all_bits_set.
--   Split/Slice   fill_slices, fill_slice_k, cp_slice_to_rse, patch_rse. Its children: Fill (cutting
--                 up), Layout (bytes), Patch and Reassemble (putting together).
--   Split/Queue   upper_recv, lower_fetch, the two functions that put data in the queues, and
--                 split_cleanup.
--   Split/Recv    receive sessions: proc_data, proc_patch, proc_ack_req, send_ack. Size and Room are
--                 about the arrays of the sessions.
--   Split/Send    send sessions: proc_ack_all, proc_ack_part, send_patch, send_ack_req,
--                 try_lower_send, proc_sse_ack_timeout. Send/Inv has the invariant of a session.
--   Split/UpperSend  upper_send.
--   Split/Node    split_init, proc_timer, lower_put; Node/Inv has the histories of a node, sequences of
--                 calls of the entry points; Same and Room are about the receive sessions after them.
--   Split/Link    two nodes and a link: `carry` takes a frame from one to the other.
--                 Start and Sent (what upper_send has queued), Wire (a frame on its way), Ask and
--                 Header (the receiver of the headers), Missing (what it asks for), Patch, Answer and
--                 Acked (the sender), Complete (the receiver of the slices), Legs and Exchange (the
--                 four frames of a message), Short and Stream (messages that are taken whole). Lost (the
--                 frames after a loss, and the timer), Retry and Silent (a request for an
--                 acknowledgement, and the answers to it), Resend and Rounds (the timer of the
--                 sender), Step (the numbers of both sides), After and Recover (each loss), Lossy
--                 (many messages).
--   Program       test.c: one round of the loops of recv_tun, recv_split, recv_udp, recv_unsplit and
--                 main as one step each, and runs of them in any order. Behaves and Steps (a run is
--                 a history of calls of both layers), Safety; Counts and Counters (of bytes); Deliver
--                 and Through (the way from one device to the other), Untouched and Packet (for a
--                 packet that is not compressed), Segment (for one that is), Stream and
--                 Connection (for many).
--
-- The model. The globals of split.c are the record `Node`; an operation takes the node and returns it.
-- `Env` is what an operation finds around it: one reading of ts_msec(), the bytes of an uninitialised
-- array, and the build's __MILO_INFO_LEVEL__. A session table is a function of the 8-bit key, an
-- intrusive list the list of its data. Numbers are natural; the code's conversions to u8 and u16 are
-- written out, and so is the difference of two size_t. An access outside of an array of a session, or
-- the head of an empty packet list, is a fault, `none`. Functions with several returns give their
-- results as records.
--
-- The globals of compact.c are the record `Flows`, with a heap of nodes: the tables and the index hold
-- addresses, and an address of no node is a fault, as is a copy past the end of a buffer of a packet
-- and a failed assertion. A buffer with a packet is a list of bytes; bytes behind it are read as 0. The
-- `Env` of compact.c has one reading of ts_msec() and the bytes of fresh memory. lib/hmap.c, a copy of
-- the hash map of Open vSwitch, is the parameter `Table`: tables that are made by its calls have
-- `nodes`, and `with_hash` lists those that were put in under a hash. `Laws` is what is relied on: a
-- table begins empty, has a node after it is put in and not after it is removed, and never twice.
-- `hash_bytes` of lib/hash.c is a parameter of which nothing is asked.
--
-- The state of the program is the record `Program`, with the state of both layers and the counters.
-- A step of it has what it finds around it (`Around`), the bytes that `tun_read` or `udp_recv` has
-- stored, and gives what `udp_send` and `tun_write` get. The threads are taken to run one round at a
-- time.
--
-- A thread that uses the lock is before, between or behind the atomic operation and the call of the
-- semaphore that `_lock` and `_unlock` consist of; a schedule says which thread moves next, and
-- `none` that it cannot. Semaphores are those of POSIX: sem_wait goes on when the value is not 0.
--
-- The losses. A frame of a message that is lost is one that `lose` takes from a queue and gives to
-- nobody. Between the frames the sender looks at the timer of its session by `sse_tick`, which is the
-- round of `proc_timer` for that session; the times of these looks are arguments. The sessions of
-- other peers, and the idle timers of the receiver, do not run in the meantime.
--
-- Fuel. The loop of `fill_slices` takes a byte each round and has the length of the message as fuel.
-- That of `find_first_zero` has one more than the rest of its range. The loop of `send_ack` that
-- lists the missing slices has 256, the values of its index. That of `upper_send` cuts at least one
-- slice off each round and has one more than the number of slices.
--
-- Not modelled. The places of the locks in split.c and compact.c, whose handlers are single steps;
-- cleanup_idpool, which frees the pool; what is counted and printed for debugging; allocation, which
-- exits on failure.
-- Outside of these files: lib/hmap.c, lib/list.c, lib/hash.c and lib/rand.c, which are copies of
-- another project's library, as are lib/poll-event.c and include/util.h; and the I/O of tun.c and
-- udp.c, which is input and output of the steps of the program, whose messages and pauses are left
-- out. lib/csum.c has the origin of lib/hmap.c, but is modelled, since the checksums of the rebuilt
-- headers are its.
pub mod Common
pub mod Crc
pub mod Csum
pub mod Idpool
pub mod Compact
pub mod Lock
pub mod Split
pub mod Program
