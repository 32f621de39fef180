-- ===== src/Program/Tests/Segments.antt =====
-- A connection of two programs: its first segment, its announcement and its second segment.
use ipcf.Common.{
  inl, inr, ℕ, ◌≡◌, refl, true, Bool, ltb, ◌&&◌, Option, none, some, List, [], ◌∷◌, ◌++◌, arith,
  take, drop, replicate, length, All,
}
use ipcf.Common.Word.{IsByte}
use ipcf.Csum.{csum_add16, csum_continue, csum_finish, csum}
use ipcf.Idpool.{ids_from, init_idpool, get_id}
use ipcf.Split.Types.{array, csum8, csum16, csum32}
use ipcf.Crc.{crc8, crc16, crc32c}
use ipcf.Split.Frame.{en_frame, stuff}
use ipcf.Split.Frame.Encode.{stuffed}
use ipcf.Split.Slice.{fill_slices}
use ipcf.Split.Queue.{put_lower_send_list}
use ipcf.Split.Send.{try_lower_send}
use ipcf.Split.UpperSend.{build_loop, send_built, upper_send}
use ipcf.Compact.Ipv4.{ip_bytes}
use ipcf.Compact.Types.{copy, fill_pkt, SFlow, RFlow, skey_same, rkey_same}
use ipcf.Compact.Encode.{
  is_raw, get_sflow_key, whole_pkt, build_ctl, build_ack, tcp_frame, tcp_info, tcp_kind, tcp_fields,
}
use ipcf.Compact.Decode.{finish_ip, next_id}
use ipcf.Compact.Table.Rows.{rows, rows-Laws}
use ipcf.Compact.Flows.{
  Flows, orig_hdr, new_sflow, new_rflow, compact_init, get_rflow_by_hash, find_rflow, find_sflow,
  get_sflow_by_hash, build_sflow_by_hash, build_rflow_by_hash,
}
use ipcf.Compact.Xmit.{
  can_compact, xmit_flow, make_flow, flow_of, xmit_compress, recv_control, recv_compress,
}
use ipcf.Compact.Inv.Events.{Event, sends, receives, event, events}
use ipcf.Compact.RoundTrip.Tcp.{IsTcp}
use ipcf.Program.{Program}
use ipcf.Program.Through.{deliver, Joined, IsTaken}
use ipcf.Program.Segment.{IsSegment, HasSent, HasReceived, sent_on, received_on, segment_lem}
use ipcf.Program.Stream.{Trip, IsPlain, deliver_all}
use ipcf.Program.Connection.{IsShortSegment, rebuilt, connection_lem}
use ipcf.Program.Tests.{env, sum, begin, begin-Joined, syn, syn-IsIntact, syn-can_compact}

abbrev hello : List ℕ
hello =
    69 ∷ 0 ∷ 0 ∷ 42 ∷ 0 ∷ 1 ∷ 0 ∷ 0 ∷ 64 ∷ 6 ∷ 102 ∷ 203 ∷ 10 ∷ 0 ∷ 0 ∷ 1 ∷ 10 ∷ 0 ∷ 0 ∷ 2 ∷ 0 ∷ 80
    ∷ 1 ∷ 187 ∷ 0 ∷ 0 ∷ 0 ∷ 9 ∷ 0 ∷ 0 ∷ 0 ∷ 7 ∷ 80 ∷ 24 ∷ 1 ∷ 0 ∷ 18 ∷ 52 ∷ 0 ∷ 0 ∷ 104 ∷ 105 ∷ []

abbrev again : List ℕ
again =
    69 ∷ 0 ∷ 0 ∷ 41 ∷ 0 ∷ 2 ∷ 0 ∷ 0 ∷ 64 ∷ 6 ∷ 102 ∷ 203 ∷ 10 ∷ 0 ∷ 0 ∷ 1 ∷ 10 ∷ 0 ∷ 0 ∷ 2 ∷ 0 ∷ 80
    ∷ 1 ∷ 187 ∷ 0 ∷ 0 ∷ 0 ∷ 11 ∷ 0 ∷ 0 ∷ 0 ∷ 8 ∷ 80 ∷ 24 ∷ 2 ∷ 0 ∷ 86 ∷ 120 ∷ 0 ∷ 0 ∷ 33 ∷ []

abbrev are_bytes : List ℕ → Bool
are_bytes [] = true
are_bytes (x ∷ xs) = ltb x 256 && are_bytes xs

are_bytes-IsByte : (xs : List ℕ) → are_bytes xs ≡ true → All IsByte xs
are_bytes-IsByte [] h = tt
are_bytes-IsByte (x ∷ xs) h = (ground (arith, h), are_bytes-IsByte xs (ground (arith, h)))

abbrev or_init : Option (Flows rows) → Flows rows
or_init none = compact_init rows
or_init (some c) = c

-- The sender: the first segment, and the acknowledgement of its flow.
abbrev history : List Event
history = sends env.compact hello ∷ receives env.compact (2 ∷ 1 ∷ 0 ∷ replicate 20 0) 3 ∷ []

abbrev met : Flows rows
met = or_init (events rows sum history (compact_init rows))

abbrev or_new : Option SFlow → SFlow
or_new none = new_sflow rows env.compact (get_sflow_key hello) hello 0
or_new (some n) = n

abbrev sent : SFlow
sent = or_new (met.sflow 0)

-- The receiver: the announcement.
abbrev announced : Flows rows
announced = or_init (
    event rows sum (receives env.compact (build_ctl sent) (length (build_ctl sent)))
      (compact_init rows))

abbrev or_other : Option RFlow → RFlow
or_other none = new_rflow rows env.compact (record { smac = 1; id = 0 }) []
or_other (some r) = r

abbrev received : RFlow
received = or_other (announced.rflow 0)

abbrev ippkt : List ℕ
ippkt = array env.stale again

abbrev or_nil : Option (List ℕ) → List ℕ
or_nil none = []
or_nil (some l) = l

abbrev frame : List ℕ
frame = or_nil (tcp_frame 0 ippkt)

abbrev sender : Program rows
sender = record begin { flows = met }

abbrev receiver : Program rows
receiver = record begin { flows = announced }

again-IsTcp : IsTcp ippkt 41
again-IsTcp = record {
  bytes = are_bytes-IsByte ippkt refl;
  tot_len = refl;
  at_least = omega arith;
  at_most = omega arith;
  room = omega arith;
  flags = refl;
}

again-IsSegment : IsSegment ippkt 41 sent received
unfolding events event xmit_compress flow_of make_flow get_sflow_by_hash find_sflow
    build_sflow_by_hash get_id init_idpool ids_from can_compact csum csum_continue csum_add16
    csum_finish xmit_flow skey_same get_sflow_key is_raw whole_pkt copy fill_pkt orig_hdr
    recv_compress recv_control get_rflow_by_hash find_rflow build_ctl build_ack build_rflow_by_hash
    rkey_same
again-IsSegment = record {
  is_tcp = again-IsTcp;
  compact = refl;
  unfragmented = refl;
  protocol = refl;
  key = refl;
  fields = record {
    source = refl;
    dest = refl;
    res1 = refl;
    doff = refl;
    ece = refl;
    cwr = refl;
    ack_seq = λ e. absurd (ground (arith, e));
    urg_ptr = λ e. refl;
  };
}

sender-HasSent : HasSent rows rows-Laws sum met sent
unfolding events event xmit_compress flow_of make_flow get_sflow_by_hash find_sflow
    build_sflow_by_hash get_id init_idpool ids_from can_compact csum csum_continue csum_add16
    csum_finish xmit_flow skey_same get_sflow_key is_raw whole_pkt copy fill_pkt orig_hdr
    recv_compress recv_control get_rflow_by_hash find_rflow
sender-HasSent = record {
  history = history;
  ran = refl;
  at = 0;
  known = refl;
  stored = refl;
  established = refl;
}

receiver-HasReceived : HasReceived rows rows-Laws sum announced sent.fid received
unfolding events event xmit_compress flow_of make_flow get_sflow_by_hash find_sflow
    build_sflow_by_hash get_id init_idpool ids_from can_compact csum csum_continue csum_add16
    csum_finish xmit_flow skey_same get_sflow_key is_raw whole_pkt copy fill_pkt orig_hdr
    recv_compress recv_control get_rflow_by_hash find_rflow build_ctl build_ack build_rflow_by_hash
    rkey_same
receiver-HasReceived = record { at = 0; found = refl; stored = refl }

frame-some : tcp_frame sent.fid ippkt ≡ some frame
unfolding events event xmit_compress flow_of make_flow get_sflow_by_hash find_sflow
    build_sflow_by_hash get_id init_idpool ids_from can_compact csum csum_continue csum_add16
    csum_finish xmit_flow skey_same get_sflow_key is_raw whole_pkt copy fill_pkt orig_hdr
    recv_compress recv_control get_rflow_by_hash find_rflow tcp_frame tcp_fields
frame-some = refl

frame-IsTaken : IsTaken rows sum env frame sender
unfolding tcp_frame tcp_info tcp_kind tcp_fields copy fill_pkt upper_send build_loop send_built
    try_lower_send fill_slices en_frame put_lower_send_list stuffed stuff csum8 csum16 csum32 crc8
    crc16 crc32c
frame-IsTaken = record {
  at_least = omega arith;
  at_most = omega arith;
  taken = refl;
  fits = omega arith;
}

both-Joined : Joined rows sum sender receiver
both-Joined = record { quiet = begin-Joined.quiet; none_up = refl }

segment_lem_example :
    (p' : Program rows) × (q' : Program rows) × (deliver rows sum env env env env env env again
        sender receiver
      ≡ some (
        record {
          sent = none;
          written =
              some (ip_bytes (finish_ip (next_id received).hdr.ip 41) ++ take 21 (drop 20 ippkt));
        },
        p',
        q',
      ))
    × Joined rows sum p' q'
    × HasSent rows rows-Laws sum p'.flows (sent_on env.compact sent)
    × HasReceived rows rows-Laws sum q'.flows sent.fid (received_on env.compact received)
segment_lem_example =
    segment_lem rows rows-Laws sum env env env env env env again frame 41 sender receiver sent
      received refl again-IsSegment sender-HasSent receiver-HasReceived frame-some both-Joined
      frame-IsTaken

abbrev trip : List ℕ → Trip
trip pkt = record { pkt = pkt; e0 = env; e1 = env; e2 = env; e3 = env; e4 = env; e5 = env }

-- The segment, a packet with an option, and the segment again.
abbrev trips : List Trip
trips = trip again ∷ trip syn ∷ trip again ∷ []

syn-IsPlain : IsPlain (trip syn)
syn-IsPlain = record { intact = syn-IsIntact; few = omega arith; plain = syn-can_compact }

again-IsShortSegment : IsShortSegment sent received (trip again)
again-IsShortSegment = record { full = refl; few = omega arith; segment = again-IsSegment }

connection_lem_example :
    (p' : Program rows) × (q' : Program rows) × (deliver_all rows sum trips sender receiver
      ≡ some (rebuilt received.hdr.ip trips, p', q'))
    × Joined rows sum p' q'
connection_lem_example =
    connection_lem rows rows-Laws sum trips sender receiver sent received
      (inr again-IsShortSegment, (inl syn-IsPlain, (inr again-IsShortSegment, tt))) both-Joined
      sender-HasSent receiver-HasReceived
