-- ===== src/Compact/Tests/Frames.antt =====
-- A query and a segment, through their frames.
use ipcf.Common.{ℕ, ◌≡◌, refl, some, List, ◌++◌, arith, take, drop, length}
use ipcf.Compact.Ipv4.{ip_bytes, read_ip}
use ipcf.Compact.Types.{RFlow}
use ipcf.Compact.Encode.{udp_frame, tcp_frame}
use ipcf.Compact.Decode.{finish_ip, next_id, recv_udp, recv_tcp}
use ipcf.Compact.RoundTrip.Udp.{IsUdp, recv_udp-udp_frame}
use ipcf.Compact.RoundTrip.Tcp.{IsTcp, recv_tcp-tcp_frame}
use ipcf.Compact.Tests.{hello, again, query, are_bytes-IsByte}

-- The node of a query on the other side.
abbrev query_flow : RFlow
query_flow = record {
  rkey = record { smac = 1; id = 1 };
  hdr = record { ip = read_ip query 0; t = take 8 (drop 20 query) };
  fid = 1;
  soft_timeout = 0;
}

query-IsUdp : IsUdp query 30
query-IsUdp = record {
  bytes = are_bytes-IsByte query refl;
  tot_len = refl;
  at_least = omega arith;
  at_most = omega arith;
  room = omega arith;
  udp_len = refl;
}

recv_udp-udp_frame_example :
    (fr : List ℕ) × (udp_frame 1 query ≡ some fr)
    × ((rest : List ℕ)
        → recv_udp (fr ++ rest) (length fr) query_flow
          ≡ some (
            ip_bytes (finish_ip (next_id query_flow).hdr.ip 30) ++ take 10 (drop 20 query),
            next_id query_flow,
          ))
recv_udp-udp_frame_example =
    recv_udp-udp_frame 1 query 30 query-IsUdp query_flow (record { source = refl; dest = refl })

again-IsTcp : IsTcp again 41
again-IsTcp = record {
  bytes = are_bytes-IsByte again refl;
  tot_len = refl;
  at_least = omega arith;
  at_most = omega arith;
  room = omega arith;
  flags = refl;
}

abbrev greeting_flow : RFlow
greeting_flow = record {
  rkey = record { smac = 1; id = 0 };
  hdr = record { ip = read_ip hello 0; t = take 20 (drop 20 hello) };
  fid = 0;
  soft_timeout = 0;
}

recv_tcp-tcp_frame_example :
    (fr : List ℕ) × (tcp_frame 0 again ≡ some fr)
    × ((rest : List ℕ)
        → recv_tcp (fr ++ rest) (length fr) greeting_flow
          ≡ some (
            ip_bytes (finish_ip (next_id greeting_flow).hdr.ip 41) ++ take 21 (drop 20 again),
            next_id greeting_flow,
          ))
recv_tcp-tcp_frame_example = recv_tcp-tcp_frame 0 again 41 again-IsTcp greeting_flow (record {
  source = refl;
  dest = refl;
  res1 = refl;
  doff = refl;
  ece = refl;
  cwr = refl;
  ack_seq = λ e. absurd (ground (arith, e));
  urg_ptr = λ e. refl;
})
