-- ===== src/Compact/Tests.antt =====
-- Packets for the examples of the header compression.
mod Frames
mod History
use ipcf.Common.{
  ℕ, ◌+◌, ◌-◌, ◌≡◌, ◌<◌, ◌⊎◌, Bool, ◌&&◌, ltb, refl, true, false, Option, none, some, List, [], ◌∷◌,
  ◌++◌, arith, take, drop, replicate, All, length,
}
use ipcf.Common.Word.{IsByte}
use ipcf.Csum.{csum_add16, csum_continue, csum_finish, csum}
use ipcf.Idpool.{ids_from, init_idpool, get_id}
use ipcf.Idpool.Refine.{Holds}
use ipcf.Compact.Ipv4.{ip_bytes, read_ip, read_tcp}
use ipcf.Compact.Types.{copy, fill_pkt, state_established, SFlow, RFlow, Env, is_live, skey_same}
use ipcf.Compact.Encode.{is_raw, get_sflow_key, whole_pkt, build_ctl, udp_frame, tcp_frame}
use ipcf.Compact.Decode.{finish_ip, next_id, recv_udp, recv_tcp}
use ipcf.Compact.Table.{has, Distinct}
use ipcf.Compact.Table.Rows.{rows, rows-Laws}
use ipcf.Compact.Flows.{
  Flows, orig_hdr, new_sflow, compact_init, timer_event, put_sflow, get_rflow_by_hash, find_rflow,
  find_sflow, get_sflow_by_hash, build_sflow_by_hash,
}
use ipcf.Compact.Xmit.{can_compact, xmit_flow, make_flow, flow_of, xmit_compress, recv_compress}
use ipcf.Compact.RoundTrip.Udp.{IsUdp, recv_udp-udp_frame}
use ipcf.Compact.RoundTrip.Tcp.{IsTcp, recv_tcp-tcp_frame}
use ipcf.Compact.Inv.Events.{Event, sends, event, events, init-Inv, events-Inv}
use ipcf.Compact.Inv.Sends.{IsWhole}
use ipcf.Compact.Inv.Safety.{fids-differ, ids-kept, timer-sweeps, send-Fate}
use ipcf.Compact.Link.Connection.{Announced, SameFlow, next_ip, connection}

-- Two segments of a connection, and a packet of UDP.
abbrev pub hello : List ℕ
hello =
    69 ∷ 0 ∷ 0 ∷ 42 ∷ 0 ∷ 1 ∷ 0 ∷ 0 ∷ 64 ∷ 6 ∷ 102 ∷ 203 ∷ 10 ∷ 0 ∷ 0 ∷ 1 ∷ 10 ∷ 0 ∷ 0 ∷ 2 ∷ 0 ∷ 80
    ∷ 1 ∷ 187 ∷ 0 ∷ 0 ∷ 0 ∷ 9 ∷ 0 ∷ 0 ∷ 0 ∷ 7 ∷ 80 ∷ 24 ∷ 1 ∷ 0 ∷ 18 ∷ 52 ∷ 0 ∷ 0 ∷ 104 ∷ 105 ∷ []

abbrev pub again : List ℕ
again =
    69 ∷ 0 ∷ 0 ∷ 41 ∷ 0 ∷ 2 ∷ 0 ∷ 0 ∷ 64 ∷ 6 ∷ 102 ∷ 203 ∷ 10 ∷ 0 ∷ 0 ∷ 1 ∷ 10 ∷ 0 ∷ 0 ∷ 2 ∷ 0 ∷ 80
    ∷ 1 ∷ 187 ∷ 0 ∷ 0 ∷ 0 ∷ 11 ∷ 0 ∷ 0 ∷ 0 ∷ 8 ∷ 80 ∷ 24 ∷ 2 ∷ 0 ∷ 86 ∷ 120 ∷ 0 ∷ 0 ∷ 33 ∷ []

abbrev pub query : List ℕ
query =
    69 ∷ 0 ∷ 0 ∷ 30 ∷ 0 ∷ 3 ∷ 0 ∷ 0 ∷ 64 ∷ 17 ∷ 102 ∷ 202 ∷ 10 ∷ 0 ∷ 0 ∷ 1 ∷ 10 ∷ 0 ∷ 0 ∷ 2 ∷ 0 ∷ 53
    ∷ 4 ∷ 210 ∷ 0 ∷ 10 ∷ 154 ∷ 188 ∷ 1 ∷ 2 ∷ []

abbrev pub are_bytes : List ℕ → Bool
are_bytes [] = true
are_bytes (x ∷ xs) = ltb x 256 && are_bytes xs

pub are_bytes-IsByte : (xs : List ℕ) → are_bytes xs ≡ true → All IsByte xs
are_bytes-IsByte [] h = tt
are_bytes-IsByte (x ∷ xs) h = (ground (arith, h), are_bytes-IsByte xs (ground (arith, h)))
