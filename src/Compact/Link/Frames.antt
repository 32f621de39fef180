-- ===== src/Compact/Link/Frames.antt =====
-- How `recv_compress` of compact.c tells the frames apart.
use ipcf.Common.{
  ℕ, ◌+◌, ◌-◌, ◌/◌, ◌≤◌, ◌<◌, ◌≡◌, ◌∙◌, refl, true, false, ◌||◌, not, Option, none, some, List,
  ◌++◌, take, drop, length, leb, get_or, arith, ◌==◌, length-append,
}
use ipcf.Common.Bits.{all_below, all_below-true}
use ipcf.Common.Word.{u16}
use ipcf.Compact.Ipv4.{ip_bytes, read_tcp}
use ipcf.Compact.Types.{my_mac, RKey, rkey_bytes, SFlow, RFlow, Env, timeout_at, state_established}
use ipcf.Compact.Encode.{build_ack, tcp_frame, tcp_info, tcp_fields}
use ipcf.Compact.Decode.{has_bit, next_id, finish_ip, recv_tcp}
use ipcf.Compact.Table.{Table}
use ipcf.Compact.Flows.{
  Flows, get_rflow_by_hash, get_rflow_key, put_sflow, put_rflow, build_rflow_by_hash,
}
use ipcf.Compact.Xmit.{recv_packet, recv_control, recv_compress}
use ipcf.Compact.RoundTrip.Flags.{read_info-tcp_info}
use ipcf.Compact.RoundTrip.Frames.{payload, length-payload, tcp_fr, tcp_frame_lem}
use ipcf.Compact.RoundTrip.Fields.{length-tcp_fields}
use ipcf.Compact.RoundTrip.Tcp.{IsTcp, HasFields, in_buffer, recv_tcp_lem}

module _ (T : Table) (hash_bytes : List ℕ → ℕ) (env : Env) (cpkt : List ℕ) (len : ℕ) (d : Flows T)
    (no_ip : (get_or cpkt 0 0 / 16 == 4) ≡ false) where
  abbrev key : RKey
  key = get_rflow_key T cpkt

  -- A frame of a packet, for a flow that is there.
  pub recv_compress-data :
      (p : ℕ) (r r' : RFlow) (pkt : List ℕ)
      → (get_or cpkt 0 0 / 64 == 0) ≡ false
      → get_rflow_by_hash T d (hash_bytes (rkey_bytes key)) key ≡ some (some p)
      → d.rflow p ≡ some r
      → recv_packet T hash_bytes cpkt (u16 len) (record r { soft_timeout = timeout_at env })
        ≡ some (pkt, r')
      → recv_compress T hash_bytes env cpkt len d ≡ some (some pkt, none, put_rflow T p r' d)
  unfolding recv_compress
  recv_compress-data p r r' pkt t found stored ran = rw (no_ip, found, t, stored, ran) refl

  -- The announcement of a flow that is not there.
  pub recv_compress-req :
      get_or cpkt 0 0 ≡ 1
      → get_rflow_by_hash T d (hash_bytes (rkey_bytes key)) key ≡ some none
      → recv_compress T hash_bytes env cpkt len d
        ≡ some (
          none,
          some (build_ack cpkt),
          (build_rflow_by_hash T env (hash_bytes (rkey_bytes key)) key cpkt d).1,
        )
  unfolding recv_compress recv_control
  recv_compress-req first unknown = rw (unknown, first) refl

  -- The acknowledgement of a flow.
  pub recv_compress-ack :
      (o : Option ℕ) (p : ℕ) (n : SFlow)
      → get_or cpkt 0 0 ≡ 2
      → get_rflow_by_hash T d (hash_bytes (rkey_bytes key)) key ≡ some o
      → d.sflow_rindex (get_or cpkt 2 0) ≡ some p
      → d.sflow p ≡ some n
      → recv_compress T hash_bytes env cpkt len d
        ≡ some (none, none, put_sflow T p (record n { state = state_established }) d)
  unfolding recv_compress recv_control
  recv_compress-ack o p n first searched index stored = rw (searched, first, index, stored) refl

-- A frame of a TCP segment does not begin like an IPv4 packet: CTYPE_TCP_SBIT is set.
sbit_table : all_below 64 (λ i. not (has_bit i 0x20) || leb 32 i) ≡ true
unfolding all_below
sbit_table = refl

tcp_info-from : (i : ℕ) → i < 64 → has_bit i 0x20 ≡ true → 32 ≤ i
tcp_info-from i small s =
    ground (arith, all_below-true (λ i. not (has_bit i 0x20) || leb 32 i) 64 sbit_table i small, s)

recv_packet-tcp :
    (T : Table) (hash_bytes : List ℕ → ℕ) (cpkt : List ℕ) (len : ℕ) (n : RFlow)
    → get_or cpkt 0 0 / 64 ≡ 1
    → recv_packet T hash_bytes cpkt len n ≡ recv_tcp cpkt len n
unfolding recv_packet
recv_packet-tcp T hash_bytes cpkt len n e = rw e refl

length-tcp_fr :
    (fid : ℕ) (ippkt : List ℕ) (tot : ℕ) → IsTcp ippkt tot → length (tcp_fr fid ippkt tot) < 65536
length-tcp_fr fid ippkt tot h =
    let b = in_buffer fid ippkt tot h in
    omega (
      arith,
      length-append (tcp_fields (read_tcp ippkt 20)) (payload ippkt tot 40),
      length-payload ippkt tot 40 b.at_least b.room,
      length-tcp_fields (read_tcp ippkt 20),
      b.at_most,
    )

-- A TCP segment of a flow that is known to both sides.
pub recv_compress-tcp_frame :
    (T : Table) (hash_bytes : List ℕ → ℕ) (env : Env) (fid : ℕ) (ippkt : List ℕ) (tot : ℕ)
    (d : Flows T) (p : ℕ) (r : RFlow)
    → IsTcp ippkt tot
    → get_rflow_by_hash T d
        (hash_bytes (rkey_bytes (record { smac = my_mac; id = fid })))
        (record { smac = my_mac; id = fid })
      ≡ some (some p)
    → d.rflow p ≡ some r
    → HasFields r ippkt
    → (fr : List ℕ) × (tcp_frame fid ippkt ≡ some fr)
      × ((rest : List ℕ)
          → recv_compress T hash_bytes env (fr ++ rest) (length fr) d
            ≡ some (
              some (ip_bytes (finish_ip (next_id r).hdr.ip tot) ++ take (tot - 20) (drop 20 ippkt)),
              none,
              put_rflow T p (next_id (record r { soft_timeout = timeout_at env })) d,
            ))
recv_compress-tcp_frame T hash_bytes env fid ippkt tot d p r is_tcp found stored h =
    let r1 : RFlow = record r { soft_timeout = timeout_at env } in
    let h1 : HasFields r1 ippkt = record {
      source = h.source;
      dest = h.dest;
      res1 = h.res1;
      doff = h.doff;
      ece = h.ece;
      cwr = h.cwr;
      ack_seq = h.ack_seq;
      urg_ptr = h.urg_ptr;
    } in
    let fr = tcp_fr fid ippkt tot in
    let (small, info) = read_info-tcp_info (read_tcp ippkt 20) is_tcp.flags in
    let large = tcp_info-from (tcp_info (read_tcp ippkt 20)) small (ground (arith, info)) in
    let no_ip : ((tcp_info (read_tcp ippkt 20) + 64) / 16 == 4) ≡ false =
      ground (arith, small, large) in
    let kind : (tcp_info (read_tcp ippkt 20) + 64) / 64 ≡ 1 = omega arith in
    let short : u16 (length fr) ≡ length fr = omega (arith, length-tcp_fr fid ippkt tot is_tcp) in
    (
      fr,
      tcp_frame_lem fid ippkt tot (in_buffer fid ippkt tot is_tcp),
      λ rest.
          recv_compress-data T hash_bytes env (fr ++ rest) (length fr) d no_ip p r (next_id r1) _
            (rw kind refl) found stored
            (recv_packet-tcp T hash_bytes (fr ++ rest) (u16 (length fr)) r1 kind
              ∙ rw short (recv_tcp_lem fid ippkt tot is_tcp rest r1 h1)),
    )
