-- ===== src/Compact/Encode.antt =====
-- The frames that compact.c sends: the announcement of a flow, its acknowledgement, and a packet
-- with its headers compressed. A packet that is read is a buffer; `none` is an access out of
-- bounds.
use ipcf.Common.{
  ℕ, ◌+◌, ◌/◌, ◌%◌, Bool, ◌&&◌, ◌||◌, not, Option, none, some, List, [], ◌++◌, get_or, take,
  bit_and, bit_or, ◌==◌, if◌then◌else◌,
}
use ipcf.Common.Fault.{◌>>=◌}
use ipcf.Common.Word.{le16, le32}
use ipcf.Split.Types.{size_sub}
use ipcf.Compact.Ipv4.{
  swap16, frag_flag_mf_mask, frag_off_mask, protocol_tcp, protocol_udp, ip_len, tcp_len, udp_len,
  IpHdr, read_ip, ip_bytes, TcpHdr, read_tcp, read_udp,
}
use ipcf.Compact.Types.{
  my_mac, ctype_frm_ctl, ctype_frm_tcp, ctype_frm_udp, ctype_frm_raw, ctype_ctl_req, ctype_ctl_ack,
  ctype_tcp_sbit, ctype_tcp_abit, ctype_tcp_wbit, ctype_tcp_urg, ctype_tcp_syn, ctype_tcp_fin,
  ctype_tcp_rst, ctype_tcp_psh, ctype_tcp_urgsyn, ctype_tcp_urgfin, ctype_tcp_urgpsh,
  ctype_raw_fbit, ctype_raw_mfbit, SKey, CHdr, read_chdr, chdr_bytes, SFlow, Env, copy, fill_pkt,
}

-- A fragment, or a packet of another protocol, is known by its id; others by their ports.
unfoldable pub is_raw : IpHdr → Bool
is_raw ip =
    not (bit_and (swap16 ip.frag_off) frag_flag_mf_mask == 0)
    || (not (bit_and (swap16 ip.frag_off) frag_off_mask == 0)
        || (not (ip.protocol == protocol_tcp) && not (ip.protocol == protocol_udp)))

unfoldable pub get_sflow_key : List ℕ → SKey
get_sflow_key ippkt =
    let ip = read_ip ippkt 0 in
    let tcp = read_tcp ippkt ip_len in
    let udp = read_udp ippkt ip_len in
    let k : SKey = record {
      saddr = ip.saddr;
      daddr = ip.daddr;
      ipid = 0;
      proto = ip.protocol;
      resv = 0;
      sport = 0;
      dport = 0;
    } in
    if is_raw ip
    then record k { ipid = ip.id }
    else if ip.protocol == protocol_tcp
    then record k { sport = tcp.source; dport = tcp.dest }
    else record k { sport = udp.source; dport = udp.dest }

-- A packet as it is.
unfoldable pub whole_pkt : List ℕ → ℕ → Option (List ℕ)
whole_pkt buf len = do bytes ← copy buf 0 len; fill_pkt bytes

unfoldable pub build_ctl : SFlow → List ℕ
build_ctl sflow =
    let h : CHdr = record { i = ctype_ctl_req; t = ctype_frm_ctl; smac = my_mac; id = sflow.fid } in
    chdr_bytes h
    ++ (ip_bytes sflow.hdr.ip
        ++ (if sflow.hdr.ip.protocol == protocol_tcp
            then take tcp_len sflow.hdr.t
            else if sflow.hdr.ip.protocol == protocol_udp
            then take udp_len sflow.hdr.t
            else []))

unfoldable pub build_ack : List ℕ → List ℕ
build_ack cpkt =
    let h = read_chdr cpkt in
    chdr_bytes (record { i = ctype_ctl_ack; t = ctype_frm_ctl; smac = h.smac; id = h.id })

-- The fragment with the offset's field, where there is one.
unfoldable pub raw_frame : ℕ → List ℕ → Option (List ℕ)
raw_frame fid ippkt =
    let ip = read_ip ippkt 0 in
    let off = bit_and (swap16 ip.frag_off) frag_off_mask in
    let mf =
      if not (bit_and (swap16 ip.frag_off) frag_flag_mf_mask == 0) then ctype_raw_mfbit else 0 in
    let f = if not (off == 0) then ctype_raw_fbit else 0 in
    let h : CHdr = record { i = bit_or mf f; t = ctype_frm_raw; smac = my_mac; id = fid } in
    do
      rest ← copy ippkt ip_len (size_sub (swap16 ip.tot_len) ip_len)
      fill_pkt (chdr_bytes h ++ ((if not (off == 0) then le16 (swap16 off) else []) ++ rest))

-- `chdr->i` of a TCP frame. A segment with none of the flags keeps the 0 of CTYPE_TCP_URG.
unfoldable pub tcp_kind : TcpHdr → ℕ
tcp_kind tcp =
    if tcp.urg
    then (if tcp.syn
        then ctype_tcp_urgsyn
        else if tcp.fin
        then ctype_tcp_urgfin
        else if tcp.psh
        then ctype_tcp_urgpsh
        else ctype_tcp_urg)
    else if tcp.syn
    then ctype_tcp_syn
    else if tcp.fin
    then ctype_tcp_fin
    else if tcp.psh
    then ctype_tcp_psh
    else if tcp.rst
    then ctype_tcp_rst
    else 0

unfoldable pub tcp_info : TcpHdr → ℕ
unfolding tcp_kind
tcp_info tcp =
    bit_or (bit_or (bit_or (tcp_kind tcp) ctype_tcp_sbit) (if tcp.ack then ctype_tcp_abit else 0))
      ctype_tcp_wbit

-- The fields of a TCP header that a frame carries.
unfoldable pub tcp_fields : TcpHdr → List ℕ
tcp_fields tcp =
    le32 tcp.seq
    ++ ((if tcp.ack then le32 tcp.ack_seq else [])
        ++ (le16 tcp.window ++ ((if tcp.urg then le16 tcp.urg_ptr else []) ++ le16 tcp.check)))

unfoldable pub tcp_frame : ℕ → List ℕ → Option (List ℕ)
tcp_frame fid ippkt =
    let ip = read_ip ippkt 0 in
    let tcp = read_tcp ippkt ip_len in
    let h : CHdr = record { i = tcp_info tcp; t = ctype_frm_tcp; smac = my_mac; id = fid } in
    do
      payload ←
          copy ippkt (ip_len + tcp_len) (size_sub (size_sub (swap16 ip.tot_len) ip_len) tcp_len)
      fill_pkt (chdr_bytes h ++ (tcp_fields tcp ++ payload))

unfoldable pub udp_frame : ℕ → List ℕ → Option (List ℕ)
udp_frame fid ippkt =
    let ip = read_ip ippkt 0 in
    let udp = read_udp ippkt ip_len in
    let h : CHdr = record { i = 0; t = ctype_frm_udp; smac = my_mac; id = fid } in
    do
      payload ←
          copy ippkt (ip_len + udp_len) (size_sub (size_sub (swap16 ip.tot_len) ip_len) udp_len)
      fill_pkt (chdr_bytes h ++ (le16 udp.check ++ payload))

-- The frame that is put in the list of packets. The branch for raw packets puts the same node in
-- twice: a fault. A packet of no known protocol and id 0 is a header whose `t` is left as it was.
unfoldable pub build_cpkt : Env → SFlow → List ℕ → Option (List ℕ)
build_cpkt env sflow ippkt =
    let ip = read_ip ippkt 0 in
    let stale_t = get_or env.stale 0 0 / 64 % 4 in
    if not (sflow.skey.ipid == 0)
    then (raw_frame sflow.fid ippkt >>= λ _. none)
    else if ip.protocol == protocol_tcp
    then tcp_frame sflow.fid ippkt
    else if ip.protocol == protocol_udp
    then udp_frame sflow.fid ippkt
    else some (chdr_bytes (record { i = 0; t = stale_t; smac = my_mac; id = sflow.fid }))
