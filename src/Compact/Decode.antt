-- ===== src/Compact/Decode.antt =====
-- The packets that compact.c rebuilds from what it receives. A frame that is read is a buffer of
-- which `len` bytes have come; `none` is an access out of bounds.
use ipcf.Common.{
  ℕ, ◌+◌, ◌%◌, ◌^◌, Bool, ◌||◌, not, Option, some, List, ◌++◌, length, bit_and, bit_or, leb, ◌==◌,
  if◌then◌else◌,
}
use ipcf.Common.Fault.{◌>>=◌}
use ipcf.Common.Word.{get16, get32}
use ipcf.Csum.{csum}
use ipcf.Split.Types.{size_sub}
use ipcf.Compact.Ipv4.{
  swap16, frag_flag_mf_mask, frag_off_mask, ip_len, tcp_len, udp_len, IpHdr, read_ip, ip_bytes,
  TcpHdr, read_tcp, tcp_bytes, UdpHdr, read_udp, udp_bytes,
}
use ipcf.Compact.Types.{
  max_data_length, ctype_tcp_sbit, ctype_tcp_abit, ctype_tcp_wbit, ctype_tcp_sbmask, ctype_tcp_syn,
  ctype_tcp_fin, ctype_tcp_rst, ctype_tcp_psh, ctype_tcp_urgsyn, ctype_tcp_urgfin, ctype_tcp_urgpsh,
  ctype_raw_fbit, ctype_raw_mfbit, chdr_len, read_chdr, RFlow, copy, fill_pkt,
}

unfoldable pub recv_untouched_ip : List ℕ → Option (List ℕ)
recv_untouched_ip ippkt =
    let len = swap16 (read_ip ippkt 0).tot_len in
    do
      bytes ← copy ippkt 0 (if leb len max_data_length then len else max_data_length)
      fill_pkt bytes

-- The header of a flow with the length of the packet filled in, and its checksum.
unfoldable pub finish_ip : IpHdr → ℕ → IpHdr
finish_ip ip len =
    let sized : IpHdr = record ip { tot_len = swap16 len; check = 0 } in
    record sized { check = csum (ip_bytes sized) }

-- `rflow->hdr.ip.id = htons(ntohs(rflow->hdr.ip.id) + 1)`.
abbrev pub next_id : RFlow → RFlow
next_id rflow = record rflow {
  hdr = record rflow.hdr {
    ip = record rflow.hdr.ip { id = swap16 ((swap16 rflow.hdr.ip.id + 1) % 2 ^ 16) };
  };
}

-- A bit of `chdr->i` that says that a field is there.
abbrev pub has_bit : ℕ → ℕ → Bool
has_bit i mask = not (bit_and i mask == 0)

-- The TCP header of a frame, on top of that of the flow, and the offset behind its fields.
unfoldable pub recv_tcp_hdr : List ℕ → TcpHdr → TcpHdr × ℕ
recv_tcp_hdr cpkt flow =
    let i = (read_chdr cpkt).i in
    let kind = bit_and i ctype_tcp_sbmask in
    let has_seq = has_bit i ctype_tcp_sbit in
    let has_ack = has_bit i ctype_tcp_abit in
    let has_window = has_bit i ctype_tcp_wbit in
    let has_urg = kind == 0 || leb ctype_tcp_urgsyn kind in
    let at_ack = if has_seq then chdr_len + 4 else chdr_len in
    let at_window = if has_ack then at_ack + 4 else at_ack in
    let at_urg = if has_window then at_window + 2 else at_window in
    let at_check = if has_urg then at_urg + 2 else at_urg in
    (
      record flow {
        seq = if has_seq then get32 cpkt chdr_len else flow.seq;
        ack = has_ack;
        ack_seq = if has_ack then get32 cpkt at_ack else flow.ack_seq;
        window = if has_window then get16 cpkt at_window else flow.window;
        urg = has_urg;
        urg_ptr = if has_urg then get16 cpkt at_urg else flow.urg_ptr;
        check = get16 cpkt at_check;
        syn = kind == ctype_tcp_syn || kind == ctype_tcp_urgsyn;
        fin = kind == ctype_tcp_fin || kind == ctype_tcp_urgfin;
        psh = kind == ctype_tcp_psh || kind == ctype_tcp_urgpsh;
        rst = kind == ctype_tcp_rst;
      },
      at_check + 2,
    )

unfoldable pub recv_tcp : List ℕ → ℕ → RFlow → Option (List ℕ × RFlow)
recv_tcp cpkt len rflow =
    let flow = next_id rflow in
    let (tcp, offset) = recv_tcp_hdr cpkt (read_tcp rflow.hdr.t 0) in
    do
      payload ← copy cpkt offset (size_sub len offset)
      let size = ip_len + tcp_len + length payload
      pkt ← fill_pkt (ip_bytes (finish_ip flow.hdr.ip size) ++ (tcp_bytes tcp ++ payload))
      some (pkt, flow)

unfoldable pub recv_udp : List ℕ → ℕ → RFlow → Option (List ℕ × RFlow)
recv_udp cpkt len rflow =
    let flow = next_id rflow in
    let offset = chdr_len + 2 in
    do
      payload ← copy cpkt offset (size_sub len offset)
      let udp : UdpHdr = record (read_udp rflow.hdr.t 0) {
        check = get16 cpkt chdr_len;
        len = swap16 (length payload + udp_len);
      }
      let size = ip_len + udp_len + length payload
      pkt ← fill_pkt (ip_bytes (finish_ip flow.hdr.ip size) ++ (udp_bytes udp ++ payload))
      some (pkt, flow)

-- `iphdr->frag_off`, and the offset behind its field.
unfoldable pub recv_frag_off : List ℕ → ℕ × ℕ
recv_frag_off cpkt =
    let i = (read_chdr cpkt).i in
    let has_off = has_bit i ctype_raw_fbit in
    let off = if has_off then bit_and (swap16 (get16 cpkt chdr_len)) frag_off_mask else 0 in
    let flags = if has_bit i ctype_raw_mfbit then bit_or off frag_flag_mf_mask else off in
    (swap16 flags, if has_off then chdr_len + 2 else chdr_len)

unfoldable pub recv_raw : List ℕ → ℕ → RFlow → Option (List ℕ)
recv_raw cpkt len rflow =
    let (frag_off, offset) = recv_frag_off cpkt in
    let ip : IpHdr = record rflow.hdr.ip { frag_off = frag_off } in
    do
      rest ← copy cpkt offset (size_sub len offset)
      fill_pkt (ip_bytes (finish_ip ip (ip_len + length rest)) ++ rest)
