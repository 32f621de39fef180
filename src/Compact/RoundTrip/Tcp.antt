-- ===== src/Compact/RoundTrip/Tcp.antt =====
-- TCP segments through `build_cpkt` and `recv_tcp`.
use ipcf.Common.{
  ℕ, ◌+◌, ◌-◌, ◌≤◌, ◌≡◌, refl, sym, ap, ◌∙◌, Bool, true, false, Option, some, List, ◌++◌, arith,
  length, take, drop, All, length-append, length-take, drop-drop, if◌then◌else◌,
}
use ipcf.Common.Fault.{◌>>=◌}
use ipcf.Common.Word.{IsByte}
use ipcf.Split.Types.{size_sub}
use ipcf.Compact.Ipv4.{swap16, read_ip, ip_bytes, TcpHdr, read_tcp, tcp_bytes}
use ipcf.Compact.Ipv4.Bytes.{get16-lt, get32-lt, tcp_bytes-read_tcp}
use ipcf.Compact.Types.{
  ctype_frm_tcp, my_mac, CHdr, chdr_bytes, RFlow, max_data_length, copy, fill_pkt,
}
use ipcf.Compact.Encode.{tcp_frame, tcp_info, tcp_fields}
use ipcf.Compact.Decode.{next_id, finish_ip, recv_tcp, recv_tcp_hdr}
use ipcf.Compact.RoundTrip.Memory.{fill_pkt-some, copy-middle, size_sub_lem, take-append-take}
use ipcf.Compact.RoundTrip.Flags.{is_encodable}
use ipcf.Compact.RoundTrip.Fields.{InWidth, merged, length-tcp_fields, recv_tcp_hdr_lem}
use ipcf.Compact.RoundTrip.Frames.{InBuffer, payload, length-payload, tcp_fr, tcp_frame_lem}
use mathlib.Core.List.{append_assoc}

-- A TCP segment in a buffer, with flags that a frame can carry, that fits in a `pkt_t`.
pub record IsTcp (ippkt : List ℕ) (tot : ℕ) : Type 0 where
  pub bytes : All IsByte ippkt
  pub tot_len : swap16 (read_ip ippkt 0).tot_len ≡ tot
  pub at_least : 40 ≤ tot
  pub at_most : tot ≤ max_data_length
  pub room : tot ≤ length ippkt
  pub flags : is_encodable (read_tcp ippkt 20) ≡ true

-- A flow that has the fields of a segment that a frame does not carry.
pub record HasFields (rflow : RFlow) (ippkt : List ℕ) : Type 0 where
  pub source : (read_tcp rflow.hdr.t 0).source ≡ (read_tcp ippkt 20).source
  pub dest : (read_tcp rflow.hdr.t 0).dest ≡ (read_tcp ippkt 20).dest
  pub res1 : (read_tcp rflow.hdr.t 0).res1 ≡ (read_tcp ippkt 20).res1
  pub doff : (read_tcp rflow.hdr.t 0).doff ≡ (read_tcp ippkt 20).doff
  pub ece : (read_tcp rflow.hdr.t 0).ece ≡ (read_tcp ippkt 20).ece
  pub cwr : (read_tcp rflow.hdr.t 0).cwr ≡ (read_tcp ippkt 20).cwr
  pub ack_seq :
      (read_tcp ippkt 20).ack ≡ false
      → (read_tcp rflow.hdr.t 0).ack_seq ≡ (read_tcp ippkt 20).ack_seq
  pub urg_ptr :
      (read_tcp ippkt 20).urg ≡ false
      → (read_tcp rflow.hdr.t 0).urg_ptr ≡ (read_tcp ippkt 20).urg_ptr

if-same : (b : Bool) (x y : ℕ) → (b ≡ false → y ≡ x) → (if b then x else y) ≡ x
if-same true x y h = refl
if-same false x y h = h refl

module _ (fid : ℕ) (ippkt : List ℕ) (tot : ℕ) (is_tcp : IsTcp ippkt tot) where
  abbrev tcp : TcpHdr
  tcp = read_tcp ippkt 20

  abbrev body : List ℕ
  body = payload ippkt tot 40

  abbrev head : CHdr
  head = record { i = tcp_info tcp; t = ctype_frm_tcp; smac = my_mac; id = fid }

  abbrev frame : List ℕ
  frame = tcp_fr fid ippkt tot

  widths : InWidth tcp
  widths = record {
    seq = get32-lt ippkt 24 is_tcp.bytes;
    ack_seq = get32-lt ippkt 28 is_tcp.bytes;
    window = get16-lt ippkt 34 is_tcp.bytes;
    check = get16-lt ippkt 36 is_tcp.bytes;
    urg_ptr = get16-lt ippkt 38 is_tcp.bytes;
  }

  length-body : length body ≡ tot - 40
  length-body = length-payload ippkt tot 40 is_tcp.at_least is_tcp.room

  length-rest : length (tcp_fields tcp ++ body) ≡ length (tcp_fields tcp) + (tot - 40)
  length-rest = omega (arith, length-append (tcp_fields tcp) body, length-body)

  pub in_buffer : InBuffer ippkt tot 40
  in_buffer = record {
    tot_len = is_tcp.tot_len;
    at_least = is_tcp.at_least;
    at_most = is_tcp.at_most;
    room = is_tcp.room;
  }

  merged_lem :
      (rflow : RFlow)
      → HasFields rflow ippkt
      → merged tcp.ack tcp.urg tcp (read_tcp rflow.hdr.t 0) ≡ tcp
  merged_lem rflow h =
      rw
        (
          h.source,
          h.dest,
          h.res1,
          h.doff,
          h.ece,
          h.cwr,
          if-same tcp.ack tcp.ack_seq _ h.ack_seq,
          if-same tcp.urg tcp.urg_ptr _ h.urg_ptr,
        )
        refl

  -- The header of the segment with the rest is what stood behind the IP header.
  segment : tcp_bytes tcp ++ body ≡ take (tot - 20) (drop 20 ippkt)
  segment =
      ap (λ l. l ++ body)
        (tcp_bytes-read_tcp ippkt is_tcp.bytes (omega (arith, is_tcp.room, is_tcp.at_least)))
      ∙ ap (λ l. take 20 (drop 20 ippkt) ++ take (tot - 40) l) (sym (drop-drop 20 20 40 ippkt refl))
      ∙ take-append-take 20 (tot - 40) (tot - 20) (drop 20 ippkt) (omega (arith, is_tcp.at_least))

  pub recv_tcp_lem :
      (rest : List ℕ) (rflow : RFlow)
      → HasFields rflow ippkt
      → recv_tcp (frame ++ rest) (length frame) rflow
        ≡ some (
          ip_bytes (finish_ip (next_id rflow).hdr.ip tot) ++ take (tot - 20) (drop 20 ippkt),
          next_id rflow,
        )
  unfolding recv_tcp
  recv_tcp_lem rest rflow h =
      let ip = finish_ip (next_id rflow).hdr.ip tot in
      let m = length (tcp_fields tcp) in
      let assoc = append_assoc (tcp_fields tcp) body rest in
      let header : recv_tcp_hdr (frame ++ rest) (read_tcp rflow.hdr.t 0) ≡ (tcp, 3 + m) =
        ap (λ l. recv_tcp_hdr (chdr_bytes head ++ l) (read_tcp rflow.hdr.t 0)) assoc
        ∙ recv_tcp_hdr_lem tcp (read_tcp rflow.hdr.t 0) my_mac fid (body ++ rest) is_tcp.flags
            widths
        ∙ ap (λ t. (t, 3 + m)) (merged_lem rflow h) in
      let came : size_sub (length frame) (3 + m) ≡ tot - 40 =
        size_sub_lem (length frame) (3 + m) (omega (arith, length-rest))
          (omega (arith, length-rest, length-tcp_fields tcp, is_tcp.at_most))
        ∙ omega (arith, length-rest) in
      let copied : copy (frame ++ rest) (3 + m) (tot - 40) ≡ some body =
        ap (λ l. copy (chdr_bytes head ++ l) (3 + m) (tot - 40)) assoc
        ∙ copy-middle (chdr_bytes head ++ tcp_fields tcp) body rest (3 + m) (tot - 40) (omega arith)
            length-body in
      let size : 40 + length body ≡ tot = omega (arith, length-body, is_tcp.at_least) in
      rw (header, came, copied, size)
        (ap
            (λ (bytes : List ℕ).
              fill_pkt (ip_bytes ip ++ bytes) >>= λ pkt. some (pkt, next_id rflow))
            segment
          ∙ ap (λ (o : Option (List ℕ)). o >>= λ pkt. some (pkt, next_id rflow))
              (fill_pkt-some (ip_bytes ip ++ take (tot - 20) (drop 20 ippkt)) (
                omega (
                  arith,
                  length-take (tot - 20) (drop 20 ippkt),
                  is_tcp.at_least,
                  is_tcp.at_most,
                ))))

  -- A TCP segment of an IP packet of 40 to 2000 bytes, whose flags are one of SYN, FIN, PSH and
  -- RST, or URG with at most one of SYN, FIN and PSH, fits in a frame. From the frame, with any
  -- bytes behind it, a flow that has the fields which frames do not carry rebuilds the packet:
  -- behind the IP header, which is that of the flow with the next id, the length and a checksum,
  -- every byte is the one that was sent.
  pub recv_tcp-tcp_frame :
      (rflow : RFlow)
      → HasFields rflow ippkt
      → (fr : List ℕ) × (tcp_frame fid ippkt ≡ some fr)
        × ((rest : List ℕ)
            → recv_tcp (fr ++ rest) (length fr) rflow
              ≡ some (
                ip_bytes (finish_ip (next_id rflow).hdr.ip tot) ++ take (tot - 20) (drop 20 ippkt),
                next_id rflow,
              ))
  recv_tcp-tcp_frame rflow h =
      (frame, tcp_frame_lem fid ippkt tot in_buffer, λ rest. recv_tcp_lem rest rflow h)
