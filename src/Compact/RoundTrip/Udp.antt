-- ===== src/Compact/RoundTrip/Udp.antt =====
-- UDP packets through `build_cpkt` and `recv_udp`.
use ipcf.Common.{
  ℕ, ◌+◌, ◌-◌, ◌*◌, ◌/◌, ◌%◌, ◌≤◌, ◌≡◌, refl, sym, ap, ◌∙◌, Option, some, List, ◌++◌, arith, length,
  take, drop, All, length-take, drop-drop,
}
use ipcf.Common.Fault.{◌>>=◌}
use ipcf.Common.Word.{IsByte, le16}
use ipcf.Split.Types.{size_sub}
use ipcf.Compact.Ipv4.{swap16, read_ip, ip_bytes, read_udp, udp_bytes}
use ipcf.Compact.Ipv4.Bytes.{get16-lt, udp_bytes-read_udp}
use ipcf.Compact.Types.{ctype_frm_udp, my_mac, chdr_bytes, RFlow, max_data_length, fill_pkt}
use ipcf.Compact.Encode.{udp_frame}
use ipcf.Compact.Decode.{next_id, finish_ip, recv_udp}
use ipcf.Compact.RoundTrip.Memory.{fill_pkt-some, copy-middle, size_sub_lem, take-append-take}
use ipcf.Compact.RoundTrip.Frames.{InBuffer, payload, length-payload, udp_fr, udp_frame_lem}

-- A UDP packet in a buffer, whose two lengths agree, and that fits in a `pkt_t`.
pub record IsUdp (ippkt : List ℕ) (tot : ℕ) : Type 0 where
  pub bytes : All IsByte ippkt
  pub tot_len : swap16 (read_ip ippkt 0).tot_len ≡ tot
  pub at_least : 28 ≤ tot
  pub at_most : tot ≤ max_data_length
  pub room : tot ≤ length ippkt
  pub udp_len : (read_udp ippkt 20).len ≡ swap16 (tot - 20)

-- A flow that has the ports of a packet.
pub record HasPorts (rflow : RFlow) (ippkt : List ℕ) : Type 0 where
  pub source : (read_udp rflow.hdr.t 0).source ≡ (read_udp ippkt 20).source
  pub dest : (read_udp rflow.hdr.t 0).dest ≡ (read_udp ippkt 20).dest

module _ (fid : ℕ) (ippkt : List ℕ) (tot : ℕ) (udp : IsUdp ippkt tot) where
  abbrev body : List ℕ
  body = payload ippkt tot 28

  abbrev frame : List ℕ
  frame = udp_fr fid ippkt tot

  abbrev check : ℕ
  check = (read_udp ippkt 20).check

  length-body : length body ≡ tot - 28
  length-body = length-payload ippkt tot 28 udp.at_least udp.room

  -- The header of the packet with the rest is what stood behind the IP header.
  segment :
      udp_bytes (record (read_udp ippkt 20) { len = swap16 (tot - 20) }) ++ body
      ≡ take (tot - 20) (drop 20 ippkt)
  segment =
      ap (λ (n : ℕ). udp_bytes (record (read_udp ippkt 20) { len = n }) ++ body) (sym udp.udp_len)
      ∙ ap (λ l. l ++ body)
          (udp_bytes-read_udp ippkt udp.bytes (omega (arith, udp.room, udp.at_least)))
      ∙ ap (λ l. take 8 (drop 20 ippkt) ++ take (tot - 28) l) (sym (drop-drop 8 20 28 ippkt refl))
      ∙ take-append-take 8 (tot - 28) (tot - 20) (drop 20 ippkt) (omega (arith, udp.at_least))

  in_buffer : InBuffer ippkt tot 28
  in_buffer = record {
    tot_len = udp.tot_len;
    at_least = udp.at_least;
    at_most = udp.at_most;
    room = udp.room;
  }

  recv_udp_lem :
      (rest : List ℕ) (rflow : RFlow)
      → HasPorts rflow ippkt
      → recv_udp (frame ++ rest) (length frame) rflow
        ≡ some (
          ip_bytes (finish_ip (next_id rflow).hdr.ip tot) ++ take (tot - 20) (drop 20 ippkt),
          next_id rflow,
        )
  unfolding recv_udp
  recv_udp_lem rest rflow ports =
      let came : size_sub (length frame) 5 ≡ tot - 28 =
        size_sub_lem (length frame) 5 (omega arith) (omega (arith, length-body, udp.at_most))
        ∙ omega (arith, length-body) in
      let copied =
        copy-middle
          (chdr_bytes (record { i = 0; t = ctype_frm_udp; smac = my_mac; id = fid }) ++ le16 check)
          body rest 5 (tot - 28) refl length-body in
      let size : 28 + length body ≡ tot = omega (arith, length-body, udp.at_least) in
      let behind : length body + 8 ≡ tot - 20 = omega (arith, length-body, udp.at_least) in
      let sum : check % 256 + 256 * (check / 256 % 256) ≡ check =
        omega (arith, get16-lt ippkt 26 udp.bytes) in
      let ip = finish_ip (next_id rflow).hdr.ip tot in
      rw (came, copied, size, behind, sum, ports.source, ports.dest)
        (ap
            (λ (bytes : List ℕ).
              fill_pkt (ip_bytes ip ++ bytes) >>= λ pkt. some (pkt, next_id rflow))
            segment
          ∙ ap (λ (o : Option (List ℕ)). o >>= λ pkt. some (pkt, next_id rflow))
              (fill_pkt-some (ip_bytes ip ++ take (tot - 20) (drop 20 ippkt))
                (omega (arith, length-take (tot - 20) (drop 20 ippkt), udp.at_least, udp.at_most))))

  -- A UDP packet of 28 to 2000 bytes whose two lengths agree fits in a frame. From the frame, with
  -- any bytes behind it, a flow with its ports rebuilds the packet: behind the IP header, which is
  -- that of the flow with the next id, the length and a checksum, every byte is the one that was
  -- sent.
  pub recv_udp-udp_frame :
      (rflow : RFlow)
      → HasPorts rflow ippkt
      → (fr : List ℕ) × (udp_frame fid ippkt ≡ some fr)
        × ((rest : List ℕ)
            → recv_udp (fr ++ rest) (length fr) rflow
              ≡ some (
                ip_bytes (finish_ip (next_id rflow).hdr.ip tot) ++ take (tot - 20) (drop 20 ippkt),
                next_id rflow,
              ))
  recv_udp-udp_frame rflow ports =
      (frame, udp_frame_lem fid ippkt tot in_buffer, λ rest. recv_udp_lem rest rflow ports)
