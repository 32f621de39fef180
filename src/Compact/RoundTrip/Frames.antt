-- ===== src/Compact/RoundTrip/Frames.antt =====
-- The frames of compact.c for TCP and UDP packets that stand in their buffers and fit in a `pkt_t`.
use ipcf.Common.{
  ℕ, ◌-◌, ◌≤◌, ◌≡◌, ap, ◌∙◌, some, List, ◌++◌, arith, length, take, drop, length-append,
  length-take, length-drop,
}
use ipcf.Common.Word.{le16}
use ipcf.Compact.Ipv4.{swap16, read_ip, read_tcp, read_udp}
use ipcf.Compact.Types.{
  ctype_frm_tcp, ctype_frm_udp, my_mac, CHdr, chdr_bytes, max_data_length, fill_pkt,
}
use ipcf.Compact.Encode.{whole_pkt, udp_frame, tcp_frame, tcp_info, tcp_fields}
use ipcf.Compact.RoundTrip.Memory.{copy-some, fill_pkt-some, size_sub_lem}
use ipcf.Compact.RoundTrip.Fields.{length-tcp_fields}

-- A packet of `tot` bytes, which begins with headers of `n` bytes.
pub record InBuffer (ippkt : List ℕ) (tot n : ℕ) : Type 0 where
  pub tot_len : swap16 (read_ip ippkt 0).tot_len ≡ tot
  pub at_least : n ≤ tot
  pub at_most : tot ≤ max_data_length
  pub room : tot ≤ length ippkt

-- What stands behind the headers.
abbrev pub payload : List ℕ → ℕ → ℕ → List ℕ
payload ippkt tot n = take (tot - n) (drop n ippkt)

pub length-payload :
    (ippkt : List ℕ) (tot n : ℕ)
    → n ≤ tot
    → tot ≤ length ippkt
    → length (payload ippkt tot n) ≡ tot - n
length-payload ippkt tot n l room =
    omega (arith, length-take (tot - n) (drop n ippkt), length-drop n ippkt)

pub whole_pkt_lem :
    (ippkt : List ℕ) (tot n : ℕ)
    → InBuffer ippkt tot n
    → whole_pkt ippkt tot ≡ some (take tot ippkt)
unfolding whole_pkt
whole_pkt_lem ippkt tot n h =
    rw (copy-some ippkt 0 tot (omega (arith, h.room)))
      (fill_pkt-some (take tot ippkt) (omega (arith, length-take tot ippkt, h.at_most)))

-- The frame of a UDP packet: its checksum and its payload.
abbrev pub udp_fr : ℕ → List ℕ → ℕ → List ℕ
udp_fr fid ippkt tot =
    let head : CHdr = record { i = 0; t = ctype_frm_udp; smac = my_mac; id = fid } in
    chdr_bytes head ++ (le16 (read_udp ippkt 20).check ++ payload ippkt tot 28)

pub udp_frame_lem :
    (fid : ℕ) (ippkt : List ℕ) (tot : ℕ)
    → InBuffer ippkt tot 28
    → udp_frame fid ippkt ≡ some (udp_fr fid ippkt tot)
unfolding udp_frame
udp_frame_lem fid ippkt tot h =
    let size = size_sub_lem tot 20 (omega (arith, h.at_least)) (omega (arith, h.at_most)) in
    let size' = size_sub_lem (tot - 20) 8 (omega (arith, h.at_least)) (omega (arith, h.at_most)) in
    let head : CHdr = record { i = 0; t = ctype_frm_udp; smac = my_mac; id = fid } in
    rw
      (
        h.tot_len,
        size,
        size',
        copy-some ippkt 28 (tot - 20 - 8) (omega (arith, h.room, h.at_least)),
      )
      (ap
          (λ k.
            fill_pkt
              (chdr_bytes head ++ (le16 (read_udp ippkt 20).check ++ take k (drop 28 ippkt))))
          (omega arith)
        ∙ fill_pkt-some (udp_fr fid ippkt tot)
            (omega (arith, length-payload ippkt tot 28 h.at_least h.room, h.at_least, h.at_most)))

-- The frame of a TCP segment: the fields that change and its payload.
abbrev pub tcp_fr : ℕ → List ℕ → ℕ → List ℕ
tcp_fr fid ippkt tot =
    let tcp = read_tcp ippkt 20 in
    let head : CHdr = record { i = tcp_info tcp; t = ctype_frm_tcp; smac = my_mac; id = fid } in
    chdr_bytes head ++ (tcp_fields tcp ++ payload ippkt tot 40)

pub tcp_frame_lem :
    (fid : ℕ) (ippkt : List ℕ) (tot : ℕ)
    → InBuffer ippkt tot 40
    → tcp_frame fid ippkt ≡ some (tcp_fr fid ippkt tot)
unfolding tcp_frame
tcp_frame_lem fid ippkt tot h =
    let size = size_sub_lem tot 20 (omega (arith, h.at_least)) (omega (arith, h.at_most)) in
    let size' = size_sub_lem (tot - 20) 20 (omega (arith, h.at_least)) (omega (arith, h.at_most)) in
    let tcp = read_tcp ippkt 20 in
    let head : CHdr = record { i = tcp_info tcp; t = ctype_frm_tcp; smac = my_mac; id = fid } in
    rw
      (
        h.tot_len,
        size,
        size',
        copy-some ippkt 40 (tot - 20 - 20) (omega (arith, h.room, h.at_least)),
      )
      (ap (λ k. fill_pkt (chdr_bytes head ++ (tcp_fields tcp ++ take k (drop 40 ippkt))))
          (omega arith)
        ∙ fill_pkt-some (tcp_fr fid ippkt tot) (
            omega (
              arith,
              length-append (tcp_fields tcp) (payload ippkt tot 40),
              length-payload ippkt tot 40 h.at_least h.room,
              length-tcp_fields tcp,
              h.at_least,
              h.at_most,
            )))
