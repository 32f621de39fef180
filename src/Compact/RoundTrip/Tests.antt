-- ===== src/Compact/RoundTrip/Tests.antt =====
-- A plain acknowledgement, and a rebuilt IP header.
use ipcf.Common.{ℕ, ◌+◌, ◌≡◌, refl, true, List, [], ◌∷◌, ◌++◌, length, arith}
use ipcf.Csum.{csum}
use ipcf.Compact.Ipv4.{TcpHdr, read_tcp, IpHdr, read_ip, ip_bytes}
use ipcf.Compact.Encode.{tcp_info, tcp_fields}
use ipcf.Compact.Decode.{recv_tcp_hdr, finish_ip}
use ipcf.Compact.RoundTrip.Check.{csum-finish_ip}
use ipcf.Compact.RoundTrip.Plain.{recv_tcp_hdr-plain}

abbrev plain_ack : TcpHdr
plain_ack =
    read_tcp
      (0 ∷ 80 ∷ 1 ∷ 187 ∷ 0 ∷ 0 ∷ 0 ∷ 9 ∷ 0 ∷ 0 ∷ 0 ∷ 7 ∷ 80 ∷ 16 ∷ 1 ∷ 0 ∷ 18 ∷ 52 ∷ 0 ∷ 0 ∷ []) 0

-- Its frame with a payload of three bytes.
abbrev cpkt : List ℕ
cpkt = (tcp_info plain_ack + 64) ∷ 1 ∷ 5 ∷ tcp_fields plain_ack ++ (97 ∷ 98 ∷ 99 ∷ [])

recv_tcp_hdr-plain_example :
    ((recv_tcp_hdr cpkt plain_ack).0.urg ≡ true)
    × ((recv_tcp_hdr cpkt plain_ack).1 ≡ 3 + length (tcp_fields plain_ack) + 2)
recv_tcp_hdr-plain_example =
    recv_tcp_hdr-plain plain_ack plain_ack 1 5 (97 ∷ 98 ∷ 99 ∷ [])
      (record { urg = refl; syn = refl; fin = refl; psh = refl; rst = refl })

abbrev ip : IpHdr
ip =
    read_ip (69 ∷ 0 ∷ 0 ∷ 0 ∷ 0 ∷ 7 ∷ 0 ∷ 0 ∷ 64 ∷ 6 ∷ 1 ∷ 2 ∷ 10 ∷ 0 ∷ 0 ∷ 1 ∷ 10 ∷ 0 ∷ 0 ∷ 2 ∷ [])
      0

csum-finish_ip_example : csum (ip_bytes (finish_ip ip 43)) ≡ 0
csum-finish_ip_example = csum-finish_ip ip 43 (omega arith)
