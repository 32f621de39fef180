-- ===== src/Compact/Ipv4.antt =====
-- include/ipv4.h: the headers of IPv4, TCP and UDP, with the fields as a little-endian machine
-- loads them, and their bytes.
pub mod Bytes
use ipcf.Common.{
  ℕ, ◌+◌, ◌*◌, ◌/◌, ◌%◌, ◌^◌, Bool, true, false, List, [], ◌∷◌, ◌++◌, get_or, ◌==◌, if◌then◌else◌,
}
use ipcf.Common.Word.{le16, le32, get16, get32}

-- `ntohs` and `htons` of a `u16`: the two bytes swapped.
abbrev pub swap16 : ℕ → ℕ
swap16 x = x / 256 % 256 + x % 256 * 256

abbrev pub frag_flag_mf_mask : ℕ
frag_flag_mf_mask = 0x2000

abbrev pub frag_off_mask : ℕ
frag_off_mask = 0x1fff

abbrev pub protocol_tcp : ℕ
protocol_tcp = 0x06

abbrev pub protocol_udp : ℕ
protocol_udp = 0x11

-- `sizeof` of the three headers.
abbrev pub ip_len : ℕ
ip_len = 20

abbrev pub tcp_len : ℕ
tcp_len = 20

abbrev pub udp_len : ℕ
udp_len = 8

-- `struct iphdr`.
pub record IpHdr : Type 0 where
  pub ihl : ℕ
  pub version : ℕ
  pub tos : ℕ
  pub tot_len : ℕ
  pub id : ℕ
  pub frag_off : ℕ
  pub ttl : ℕ
  pub protocol : ℕ
  pub check : ℕ
  pub saddr : ℕ
  pub daddr : ℕ

abbrev pub read_ip : List ℕ → ℕ → IpHdr
read_ip b at = record {
  ihl = get_or b at 0 % 16;
  version = get_or b at 0 / 16;
  tos = get_or b (at + 1) 0;
  tot_len = get16 b (at + 2);
  id = get16 b (at + 4);
  frag_off = get16 b (at + 6);
  ttl = get_or b (at + 8) 0;
  protocol = get_or b (at + 9) 0;
  check = get16 b (at + 10);
  saddr = get32 b (at + 12);
  daddr = get32 b (at + 16);
}

abbrev pub ip_bytes : IpHdr → List ℕ
ip_bytes h =
    (h.ihl + 16 * h.version) ∷ h.tos ∷ le16 h.tot_len
    ++ (le16 h.id
        ++ (le16 h.frag_off
            ++ (h.ttl ∷ h.protocol ∷ le16 h.check ++ (le32 h.saddr ++ le32 h.daddr))))

-- A flag of a byte, and its value there.
abbrev pub flag : ℕ → ℕ → Bool
flag b k = b / 2 ^ k % 2 == 1

abbrev pub flag_value : Bool → ℕ → ℕ
flag_value true k = 2 ^ k
flag_value false k = 0

-- `struct tcphdr`.
pub record TcpHdr : Type 0 where
  pub source : ℕ
  pub dest : ℕ
  pub seq : ℕ
  pub ack_seq : ℕ
  pub res1 : ℕ
  pub doff : ℕ
  pub fin : Bool
  pub syn : Bool
  pub rst : Bool
  pub psh : Bool
  pub ack : Bool
  pub urg : Bool
  pub ece : Bool
  pub cwr : Bool
  pub window : ℕ
  pub check : ℕ
  pub urg_ptr : ℕ

abbrev pub read_tcp : List ℕ → ℕ → TcpHdr
read_tcp b at =
    let flags = get_or b (at + 13) 0 in
    record {
      source = get16 b at;
      dest = get16 b (at + 2);
      seq = get32 b (at + 4);
      ack_seq = get32 b (at + 8);
      res1 = get_or b (at + 12) 0 % 16;
      doff = get_or b (at + 12) 0 / 16;
      fin = flag flags 0;
      syn = flag flags 1;
      rst = flag flags 2;
      psh = flag flags 3;
      ack = flag flags 4;
      urg = flag flags 5;
      ece = flag flags 6;
      cwr = flag flags 7;
      window = get16 b (at + 14);
      check = get16 b (at + 16);
      urg_ptr = get16 b (at + 18);
    }

abbrev pub tcp_flags : TcpHdr → ℕ
tcp_flags h =
    flag_value h.fin 0
    + flag_value h.syn 1
    + flag_value h.rst 2
    + flag_value h.psh 3
    + flag_value h.ack 4
    + flag_value h.urg 5
    + flag_value h.ece 6
    + flag_value h.cwr 7

abbrev pub tcp_bytes : TcpHdr → List ℕ
tcp_bytes h =
    le16 h.source
    ++ (le16 h.dest
        ++ (le32 h.seq
            ++ (le32 h.ack_seq
                ++ ((h.res1 + 16 * h.doff) ∷ tcp_flags h ∷ le16 h.window
                    ++ (le16 h.check ++ le16 h.urg_ptr)))))

-- `struct udphdr`.
pub record UdpHdr : Type 0 where
  pub source : ℕ
  pub dest : ℕ
  pub len : ℕ
  pub check : ℕ

abbrev pub read_udp : List ℕ → ℕ → UdpHdr
read_udp b at = record {
  source = get16 b at;
  dest = get16 b (at + 2);
  len = get16 b (at + 4);
  check = get16 b (at + 6);
}

abbrev pub udp_bytes : UdpHdr → List ℕ
udp_bytes h = le16 h.source ++ (le16 h.dest ++ (le16 h.len ++ le16 h.check))
