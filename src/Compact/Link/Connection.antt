-- ===== src/Compact/Link/Connection.antt =====
-- A TCP connection between two nodes: its flow is announced and acknowledged, and its segments are
-- compressed by one node and rebuilt by the other.
use ipcf.Common.{
  ℕ, ◌+◌, ◌-◌, ◌%◌, ◌^◌, ◌≤◌, ◌≡◌, ◌∙◌, sym, refl, ap, true, false, none, some, List, [], ◌∷◌, ◌++◌,
  take, drop, length, arith, ◌==◌, length-take, length-drop, take-append, All,
}
use mathlib.Core.List.{append-nil}
use ipcf.Common.Word.{IsByte}
use ipcf.Compact.Ipv4.{swap16, protocol_tcp, IpHdr, read_ip, ip_bytes, TcpHdr, read_tcp}
use ipcf.Compact.Ipv4.Bytes.{read_tcp-take, read_ip-ip_bytes}
use ipcf.Compact.Types.{
  my_mac, chdr_len, RKey, rkey_bytes, OrigHdr, SFlow, RFlow, Env, state_established, timeout_at,
}
use ipcf.Compact.Encode.{build_ctl, build_ack, tcp_frame}
use ipcf.Compact.Decode.{finish_ip, next_id}
use ipcf.Compact.Table.{Table, Laws}
use ipcf.Compact.Flows.{
  Flows, orig_hdr, get_rflow_by_hash, put_sflow, put_rflow, new_rflow, build_rflow_by_hash,
}
use ipcf.Compact.Xmit.{recv_compress}
use ipcf.Compact.RoundTrip.Tcp.{IsTcp, HasFields}
use ipcf.Compact.Inv.{Inv}
use ipcf.Compact.Link.Find.{get_rflow_by_hash-some, get_rflow_by_hash-build_rflow_by_hash}
use ipcf.Compact.Link.Frames.{recv_compress-req, recv_compress-ack, recv_compress-tcp_frame}

-- Two segments with the same header, but for the fields that a frame carries and the ports'
-- checksum.
pub record SameFlow (first later : TcpHdr) : Type 0 where
  pub source : first.source ≡ later.source
  pub dest : first.dest ≡ later.dest
  pub res1 : first.res1 ≡ later.res1
  pub doff : first.doff ≡ later.doff
  pub ece : first.ece ≡ later.ece
  pub cwr : first.cwr ≡ later.cwr
  pub ack_seq : later.ack ≡ false → first.ack_seq ≡ later.ack_seq
  pub urg_ptr : later.urg ≡ false → first.urg_ptr ≡ later.urg_ptr

-- A TCP packet in a buffer, with room for its headers.
pub record IsFirst (first : List ℕ) : Type 0 where
  pub bytes : All IsByte first
  pub room : 40 ≤ length first
  pub protocol : (read_ip first 0).protocol ≡ protocol_tcp

take-take : (t : List ℕ) → length t ≡ 20 → take 20 t ≡ t
take-take t h = ap (take 20) (sym (append-nil t)) ∙ take-append 20 t [] h

length-t : (first : List ℕ) → IsFirst first → length (take 20 (drop 20 first)) ≡ 20
length-t first h = omega (arith, length-take 20 (drop 20 first), length-drop 20 first, h.room)

-- The headers of the first packet, as the sender keeps them.
orig_hdr-first :
    (env : Env) (first : List ℕ)
    → (read_ip first 0).protocol ≡ protocol_tcp
    → orig_hdr env first 0 ≡ record { ip = read_ip first 0; t = take 20 (drop 20 first) }
unfolding orig_hdr
orig_hdr-first env first h = rw h refl

-- The announcement of a flow with those headers.
abbrev ctl : ℕ → List ℕ → List ℕ
ctl fid first = 1 ∷ my_mac ∷ fid ∷ ip_bytes (read_ip first 0) ++ take 20 (drop 20 first)

build_ctl-first :
    (n : SFlow) (env : Env) (first : List ℕ)
    → IsFirst first
    → n.hdr ≡ orig_hdr env first 0
    → build_ctl n ≡ ctl n.fid first
unfolding build_ctl
build_ctl-first n env first h e =
    let is_tcp : ((read_ip first 0).protocol == protocol_tcp) ≡ true = rw h.protocol refl in
    rw (e ∙ orig_hdr-first env first h.protocol, is_tcp)
      (ap (λ l. 1 ∷ my_mac ∷ n.fid ∷ ip_bytes (read_ip first 0) ++ l)
        (take-take (take 20 (drop 20 first)) (length-t first h)))

-- The headers that the receiver takes from it.
orig_hdr-ctl :
    (env : Env) (fid : ℕ) (first rest : List ℕ)
    → IsFirst first
    → orig_hdr env (ctl fid first ++ rest) chdr_len
      ≡ record { ip = read_ip first 0; t = take 20 (drop 20 first) }
unfolding orig_hdr
orig_hdr-ctl env fid first rest h =
    let t = take 20 (drop 20 first) in
    let is_tcp : ((read_ip first 0).protocol == protocol_tcp) ≡ true = rw h.protocol refl in
    rw (is_tcp, take-append 20 t rest (length-t first h))
      (ap (λ (ip : IpHdr). record { ip = ip; t = t })
        (read_ip-ip_bytes first 1 my_mac fid (t ++ rest) h.bytes))

-- The receive flow has the fields of later segments that a frame does not carry.
HasFields-first :
    (r : RFlow) (first ippkt : List ℕ)
    → IsFirst first
    → r.hdr.t ≡ take 20 (drop 20 first)
    → SameFlow (read_tcp first 20) (read_tcp ippkt 20)
    → HasFields r ippkt
HasFields-first r first ippkt h e same =
    let hdr : read_tcp r.hdr.t 0 ≡ read_tcp first 20 =
      ap (λ t. read_tcp t 0) e ∙ read_tcp-take first h.room in
    record {
      source = ap (λ (tcp : TcpHdr). tcp.source) hdr ∙ same.source;
      dest = ap (λ (tcp : TcpHdr). tcp.dest) hdr ∙ same.dest;
      res1 = ap (λ (tcp : TcpHdr). tcp.res1) hdr ∙ same.res1;
      doff = ap (λ (tcp : TcpHdr). tcp.doff) hdr ∙ same.doff;
      ece = ap (λ (tcp : TcpHdr). tcp.ece) hdr ∙ same.ece;
      cwr = ap (λ (tcp : TcpHdr). tcp.cwr) hdr ∙ same.cwr;
      ack_seq = λ a. ap (λ (tcp : TcpHdr). tcp.ack_seq) hdr ∙ same.ack_seq a;
      urg_ptr = λ a. ap (λ (tcp : TcpHdr). tcp.urg_ptr) hdr ∙ same.urg_ptr a;
    }

-- The header that the receiver has for the next packet.
abbrev pub next_ip : List ℕ → IpHdr
next_ip first = record (read_ip first 0) {
  id = swap16 ((swap16 (read_ip first 0).id + 1) % 2 ^ 16);
}

build_rflow_by_hash-stored :
    (T : Table) (env : Env) (hval : ℕ) (key : RKey) (cpkt : List ℕ) (d : Flows T)
    → (build_rflow_by_hash T env hval key cpkt d).1.rflow d.fresh ≡ some (new_rflow T env key cpkt)
unfolding build_rflow_by_hash
build_rflow_by_hash-stored T env hval key cpkt d = ground arith

-- A sender that has announced a flow for `first`, and a receiver that has no flow for it.
pub record Announced (T : Table) (L : Laws T) (hash_bytes : List ℕ → ℕ) (c d : Flows T) (p : ℕ)
    (n : SFlow) (first : List ℕ) : Type 0 where
  pub stored : c.sflow p ≡ some n
  pub index : c.sflow_rindex n.fid ≡ some p
  pub env : Env
  pub hdr : n.hdr ≡ orig_hdr env first 0
  pub is_first : IsFirst first
  pub free : List ℕ
  pub sender : Inv T L c free
  pub free' : List ℕ
  pub receiver : Inv T L d free'
  pub unknown :
      get_rflow_by_hash T d
        (hash_bytes (rkey_bytes (record { smac = my_mac; id = n.fid })))
        (record { smac = my_mac; id = n.fid })
      ≡ some none

module _ (T : Table) (L : Laws T) (hash_bytes : List ℕ → ℕ) (c d : Flows T) (p : ℕ) (n : SFlow)
    (first : List ℕ) (a : Announced T L hash_bytes c d p n first) where
  -- A sender, after a history that keeps its invariant, sends the announcement of a flow of TCP
  -- with the headers of its first packet. The receiver, which has no flow of that name, makes one
  -- and answers; its answer makes the sender's flow established. From then on the receiver
  -- rebuilds a segment of 40 to 2000 bytes from the frame that `tcp_frame` makes of it, if its
  -- flags are one of SYN, FIN, PSH and RST, or URG with at most one of SYN, FIN and PSH, and it
  -- agrees with the first packet in the fields that a frame does not carry: all bytes behind the
  -- IP header are those that were sent.
  pub connection :
      (env env' : Env) (rest rest' : List ℕ) (len len' : ℕ)
      → (ack : List ℕ) × (d' : Flows T) × (recv_compress T hash_bytes env
            (build_ctl n ++ rest)
            len
            d
          ≡ some (none, some ack, d'))
        × (recv_compress T hash_bytes env' (ack ++ rest') len' c
            ≡ some (none, none, put_sflow T p (record n { state = state_established }) c))
        × ((at : Env) (ippkt : List ℕ) (tot : ℕ)
            → IsTcp ippkt tot
            → SameFlow (read_tcp first 20) (read_tcp ippkt 20)
            → (fr : List ℕ) × (d'' : Flows T) × (tcp_frame n.fid ippkt ≡ some fr)
              × ((more : List ℕ)
                  → recv_compress T hash_bytes at (fr ++ more) (length fr) d'
                    ≡ some (
                      some (
                          ip_bytes (finish_ip (next_ip first) tot)
                          ++ take (tot - 20) (drop 20 ippkt)),
                      none,
                      d'',
                    )))
  unfolding build_ack
  connection env env' rest rest' len len' =
      let key : RKey = record { smac = my_mac; id = n.fid } in
      let hval = hash_bytes (rkey_bytes key) in
      let cpkt = ctl n.fid first ++ rest in
      let sent : build_ctl n ++ rest ≡ cpkt =
        ap (λ l. l ++ rest) (build_ctl-first n a.env first a.is_first a.hdr) in
      let d' : Flows T = (build_rflow_by_hash T env hval key cpkt d).1 in
      let (o, searched) = get_rflow_by_hash-some T L c a.free hval key a.sender in
      let r : RFlow = new_rflow T env key cpkt in
      let hdr = orig_hdr-ctl env n.fid first rest a.is_first in
      (
        build_ack cpkt,
        d',
        rw sent (recv_compress-req T hash_bytes env cpkt len d refl refl a.unknown),
        recv_compress-ack T hash_bytes env' (build_ack cpkt ++ rest') len' c refl o p n refl
            searched a.index a.stored,
        λ at ippkt tot is_tcp same.
            let fields =
              HasFields-first r first ippkt a.is_first (ap (λ (h : OrigHdr). h.t) hdr) same in
            let (fr, built, back) =
              recv_compress-tcp_frame T hash_bytes at n.fid ippkt tot d' d.fresh r is_tcp
                (get_rflow_by_hash-build_rflow_by_hash T L env hval key cpkt d a.free' a.receiver
                  a.unknown)
                (build_rflow_by_hash-stored T env hval key cpkt d) fields in
            let ip : (next_id r).hdr.ip ≡ next_ip first =
              ap (λ (h : OrigHdr). record h.ip { id = swap16 ((swap16 h.ip.id + 1) % 2 ^ 16) })
                hdr in
            let d'' : Flows T =
              put_rflow T d.fresh (next_id (record r { soft_timeout = timeout_at at })) d' in
            let behind = take (tot - 20) (drop 20 ippkt) in
            (
              fr,
              d'',
              built,
              λ more.
                  back more
                  ∙ ap
                      (λ (h : IpHdr). some (some (ip_bytes (finish_ip h tot) ++ behind), none, d''))
                      ip,
            ),
      )
