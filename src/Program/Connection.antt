-- ===== src/Program/Connection.antt =====
-- A TCP connection from device to device, amid packets that the header compression leaves alone.
use ipcf.Common.{
  ℕ, ◌+◌, ◌*◌, ◌-◌, ◌%◌, ◌^◌, ◌≤◌, ◌≡◌, ◌⊎◌, inl, inr, refl, sym, false, none, some, List, [], ◌∷◌,
  ◌++◌, arith, take, drop, is_empty, All, length-append, if◌then◌else◌,
}
use mathlib.Core.Path.{subst}
use ipcf.Split.Types.{array}
use ipcf.Split.Link.Short.{IsShort}
use ipcf.Compact.Ipv4.{swap16, IpHdr, read_ip, ip_bytes, read_tcp}
use ipcf.Compact.Types.{SFlow, RFlow, Env}
use ipcf.Compact.Encode.{tcp_fields}
use ipcf.Compact.Decode.{finish_ip}
use ipcf.Compact.Table.{Table, Laws}
use ipcf.Compact.Xmit.{can_compact}
use ipcf.Compact.RoundTrip.Fields.{length-tcp_fields}
use ipcf.Compact.RoundTrip.Frames.{payload, length-payload, tcp_fr, tcp_frame_lem}
use ipcf.Compact.RoundTrip.Tcp.{IsTcp, in_buffer}
use ipcf.Program.{Output, Program}
use ipcf.Program.Through.{Joined}
use ipcf.Program.Packet.{deliver_lem}
use ipcf.Program.Segment.{IsSegment, sent_on, received_on, HasSent, HasReceived, segment_lem}
use ipcf.Program.Stream.{Trip, IsPlain, IsPlain-IsShort, IsShort-IsTaken, written, deliver_all}

-- The buffer of `recv_tun` when the packet has been read.
abbrev pub buffer : Trip → List ℕ
buffer t = array t.e0.stale t.pkt

abbrev pub tot_len : Trip → ℕ
tot_len t = swap16 (read_ip (buffer t) 0).tot_len

-- A segment of the connection, of at most 416 bytes.
pub record IsShortSegment (n : SFlow) (r : RFlow) (t : Trip) : Type 0 where
  pub full : is_empty t.pkt ≡ false
  pub few : tot_len t ≤ 13 * 32
  pub segment : IsSegment (buffer t) (tot_len t) n r

-- The IP header of the connection's next packet.
abbrev pub advance : IpHdr → IpHdr
advance ip = record ip { id = swap16 ((swap16 ip.id + 1) % 2 ^ 16) }

-- What the device gets, for a flow with this IP header.
abbrev pub rebuilt : IpHdr → List Trip → List Output
rebuilt ip [] = []
rebuilt ip (t ∷ ts) =
    if can_compact (buffer t)
    then record {
      sent = none;
      written = some (
          ip_bytes (finish_ip (advance ip) (tot_len t))
          ++ take (tot_len t - 20) (drop 20 (buffer t)));
    }
      ∷ rebuilt (advance ip) ts
    else written t ∷ rebuilt ip ts

tcp_fr-IsShort :
    (fid : ℕ) (ippkt : List ℕ) (tot : ℕ)
    → IsTcp ippkt tot
    → tot ≤ 13 * 32
    → IsShort (tcp_fr fid ippkt tot)
tcp_fr-IsShort fid ippkt tot h few =
    let b = in_buffer fid ippkt tot h in
    record {
      some_bytes = omega arith;
      few = omega (
        arith,
        length-append (tcp_fields (read_tcp ippkt 20)) (payload ippkt tot 40),
        length-payload ippkt tot 40 b.at_least b.room,
        length-tcp_fields (read_tcp ippkt 20),
        b.at_least,
      );
    }

-- What a packet of the connection is does not depend on the flows' timers and ids.
IsShortSegment-next :
    (a b : Env) (n : SFlow) (r : RFlow) (t : Trip)
    → IsShortSegment n r t
    → IsShortSegment (sent_on a n) (received_on b r) t
IsShortSegment-next a b n r t h =
    let s = h.segment in
    record {
      full = h.full;
      few = h.few;
      segment = record {
        is_tcp = s.is_tcp;
        compact = s.compact;
        unfragmented = s.unfragmented;
        protocol = s.protocol;
        key = s.key;
        fields = record {
          source = s.fields.source;
          dest = s.fields.dest;
          res1 = s.fields.res1;
          doff = s.fields.doff;
          ece = s.fields.ece;
          cwr = s.fields.cwr;
          ack_seq = s.fields.ack_seq;
          urg_ptr = s.fields.urg_ptr;
        };
      };
    }

-- A packet of the connection, or one that is not compressed.
abbrev pub IsAny : SFlow → RFlow → Trip → Type 0
IsAny n r t = IsPlain t ⊎ IsShortSegment n r t

IsAny-next :
    (a b : Env) (n : SFlow) (r : RFlow) (ts : List Trip)
    → All (IsAny n r) ts
    → All (IsAny (sent_on a n) (received_on b r)) ts
IsAny-next a b n r [] h = tt
IsAny-next a b n r (t ∷ ts) (inl plain, hs) = (inl plain, IsAny-next a b n r ts hs)
IsAny-next a b n r (t ∷ ts) (inr h, hs) =
    (inr (IsShortSegment-next a b n r t h), IsAny-next a b n r ts hs)

module _ (T : Table) (L : Laws T) (hash_bytes : List ℕ → ℕ) where
  -- Two programs, joined by a link that loses nothing, of which the one has nothing to send and
  -- the other has no frame and no data in its queues, and the arrays of whose receive sessions
  -- have LINK_MTU bytes; a TCP connection of which the sender, after any history of calls, has an
  -- acknowledged flow, and the receiver a flow of the same name. Unfragmented segments of that
  -- connection that the header compression takes, whose flags are one of SYN, FIN, PSH and RST, or
  -- URG with at most one of SYN, FIN and PSH, and which have the fields of the receiver's flow
  -- that frames do not carry, and packets that the header compression does not take and that the
  -- receiver takes for IPv4 with a good checksum, with their length in their header, of at most
  -- 416 bytes, in any order, are read from the sender's device, each after the one before has
  -- passed. No round of the loops is a fault, and the receiver writes one packet for each, in
  -- order: the packets that are not compressed as they are; for each segment the bytes behind its
  -- IP header as they are, behind the connection's IP header with the next id, the length and a
  -- checksum.
  pub connection_lem :
      (ts : List Trip) (p q : Program T) (n : SFlow) (r : RFlow)
      → All (IsAny n r) ts
      → Joined T hash_bytes p q
      → HasSent T L hash_bytes p.flows n
      → HasReceived T L hash_bytes q.flows n.fid r
      → (p' : Program T) × (q' : Program T) × (deliver_all T hash_bytes ts p q
          ≡ some (rebuilt r.hdr.ip ts, p', q'))
        × Joined T hash_bytes p' q'
  unfolding deliver_all
  connection_lem [] p q n r h joined sent received = (p, q, refl, joined)
  connection_lem (t ∷ ts) p q n r (inl h, hs) joined sent received =
      let (p1, q1, one, joined1, at_p, at_q) =
        deliver_lem T hash_bytes t.e0 t.e1 t.e2 t.e3 t.e4 t.e5 t.pkt p q h.intact h.plain joined
          (IsShort-IsTaken T hash_bytes t.e0 t.pkt p (IsPlain-IsShort t h)) in
      let (p', q', more, joined') =
        connection_lem ts p1 q1 n r hs joined1
          (subst (λ c. HasSent T L hash_bytes c n) (sym at_p) sent)
          (subst (λ d. HasReceived T L hash_bytes d n.fid r) (sym at_q) received) in
      (p', q', rw (h.plain, one, more) refl, joined')
  connection_lem (t ∷ ts) p q n r (inr h, hs) joined sent received =
      let s = h.segment in
      let fr = tcp_fr n.fid (buffer t) (tot_len t) in
      let (p1, q1, one, joined1, sent1, received1) =
        segment_lem T L hash_bytes t.e0 t.e1 t.e2 t.e3 t.e4 t.e5 t.pkt fr (tot_len t) p q n r h.full
          s sent received
          (tcp_frame_lem n.fid (buffer t) (tot_len t)
            (in_buffer n.fid (buffer t) (tot_len t) s.is_tcp))
          joined
          (IsShort-IsTaken T hash_bytes t.e0 fr p
            (tcp_fr-IsShort n.fid (buffer t) (tot_len t) s.is_tcp h.few)) in
      let (p', q', more, joined') =
        connection_lem ts p1 q1 (sent_on t.e0.compact n) (received_on t.e5.compact r)
          (IsAny-next t.e0.compact t.e5.compact n r ts hs) joined1 sent1 received1 in
      (p', q', rw (s.compact, one, more) refl, joined')
