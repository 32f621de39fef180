-- ===== src/Program/Segment.antt =====
-- A TCP segment of a connection that both programs know, from device to device.
use ipcf.Common.{
  arith, ℕ, ◌-◌, ◌≡◌, sym, refl, ap, ◌∙◌, true, false, none, some, List, [], ◌∷◌, ◌++◌, take, drop,
  length, is_empty, ◌==◌,
}
use mathlib.Core.Option.{some-injective}
use mathlib.Core.Path.{subst}
use ipcf.Split.Types.{array}
use ipcf.Compact.Ipv4.{protocol_tcp, read_ip, ip_bytes}
use ipcf.Compact.Types.{RKey, my_mac, rkey_bytes, SFlow, RFlow, Env, state_established, timeout_at}
use ipcf.Compact.Encode.{is_raw, get_sflow_key, build_cpkt, tcp_frame}
use ipcf.Compact.Decode.{finish_ip, next_id}
use ipcf.Compact.Table.{Table, Laws, has}
use ipcf.Compact.Flows.{Flows, compact_init, get_rflow_by_hash, put_sflow, put_rflow}
use ipcf.Compact.Xmit.{can_compact, xmit_flow, xmit_compress, recv_compress}
use ipcf.Compact.RoundTrip.Tcp.{IsTcp, HasFields}
use ipcf.Compact.Inv.Events.{Event, sends, event, events, events-append}
use ipcf.Compact.Inv.Sends.{key_ipid}
use ipcf.Compact.Inv.Safety.{keys-differ}
use ipcf.Compact.Link.Find.{get_rflow_by_hash-put_rflow}
use ipcf.Compact.Link.Frames.{recv_compress-tcp_frame}
use ipcf.Program.{Around, Program}
use ipcf.Program.Through.{deliver, Joined, IsTaken, deliver_through}

-- A segment of TCP that is no fragment and that the header compression takes, of the connection of
-- two flows, which has the fields that a frame does not carry.
pub record IsSegment (ippkt : List ℕ) (tot : ℕ) (n : SFlow) (r : RFlow) : Type 0 where
  pub is_tcp : IsTcp ippkt tot
  pub compact : can_compact ippkt ≡ true
  pub unfragmented : is_raw (read_ip ippkt 0) ≡ false
  pub protocol : (read_ip ippkt 0).protocol ≡ protocol_tcp
  pub key : get_sflow_key ippkt ≡ n.skey
  pub fields : HasFields r ippkt

-- The sender's flow and the receiver's flow after a segment.
abbrev pub sent_on : Env → SFlow → SFlow
sent_on env n = record n { state = state_established; soft_timeout = timeout_at env }

abbrev pub received_on : Env → RFlow → RFlow
received_on env r = next_id (record r { soft_timeout = timeout_at env })

-- The name of a flow in a frame's header.
abbrev pub name : ℕ → RKey
name fid = record { smac = my_mac; id = fid }

module _ (T : Table) (L : Laws T) (hash_bytes : List ℕ → ℕ) where
  -- A flow of the sender after any history: it is in the table, and acknowledged.
  pub record HasSent (c : Flows T) (n : SFlow) : Type 0 where
    pub history : List Event
    pub ran : events T hash_bytes history (compact_init T) ≡ some c
    pub at : ℕ
    pub known : has at (T.nodes c.sflow_hmap) ≡ true
    pub stored : c.sflow at ≡ some n
    pub established : n.state ≡ state_established

  -- The receiver's flow of that name.
  pub record HasReceived (d : Flows T) (fid : ℕ) (r : RFlow) : Type 0 where
    pub at : ℕ
    pub found :
        get_rflow_by_hash T d (hash_bytes (rkey_bytes (name fid))) (name fid) ≡ some (some at)
    pub stored : d.rflow at ≡ some r

  xmit_flow-segment :
      (env : Env) (n : SFlow) (r : RFlow) (ippkt fr : List ℕ) (tot : ℕ)
      → IsSegment ippkt tot n r
      → n.state ≡ state_established
      → tcp_frame n.fid ippkt ≡ some fr
      → xmit_flow env n ippkt ≡ some (fr ∷ [], state_established)
  unfolding xmit_flow build_cpkt
  xmit_flow-segment env n r ippkt fr tot s established built =
      let id0 : n.skey.ipid ≡ 0 = ap (λ k. k.ipid) (sym s.key) ∙ key_ipid ippkt s.unfragmented in
      let is_tcp : ((read_ip ippkt 0).protocol == protocol_tcp) ≡ true = rw s.protocol refl in
      rw (established, id0, is_tcp, built) refl

  xmit_compress-segment :
      (env : Env) (ippkt fr : List ℕ) (tot : ℕ) (c : Flows T) (n : SFlow) (r : RFlow)
      (h : HasSent c n)
      → IsSegment ippkt tot n r
      → tcp_frame n.fid ippkt ≡ some fr
      → xmit_compress T hash_bytes env ippkt c ≡ some (fr ∷ [], put_sflow T h.at (sent_on env n) c)
  unfolding xmit_compress
  xmit_compress-segment env ippkt fr tot c n r h s built =
      let (unique, found) = keys-differ T L hash_bytes h.history c h.ran h.at n h.known h.stored in
      rw
        (
          s.compact,
          found env ippkt s.key,
          h.stored,
          xmit_flow-segment env n r ippkt fr tot s h.established built,
        )
        refl

  -- It is again a flow of the sender.
  HasSent-sent_on :
      (env : Env) (ippkt fr : List ℕ) (tot : ℕ) (c : Flows T) (n : SFlow) (r : RFlow)
      (h : HasSent c n)
      → IsSegment ippkt tot n r
      → tcp_frame n.fid ippkt ≡ some fr
      → HasSent (put_sflow T h.at (sent_on env n) c) (sent_on env n)
  unfolding event events
  HasSent-sent_on env ippkt fr tot c n r h s built = record {
    history = h.history ++ (sends env ippkt ∷ []);
    ran =
        events-append T hash_bytes h.history (sends env ippkt ∷ []) (compact_init T) c h.ran
        ∙ rw (xmit_compress-segment env ippkt fr tot c n r h s built) refl;
    at = h.at;
    known = h.known;
    stored = ground arith;
    established = refl;
  }

  -- The receiver rebuilds the segment from the frame, with what was in its buffer behind it.
  recv_compress-segment :
      (env : Env) (ippkt fr stale : List ℕ) (fid tot : ℕ) (d : Flows T) (r : RFlow)
      (h : HasReceived d fid r)
      → IsTcp ippkt tot
      → HasFields r ippkt
      → tcp_frame fid ippkt ≡ some fr
      → recv_compress T hash_bytes env (array stale fr) (length fr) d
        ≡ some (
          some (ip_bytes (finish_ip (next_id r).hdr.ip tot) ++ take (tot - 20) (drop 20 ippkt)),
          none,
          put_rflow T h.at (received_on env r) d,
        )
  recv_compress-segment env ippkt fr stale fid tot d r h is_tcp fields built =
      let (fr', built', rebuilt) =
        recv_compress-tcp_frame T hash_bytes env fid ippkt tot d h.at r is_tcp h.found h.stored
          fields in
      let same : fr' ≡ fr = some-injective fr' fr (sym built' ∙ built) in
      subst
        (λ (f : List ℕ).
          (rest : List ℕ)
          → recv_compress T hash_bytes env (f ++ rest) (length f) d
            ≡ some (
              some (ip_bytes (finish_ip (next_id r).hdr.ip tot) ++ take (tot - 20) (drop 20 ippkt)),
              none,
              put_rflow T h.at (received_on env r) d,
            ))
        same rebuilt (drop (length fr) stale)

  -- It has again a flow of that name.
  HasReceived-received_on :
      (env : Env) (d : Flows T) (fid : ℕ) (r : RFlow) (h : HasReceived d fid r)
      → HasReceived (put_rflow T h.at (received_on env r) d) fid (received_on env r)
  HasReceived-received_on env d fid r h = record {
    at = h.at;
    found =
        get_rflow_by_hash-put_rflow T d (hash_bytes (rkey_bytes (name fid))) (name fid) h.at r
          (received_on env r) h.stored refl
        ∙ h.found;
    stored = ground arith;
  }

  -- Two programs, joined by a link that loses nothing, of which the one has nothing else to send
  -- and the other has no frame and no data in its queues, and the arrays of whose receive sessions
  -- have LINK_MTU bytes. A TCP segment of 40 to 2000 bytes, no fragment, that the header
  -- compression takes, whose flags are one of SYN, FIN, PSH and RST, or URG with at most one of
  -- SYN, FIN and PSH, is read from the sender's device. Its flow is in the sender's table after
  -- any history of calls, and acknowledged; the receiver has a flow of that name with the fields
  -- that a frame does not carry. If `upper_send` takes all of the segment's frame of at most 864
  -- bytes, and its stuffed slices take at most 962 bytes, then no round of the loops is a fault,
  -- and after four frames the receiver writes a packet to its device: behind the IP header, which
  -- is that of its flow with the next id, the length and a checksum, every byte is the one that
  -- was read. The two are joined as before, and their flows are those for the next segment.
  pub segment_lem :
      (e0 e1 e2 e3 e4 e5 : Around) (bytes fr : List ℕ) (tot : ℕ) (p q : Program T) (n : SFlow)
      (r : RFlow)
      → is_empty bytes ≡ false
      → IsSegment (array e0.stale bytes) tot n r
      → HasSent p.flows n
      → HasReceived q.flows n.fid r
      → tcp_frame n.fid (array e0.stale bytes) ≡ some fr
      → Joined T hash_bytes p q
      → IsTaken T hash_bytes e0 fr p
      → (p' : Program T) × (q' : Program T) × (deliver T hash_bytes e0 e1 e2 e3 e4 e5 bytes p q
          ≡ some (
            record {
              sent = none;
              written = some (
                  ip_bytes (finish_ip (next_id r).hdr.ip tot)
                  ++ take (tot - 20) (drop 20 (array e0.stale bytes)));
            },
            p',
            q',
          ))
        × Joined T hash_bytes p' q'
        × HasSent p'.flows (sent_on e0.compact n)
        × HasReceived q'.flows n.fid (received_on e5.compact r)
  segment_lem e0 e1 e2 e3 e4 e5 bytes fr tot p q n r full s sent received built joined taken =
      let ippkt = array e0.stale bytes in
      let (p', q', ran, again, at_p, at_q) =
        deliver_through T hash_bytes e0 e1 e2 e3 e4 e5 bytes fr _ p q _ _ full
          (xmit_compress-segment e0.compact ippkt fr tot p.flows n r sent s built)
          (recv_compress-segment e5.compact ippkt fr e5.stale n.fid tot q.flows r received s.is_tcp
            s.fields built)
          joined taken in
      (
        p',
        q',
        ran,
        again,
        subst (λ c. HasSent c (sent_on e0.compact n)) (sym at_p)
            (HasSent-sent_on e0.compact ippkt fr tot p.flows n r sent s built),
        subst (λ d. HasReceived d n.fid (received_on e5.compact r)) (sym at_q)
            (HasReceived-received_on e5.compact q.flows n.fid r received),
      )
