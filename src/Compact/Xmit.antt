-- ===== src/Compact/Xmit.antt =====
-- `xmit_compress` and `recv_compress` of compact.c.
use ipcf.Common.{
  ℕ, Bool, ◌&&◌, not, Option, none, some, List, [], ◌∷◌, take, ◌==◌, leb, if◌then◌else◌,
}
use ipcf.Common.Fault.{◌>>=◌}
use ipcf.Common.Word.{u8, u16}
use ipcf.Csum.{csum}
use ipcf.Split.Types.{update}
use ipcf.Idpool.{get_id}
use ipcf.Compact.Ipv4.{swap16, protocol_tcp, ip_len, read_ip, read_tcp}
use ipcf.Compact.Types.{
  ctype_frm_ctl, ctype_frm_tcp, ctype_frm_udp, ctype_ctl_req, ctype_ctl_ack, ctype_ctl_flt, SKey,
  skey_bytes, RKey, rkey_bytes, read_chdr, State, state_new, state_pending, state_established,
  SFlow, RFlow, Env, timeout_at,
}
use ipcf.Compact.Encode.{get_sflow_key, whole_pkt, build_ctl, build_ack, build_cpkt}
use ipcf.Compact.Decode.{recv_untouched_ip, recv_tcp, recv_udp, recv_raw}
use ipcf.Compact.Table.{Table}
use ipcf.Compact.Flows.{
  Flows, get_sflow_by_hash, get_rflow_by_hash, put_sflow, put_rflow, build_sflow_by_hash,
  build_rflow_by_hash, get_rflow_key,
}

-- An IPv4 packet without options, of TCP without options or of another protocol, that is intact.
unfoldable pub can_compact : List ℕ → Bool
can_compact ippkt =
    let ip = read_ip ippkt 0 in
    ip.version == 4
    && (ip.ihl == 5
        && (not (ip.protocol == protocol_tcp && not ((read_tcp ippkt ip_len).doff == 5))
            && csum (take ip_len ippkt) == 0))

-- The packets that a flow sends for a packet, and its next state.
unfoldable pub xmit_flow : Env → SFlow → List ℕ → Option (List (List ℕ) × State)
xmit_flow env n ippkt =
    let tot = swap16 (read_ip ippkt 0).tot_len in
    elim n.state [
      | state_new ↦ (do pkt ← whole_pkt ippkt tot; some (build_ctl n ∷ pkt ∷ [], state_pending))
      | state_pending ↦ (do pkt ← whole_pkt ippkt tot; some (pkt ∷ [], state_pending))
      | state_established ↦ (do pkt ← build_cpkt env n ippkt; some (pkt ∷ [], state_established))
    ]

module _ (T : Table) (hash_bytes : List ℕ → ℕ) where
  -- A new flow, in the table and in the index; none if there is no free id.
  unfoldable pub make_flow : Env → ℕ → SKey → List ℕ → Flows T → Option (Option ℕ × Flows T)
  make_flow env hval skey ippkt c = do
    (id, idp) ← get_id c.idp
    elim id [
      | none ↦ some (none, record c { idp = idp })
      | some fid ↦
          let (p, c') =
            build_sflow_by_hash T env hval skey ippkt (u8 fid) (record c { idp = idp }) in
          some (some p, record c' { sflow_rindex = update c'.sflow_rindex (u8 fid) (some p) })
    ]

  -- The flow of a packet, found or made.
  unfoldable pub flow_of : Env → List ℕ → Flows T → Option (Option ℕ × Flows T)
  flow_of env ippkt c =
      let skey = get_sflow_key ippkt in
      let hval = hash_bytes (skey_bytes skey) in
      do
        found ← get_sflow_by_hash T c hval skey
        elim found [ none ↦ make_flow env hval skey ippkt c | some p ↦ some (some p, c) ]

  unfoldable pub xmit_compress : Env → List ℕ → Flows T → Option (List (List ℕ) × Flows T)
  xmit_compress env ippkt c =
      let untouched = (do
        pkt ← whole_pkt ippkt (swap16 (read_ip ippkt 0).tot_len)
        some (pkt ∷ [], c)) in
      let compacted = (do
        (flow, c') ← flow_of env ippkt c
        elim flow [
          | none ↦ some ([], c')
          | some p ↦ (do
            n ← c'.sflow p
            (pkts, state) ← xmit_flow env n ippkt
            some (
              pkts,
              put_sflow T p (record n { state = state; soft_timeout = timeout_at env }) c',
            ))
        ]) in
      if can_compact ippkt then compacted else untouched

  -- A compressed packet for a flow: `*ippkt`, and the flow afterwards.
  unfoldable pub recv_packet : List ℕ → ℕ → RFlow → Option (List ℕ × RFlow)
  recv_packet cpkt len n =
      let t = (read_chdr cpkt).t in
      if t == ctype_frm_tcp
      then recv_tcp cpkt len n
      else if t == ctype_frm_udp
      then recv_udp cpkt len n
      else (recv_raw cpkt len n >>= λ pkt. some (pkt, n))

  -- A control frame: `*send_back_pkt`, and the flows afterwards.
  unfoldable pub recv_control :
      Env → List ℕ → ℕ → RKey → Option ℕ → Flows T → Option (Option (List ℕ) × Flows T)
  recv_control env cpkt hval key found c =
      let h = read_chdr cpkt in
      let request : Option (Option (List ℕ) × Flows T) = elim found [
        | none ↦ some (some (build_ack cpkt), (build_rflow_by_hash T env hval key cpkt c).1)
        | some p ↦ none
      ] in
      let ack : Option (Option (List ℕ) × Flows T) = elim (c.sflow_rindex h.id) [
        | none ↦ some (none, c)
        | some p ↦ (do
          n ← c.sflow p
          some (none, put_sflow T p (record n { state = state_established }) c))
      ] in
      if h.i == ctype_ctl_req
      then request
      else if h.i == ctype_ctl_ack
      then ack
      else if h.i == ctype_ctl_flt
      then some (none, c)
      else none

  -- The result is `*ippkt` and `*send_back_pkt`, and the flows.
  unfoldable pub recv_compress :
      Env → List ℕ → ℕ → Flows T → Option (Option (List ℕ) × Option (List ℕ) × Flows T)
  recv_compress env cpkt len c =
      let ip = read_ip cpkt 0 in
      let key = get_rflow_key T cpkt in
      let hval = hash_bytes (rkey_bytes key) in
      let rebuilt : Option ℕ → Option (Option (List ℕ) × Option (List ℕ) × Flows T) = λ found.
        elim found [
          | none ↦ none
          | some p ↦ (do
            n ← c.rflow p
            (pkt, n') ← recv_packet cpkt (u16 len) (record n { soft_timeout = timeout_at env })
            some (some pkt, none, put_rflow T p n' c))
        ] in
      let compressed = (do
        found ← get_rflow_by_hash T c hval key
        if (read_chdr cpkt).t == ctype_frm_ctl
            then (recv_control env cpkt hval key found c >>= λ (back, c'). some (none, back, c'))
            else rebuilt found) in
      let untouched = (do pkt ← recv_untouched_ip cpkt; some (some pkt, none, c)) in
      if ip.version == 4 && (leb 5 ip.ihl && csum (take ip_len cpkt) == 0)
      then untouched
      else compressed
