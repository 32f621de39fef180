-- ===== src/Compact/Inv/Sends.antt =====
-- What `xmit_compress` of compact.c sends for a packet that is no fragment.
use ipcf.Common.{
  ℕ, ◌≤◌, ◌≡◌, ◌⊎◌, ◌∙◌, refl, ap, inl, inr, Bool-cases, Option, true, false, Option-cases, some,
  List, [], ◌∷◌, take, arith, ◌==◌,
}
use ipcf.Compact.Ipv4.{protocol_tcp, protocol_udp, read_ip}
use ipcf.Compact.Types.{
  SKey, skey_same, State, state_new, state_pending, state_established, SFlow, Env, timeout_at,
}
use ipcf.Compact.Encode.{is_raw, get_sflow_key, build_ctl, build_cpkt}
use ipcf.Compact.Table.{Table, Laws, has}
use ipcf.Compact.Flows.{Flows, put_sflow}
use ipcf.Compact.Xmit.{can_compact, flow_of, xmit_flow, xmit_compress}
use ipcf.Compact.RoundTrip.Frames.{
  InBuffer, whole_pkt_lem, tcp_frame_lem, udp_frame_lem, tcp_fr, udp_fr,
}
use ipcf.Compact.Inv.{Inv}
use ipcf.Compact.Inv.Keyed.{Keyed}
use ipcf.Compact.Inv.Make.{flow_of-Found}

-- A TCP or UDP packet of `tot` bytes that is no fragment, with room for its headers.
pub record IsWhole (ippkt : List ℕ) (tot : ℕ) : Type 0 where
  pub in_buffer : InBuffer ippkt tot 28
  pub unfragmented : is_raw (read_ip ippkt 0) ≡ false
  pub tcp_room : (read_ip ippkt 0).protocol ≡ protocol_tcp → 40 ≤ tot

pub key_ipid : (ippkt : List ℕ) → is_raw (read_ip ippkt 0) ≡ false → (get_sflow_key ippkt).ipid ≡ 0
unfolding get_sflow_key
key_ipid ippkt h = elim (Bool-cases ((read_ip ippkt 0).protocol == protocol_tcp)) [
  | inl e ↦ rw (h, e) refl
  | inr e ↦ rw (h, e) refl
]

same_ipid : (a b : SKey) → skey_same a b ≡ true → a.ipid ≡ b.ipid
unfolding skey_same
same_ipid a b h = ground (arith, h)

-- Such packets are known by their ports, not by an id.
no_ipid :
    (ippkt : List ℕ) (k : SKey)
    → is_raw (read_ip ippkt 0) ≡ false
    → skey_same k (get_sflow_key ippkt) ≡ true
    → k.ipid ≡ 0
no_ipid ippkt k h e = same_ipid k (get_sflow_key ippkt) e ∙ key_ipid ippkt h

is_raw-protocol :
    (ippkt : List ℕ)
    → is_raw (read_ip ippkt 0) ≡ false
    → ((read_ip ippkt 0).protocol == protocol_tcp) ≡ false
    → ((read_ip ippkt 0).protocol == protocol_udp) ≡ true
unfolding is_raw
is_raw-protocol ippkt h e = ground (arith, h, e)

build_cpkt-some :
    (env : Env) (n : SFlow) (ippkt : List ℕ) (tot : ℕ)
    → IsWhole ippkt tot
    → skey_same n.skey (get_sflow_key ippkt) ≡ true
    → (fr : List ℕ) × (build_cpkt env n ippkt ≡ some fr)
unfolding build_cpkt
build_cpkt-some env n ippkt tot h same =
    let id0 = no_ipid ippkt n.skey h.unfragmented same in
    elim (Bool-cases ((read_ip ippkt 0).protocol == protocol_tcp)) [
      | inl e ↦
          let b : InBuffer ippkt tot 40 = record {
            tot_len = h.in_buffer.tot_len;
            at_least = h.tcp_room (ground (arith, e));
            at_most = h.in_buffer.at_most;
            room = h.in_buffer.room;
          } in
          (tcp_fr n.fid ippkt tot, rw (id0, e) (tcp_frame_lem n.fid ippkt tot b))
      | inr e ↦ (
        udp_fr n.fid ippkt tot,
        rw (id0, e, is_raw-protocol ippkt h.unfragmented e)
            (udp_frame_lem n.fid ippkt tot h.in_buffer),
      )
    ]

-- What a flow sends for a packet, by its state before: the announcement of the flow and the packet as
-- it is; the packet as it is, until the flow is acknowledged; then a frame for it.
abbrev pub IsSent : Env → SFlow → State → List ℕ → ℕ → List (List ℕ) → Type 0
IsSent env n state_new ippkt tot pkts = pkts ≡ build_ctl n ∷ take tot ippkt ∷ []
IsSent env n state_pending ippkt tot pkts = pkts ≡ take tot ippkt ∷ []
IsSent env n state_established ippkt tot pkts =
    (fr : List ℕ) × (build_cpkt env n ippkt ≡ some fr) × (pkts ≡ fr ∷ [])

-- The state of the flow after it has sent.
abbrev pub state_after : State → State
state_after state_new = state_pending
state_after state_pending = state_pending
state_after state_established = state_established

xmit_flow-IsSent :
    (env : Env) (n : SFlow) (ippkt : List ℕ) (tot : ℕ)
    → IsWhole ippkt tot
    → skey_same n.skey (get_sflow_key ippkt) ≡ true
    → (s : State) → n.state ≡ s
    → (pkts : List (List ℕ)) × (xmit_flow env n ippkt ≡ some (pkts, state_after s))
      × IsSent env n s ippkt tot pkts
unfolding xmit_flow
xmit_flow-IsSent env n ippkt tot h same state_new e = (
  build_ctl n ∷ take tot ippkt ∷ [],
  rw (e, h.in_buffer.tot_len, whole_pkt_lem ippkt tot 28 h.in_buffer) refl,
  refl,
)
xmit_flow-IsSent env n ippkt tot h same state_pending e = (
  take tot ippkt ∷ [],
  rw (e, h.in_buffer.tot_len, whole_pkt_lem ippkt tot 28 h.in_buffer) refl,
  refl,
)
xmit_flow-IsSent env n ippkt tot h same state_established e =
    let n' : SFlow = record n { state = state_established } in
    let (fr, built) = build_cpkt-some env n' ippkt tot h same in
    let built_n = ap (λ (s : State). build_cpkt env (record n { state = s }) ippkt) e ∙ built in
    (fr ∷ [], rw (e, built) refl, (fr, built_n, refl))

module _ (T : Table) (hash_bytes : List ℕ → ℕ) where
  -- The packet goes to the flow that `flow_of` finds or makes, which is in the table with the
  -- packet's key; it sends what its state asks for, and its timer starts again.
  pub record Passes (env : Env) (ippkt : List ℕ) (tot : ℕ) (pkts : List (List ℕ)) (c c' : Flows T)
      : Type 0 where
    pub at : ℕ
    pub node : SFlow
    pub with_flow : Flows T
    pub found : flow_of T hash_bytes env ippkt c ≡ some (some at, with_flow)
    pub known : has at (T.nodes c'.sflow_hmap) ≡ true
    pub stored : with_flow.sflow at ≡ some node
    pub key : skey_same node.skey (get_sflow_key ippkt) ≡ true
    pub sent : IsSent env node node.state ippkt tot pkts
    pub kept :
        c'.sflow at
        ≡ some (record node { state = state_after node.state; soft_timeout = timeout_at env })

  -- What becomes of a packet: it is sent as it is, and nothing else happens; or it goes to its flow;
  -- or there is no flow for it, and no identifier for a new one.
  abbrev pub Fate : Env → List ℕ → ℕ → List (List ℕ) → Flows T → Flows T → Type 0 → Type 0
  Fate env ippkt tot pkts c c' Full =
      ((can_compact ippkt ≡ false) × (pkts ≡ take tot ippkt ∷ []) × (c' ≡ c))
      ⊎ (((can_compact ippkt ≡ true) × Passes env ippkt tot pkts c c') ⊎ ((pkts ≡ []) × Full))

module _ (T : Table) (L : Laws T) (hash_bytes : List ℕ → ℕ) where
  pub xmit_compress-Fate :
      (env : Env) (ippkt : List ℕ) (tot : ℕ) (c : Flows T) (free : List ℕ)
      → Inv T L c free
      → Keyed T hash_bytes c
      → IsWhole ippkt tot
      → (pkts : List (List ℕ)) × (c' : Flows T) × (xmit_compress T hash_bytes env ippkt c
          ≡ some (pkts, c'))
        × Fate T hash_bytes env ippkt tot pkts c c' (free ≡ [])
  unfolding xmit_compress
  xmit_compress-Fate env ippkt tot c free inv keyed h =
      let (o, c', free', ran, inv', found, full, keyed') =
        flow_of-Found T L hash_bytes env ippkt c free inv keyed in
      elim (Bool-cases (can_compact ippkt)) [
        | inr e ↦ (
          take tot ippkt ∷ [],
          c,
          rw (e, h.in_buffer.tot_len, whole_pkt_lem ippkt tot 28 h.in_buffer) refl,
          inl (e, refl, refl),
        )
        | inl e ↦ elim (Option-cases o) [
          | inl q ↦ ([], c', rw (e, ran, q) refl, inr (inr (refl, full q)))
          | inr (p, q) ↦
              let f = found p q in
              let (pkts, sent, what) =
                xmit_flow-IsSent env f.node ippkt tot h f.same f.node.state refl in
              (
                pkts,
                put_sflow T p
                    (record f.node {
                      state = state_after f.node.state;
                      soft_timeout = timeout_at env;
                    })
                    c',
                rw (e, ran, q, f.stored, sent) refl,
                inr (
                    inl (
                      e,
                      record {
                        at = p;
                        node = f.node;
                        with_flow = c';
                        found = ran ∙ ap (λ (x : Option ℕ). some (x, c')) q;
                        known = f.known;
                        stored = f.stored;
                        key = f.same;
                        sent = what;
                        kept = ground arith;
                      },
                    )),
              )
        ]
      ]
