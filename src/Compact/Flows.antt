-- ===== src/Compact/Flows.antt =====
-- The flows of compact.c: the nodes on the heap, the two tables, the index by fid, the free ids.
-- The table and the hash function are parameters. `none` is a fault: a pointer to no node, an
-- access out of bounds, a failed assertion.
use ipcf.Common.{
  ℕ, ◌+◌, ◌^◌, Option, none, some, List, [], ◌∷◌, ◌++◌, take, drop, ◌==◌, if◌then◌else◌,
}
use ipcf.Common.Fault.{◌>>=◌}
use ipcf.Split.Types.{update}
use ipcf.Idpool.{Pool, init_idpool, release_id}
use ipcf.Compact.Ipv4.{protocol_tcp, protocol_udp, ip_len, tcp_len, udp_len, read_ip}
use ipcf.Compact.Types.{
  n_id_bits, chdr_len, read_chdr, SKey, skey_same, RKey, rkey_same, OrigHdr, state_new, SFlow,
  RFlow, Env, timeout_at, is_live,
}
use ipcf.Compact.Table.{Table}

-- The union of `struct orig_hdr` after a header of the packet at `at` has been stored; the rest of
-- it is fresh memory.
unfoldable pub orig_hdr : Env → List ℕ → ℕ → OrigHdr
orig_hdr env pkt at =
    let ip = read_ip pkt at in
    let behind = drop (at + ip_len) pkt in
    record {
      ip = ip;
      t =
          if ip.protocol == protocol_tcp
          then take tcp_len behind
          else if ip.protocol == protocol_udp
          then take udp_len behind ++ drop udp_len (take tcp_len env.stale)
          else take tcp_len env.stale;
    }

module _ (T : Table) where
  -- The globals of compact.c, and the heap; addresses from `fresh` on are free.
  pub record Flows : Type 0 where
    pub sflow_hmap : T.Map
    pub rflow_hmap : T.Map
    pub sflow_rindex : ℕ → Option ℕ
    pub idp : Pool
    pub sflow : ℕ → Option SFlow
    pub rflow : ℕ → Option RFlow
    pub fresh : ℕ

  abbrev pub compact_init : Flows
  compact_init = record {
    sflow_hmap = T.init;
    rflow_hmap = T.init;
    sflow_rindex = λ i. none;
    idp = init_idpool (2 ^ n_id_bits);
    sflow = λ p. none;
    rflow = λ p. none;
    fresh = 0;
  }

  -- The first of these nodes that has the key.
  unfoldable pub find_sflow : Flows → SKey → List ℕ → Option (Option ℕ)
  find_sflow c key [] = some none
  find_sflow c key (p ∷ ps) =
      let rest = find_sflow c key ps in
      do n ← c.sflow p; if skey_same n.skey key then some (some p) else rest

  unfoldable pub get_sflow_by_hash : Flows → ℕ → SKey → Option (Option ℕ)
  get_sflow_by_hash c hval key = find_sflow c key (T.with_hash c.sflow_hmap hval)

  unfoldable pub find_rflow : Flows → RKey → List ℕ → Option (Option ℕ)
  find_rflow c key [] = some none
  find_rflow c key (p ∷ ps) =
      let rest = find_rflow c key ps in
      do n ← c.rflow p; if rkey_same n.rkey key then some (some p) else rest

  unfoldable pub get_rflow_by_hash : Flows → ℕ → RKey → Option (Option ℕ)
  get_rflow_by_hash c hval key = find_rflow c key (T.with_hash c.rflow_hmap hval)

  abbrev pub put_sflow : ℕ → SFlow → Flows → Flows
  put_sflow p n c = record c { sflow = update c.sflow p (some n) }

  abbrev pub put_rflow : ℕ → RFlow → Flows → Flows
  put_rflow p n c = record c { rflow = update c.rflow p (some n) }

  abbrev pub new_sflow : Env → SKey → List ℕ → ℕ → SFlow
  new_sflow env key ippkt fid = record {
    state = state_new;
    skey = key;
    hdr = orig_hdr env ippkt 0;
    fid = fid;
    soft_timeout = timeout_at env;
  }

  -- The node, and its entries in the table and in the index.
  unfoldable pub build_sflow_by_hash : Env → ℕ → SKey → List ℕ → ℕ → Flows → ℕ × Flows
  build_sflow_by_hash env hval key ippkt fid c = (
    c.fresh,
    record c {
      sflow = update c.sflow c.fresh (some (new_sflow env key ippkt fid));
      sflow_hmap = T.insert c.sflow_hmap c.fresh hval;
      fresh = c.fresh + 1;
    },
  )

  abbrev pub new_rflow : Env → RKey → List ℕ → RFlow
  new_rflow env key cpkt = record {
    rkey = key;
    hdr = orig_hdr env cpkt chdr_len;
    fid = (read_chdr cpkt).id;
    soft_timeout = timeout_at env;
  }

  unfoldable pub build_rflow_by_hash : Env → ℕ → RKey → List ℕ → Flows → ℕ × Flows
  build_rflow_by_hash env hval key cpkt c = (
    c.fresh,
    record c {
      rflow = update c.rflow c.fresh (some (new_rflow env key cpkt));
      rflow_hmap = T.insert c.rflow_hmap c.fresh hval;
      fresh = c.fresh + 1;
    },
  )

  abbrev pub get_rflow_key : List ℕ → RKey
  get_rflow_key cpkt = record { smac = (read_chdr cpkt).smac; id = (read_chdr cpkt).id }

  -- A flow that has timed out gives its id back.
  unfoldable pub expire_sflow : ℕ → SFlow → Flows → Option Flows
  expire_sflow p n c = do
    idp ← release_id c.idp n.fid
    some (record c {
      sflow_hmap = T.remove c.sflow_hmap p;
      sflow_rindex = update c.sflow_rindex n.fid none;
      sflow = update c.sflow p none;
      idp = idp;
    })

  -- The loops of `timer_event` over the nodes of a table.
  unfoldable pub sflow_timers : Env → List ℕ → Flows → Option Flows
  sflow_timers env [] c = some c
  sflow_timers env (p ∷ ps) c = do
    n ← c.sflow p
    c' ← (if is_live env.now n.soft_timeout then some c else expire_sflow p n c)
    sflow_timers env ps c'

  unfoldable pub rflow_timers : Env → List ℕ → Flows → Option Flows
  rflow_timers env [] c = some c
  rflow_timers env (p ∷ ps) c = do
    n ← c.rflow p
    let expired : Flows = record c {
      rflow_hmap = T.remove c.rflow_hmap p;
      rflow = update c.rflow p none;
    }
    rflow_timers env ps (if is_live env.now n.soft_timeout then c else expired)

  unfoldable pub timer_event : Env → Flows → Option Flows
  timer_event env c = do
    c' ← sflow_timers env (T.nodes c.sflow_hmap) c
    rflow_timers env (T.nodes c'.rflow_hmap) c'
