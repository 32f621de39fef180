-- ===== src/Compact/Tests/History.antt =====
-- Two nodes with a table of rows: a connection, a timer, a query.
use ipcf.Common.{
  ℕ, ◌+◌, ◌-◌, ◌≡◌, ◌<◌, ◌⊎◌, refl, true, false, Option, none, some, List, [], ◌∷◌, ◌++◌, arith,
  take, drop, replicate, length,
}
use ipcf.Csum.{csum_add16, csum_continue, csum_finish, csum}
use ipcf.Idpool.{ids_from, init_idpool, get_id}
use ipcf.Idpool.Refine.{Holds}
use ipcf.Compact.Ipv4.{ip_bytes, read_tcp}
use ipcf.Compact.Types.{copy, fill_pkt, state_established, SFlow, RFlow, Env, is_live, skey_same}
use ipcf.Compact.Encode.{is_raw, get_sflow_key, whole_pkt, build_ctl, tcp_frame}
use ipcf.Compact.Decode.{finish_ip}
use ipcf.Compact.Table.{has, Distinct}
use ipcf.Compact.Table.Rows.{rows, rows-Laws}
use ipcf.Compact.Flows.{
  Flows, orig_hdr, new_sflow, compact_init, timer_event, put_sflow, get_rflow_by_hash, find_rflow,
  find_sflow, get_sflow_by_hash, build_sflow_by_hash,
}
use ipcf.Compact.Xmit.{can_compact, xmit_flow, make_flow, flow_of, xmit_compress, recv_compress}
use ipcf.Compact.RoundTrip.Tcp.{IsTcp}
use ipcf.Compact.Inv.Keyed.{init-Keyed}
use ipcf.Compact.Inv.Events.{Event, sends, event, events, init-Inv, events-Inv}
use ipcf.Compact.Inv.Sends.{IsWhole, Fate}
use ipcf.Compact.Inv.Safety.{fids-differ, keys-differ, ids-kept, timer-sweeps, send-Fate}
use ipcf.Compact.Link.Connection.{Announced, SameFlow, next_ip, connection}
use ipcf.Compact.Tests.{hello, again, query, are_bytes-IsByte}

abbrev env : Env
env = record { now = 1000; stale = replicate 20 0 }

abbrev late : Env
late = record { now = 50000; stale = replicate 20 0 }

abbrev sum : List ℕ → ℕ
sum [] = 0
sum (x ∷ xs) = x + sum xs

abbrev start : Flows rows
start = compact_init rows

abbrev history : List Event
history = sends env hello ∷ sends env query ∷ []

abbrev or_start : Option (Flows rows) → Flows rows
or_start none = start
or_start (some c) = c

abbrev after : Flows rows
after = or_start (events rows sum history start)

history-after : events rows sum history start ≡ some after
unfolding events event xmit_compress flow_of make_flow get_sflow_by_hash find_sflow
    build_sflow_by_hash get_id init_idpool ids_from can_compact csum csum_continue csum_add16
    csum_finish xmit_flow skey_same get_sflow_key is_raw whole_pkt copy fill_pkt orig_hdr
history-after = refl

-- The two flows, with identifiers 0 and 1.
known : (has 0 (rows.nodes after.sflow_hmap) ≡ true) × (has 1 (rows.nodes after.sflow_hmap) ≡ true)
unfolding events event xmit_compress flow_of make_flow get_sflow_by_hash find_sflow
    build_sflow_by_hash get_id init_idpool ids_from can_compact csum csum_continue csum_add16
    csum_finish xmit_flow skey_same get_sflow_key is_raw whole_pkt copy fill_pkt orig_hdr
known = (refl, refl)

abbrev node : Option SFlow → SFlow
node none = new_sflow rows env (get_sflow_key hello) hello 0
node (some n) = n

abbrev greeting : SFlow
greeting = node (after.sflow 0)

stored : after.sflow 0 ≡ some greeting
unfolding events event xmit_compress flow_of make_flow get_sflow_by_hash find_sflow
    build_sflow_by_hash get_id init_idpool ids_from can_compact csum csum_continue csum_add16
    csum_finish xmit_flow skey_same get_sflow_key is_raw whole_pkt copy fill_pkt orig_hdr
stored = refl

-- The flow that the index has for identifier 0.
abbrev or_0 : Option ℕ → ℕ
or_0 none = 0
or_0 (some p) = p

abbrev holder : ℕ
holder = or_0 (after.sflow_rindex 0)

holder-known :
    (has holder (rows.nodes after.sflow_hmap) ≡ true) × (after.sflow holder ≡ some greeting)
unfolding events event xmit_compress flow_of make_flow get_sflow_by_hash find_sflow
    build_sflow_by_hash get_id init_idpool ids_from can_compact csum csum_continue csum_add16
    csum_finish xmit_flow skey_same get_sflow_key is_raw whole_pkt copy fill_pkt orig_hdr
holder-known = (refl, refl)

fids-differ_example : holder ≡ 0
fids-differ_example =
    fids-differ rows rows-Laws sum history after history-after holder 0 greeting greeting
      holder-known.0 known.0 holder-known.1 stored refl

ids-kept_example :
    (free : List ℕ) × Holds after.idp free
    × Distinct free
    × ((f : ℕ)
        → f < 256
        → (has f free ≡ true)
          ⊎ ((p : ℕ) × (n : SFlow) × (has p (rows.nodes after.sflow_hmap) ≡ true)
              × (after.sflow p ≡ some n)
              × (n.fid ≡ f)))
    × ((p : ℕ) (n : SFlow)
        → has p (rows.nodes after.sflow_hmap) ≡ true
        → after.sflow p ≡ some n
        → has n.fid free ≡ false)
ids-kept_example = ids-kept rows rows-Laws sum history after history-after

timer-sweeps_example :
    (c' : Flows rows) × (free : List ℕ) × (timer_event rows late after ≡ some c')
    × Holds c'.idp free
    × ((p : ℕ) (n : SFlow)
        → has p (rows.nodes after.sflow_hmap) ≡ true
        → after.sflow p ≡ some n
        → (has p (rows.nodes c'.sflow_hmap) ≡ is_live late.now n.soft_timeout)
          × (is_live late.now n.soft_timeout ≡ false → has n.fid free ≡ true))
    × ((p : ℕ) (n : RFlow)
        → has p (rows.nodes after.rflow_hmap) ≡ true
        → after.rflow p ≡ some n
        → has p (rows.nodes c'.rflow_hmap) ≡ is_live late.now n.soft_timeout)
    × ((p : ℕ)
        → has p (rows.nodes c'.sflow_hmap) ≡ true
        → (has p (rows.nodes after.sflow_hmap) ≡ true) × (c'.sflow p ≡ after.sflow p))
    × ((p : ℕ)
        → has p (rows.nodes c'.rflow_hmap) ≡ true
        → (has p (rows.nodes after.rflow_hmap) ≡ true) × (c'.rflow p ≡ after.rflow p))
timer-sweeps_example = timer-sweeps rows rows-Laws sum history after history-after late

again-IsWhole : IsWhole again 41
unfolding is_raw
again-IsWhole = record {
  in_buffer = record {
    tot_len = refl;
    at_least = omega arith;
    at_most = omega arith;
    room = omega arith;
  };
  unfragmented = refl;
  tcp_room = λ e. omega arith;
}

send-Fate_example :
    (pkts : List (List ℕ)) × (c' : Flows rows) × (xmit_compress rows sum env again after
      ≡ some (pkts, c'))
    × Fate rows sum env again 41 pkts after c' (get_id after.idp ≡ some (none, after.idp))
send-Fate_example =
    send-Fate rows rows-Laws sum history after history-after env again 41 again-IsWhole

keys-differ_example :
    ((q : ℕ) (m : SFlow)
      → has q (rows.nodes after.sflow_hmap) ≡ true
      → after.sflow q ≡ some m
      → greeting.skey ≡ m.skey
      → 0 ≡ q)
    × ((env : Env) (ippkt : List ℕ)
        → get_sflow_key ippkt ≡ greeting.skey
        → flow_of rows sum env ippkt after ≡ some (some 0, after))
keys-differ_example =
    keys-differ rows rows-Laws sum history after history-after 0 greeting known.0 stored

hello-Announced : Announced rows rows-Laws sum after start 0 greeting hello
unfolding events event xmit_compress flow_of make_flow get_sflow_by_hash find_sflow
    build_sflow_by_hash get_id init_idpool ids_from can_compact csum csum_continue csum_add16
    csum_finish xmit_flow skey_same get_sflow_key is_raw whole_pkt copy fill_pkt orig_hdr
    get_rflow_by_hash find_rflow
hello-Announced =
    let (free, inv, keyed) =
      events-Inv rows sum rows-Laws history start after (ids_from 0 256)
        (init-Inv rows sum rows-Laws) (init-Keyed rows sum rows-Laws) history-after in
    record {
      stored = refl;
      index = refl;
      env = env;
      hdr = refl;
      is_first = record {
        bytes = are_bytes-IsByte hello refl;
        room = omega arith;
        protocol = refl;
      };
      free = free;
      sender = inv;
      free' = ids_from 0 256;
      receiver = init-Inv rows sum rows-Laws;
      unknown = refl;
    }

connection_example :
    (ack : List ℕ) × (d' : Flows rows) × (recv_compress rows sum env
        (build_ctl greeting ++ [])
        43
        start
      ≡ some (none, some ack, d'))
    × (recv_compress rows sum late (ack ++ []) 3 after
        ≡ some (none, none, put_sflow rows 0 (record greeting { state = state_established }) after))
    × ((at : Env) (ippkt : List ℕ) (tot : ℕ)
        → IsTcp ippkt tot
        → SameFlow (read_tcp hello 20) (read_tcp ippkt 20)
        → (fr : List ℕ) × (d'' : Flows rows) × (tcp_frame greeting.fid ippkt ≡ some fr)
          × ((more : List ℕ)
              → recv_compress rows sum at (fr ++ more) (length fr) d'
                ≡ some (
                  some
                      (ip_bytes (finish_ip (next_ip hello) tot) ++ take (tot - 20) (drop 20 ippkt)),
                  none,
                  d'',
                )))
connection_example =
    connection rows rows-Laws sum after start 0 greeting hello hello-Announced env late [] [] 43 3
