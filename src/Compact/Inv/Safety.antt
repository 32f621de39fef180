-- ===== src/Compact/Inv/Safety.antt =====
-- What holds of the flows of compact.c after any history of sends, receives and timers.
use ipcf.Common.{
  ℕ, ◌<◌, ◌≡◌, ◌⊎◌, ◌∙◌, sym, refl, ap, inl, inr, Bool, true, false, none, some, List, arith,
}
use ipcf.Idpool.{ids_from, get_id}
use ipcf.Idpool.Refine.{Holds, get_id-none}
use ipcf.Compact.Types.{SFlow, RFlow, Env, is_live}
use ipcf.Compact.Table.{Table, Laws, has, Distinct}
use ipcf.Compact.Flows.{Flows, compact_init, timer_event}
use ipcf.Compact.Xmit.{flow_of, xmit_compress}
use ipcf.Compact.Inv.{Inv}
use ipcf.Compact.Inv.Timers.{timer_event-Inv}
use ipcf.Compact.Inv.Events.{Event, events, init-Inv, events-Inv}
use ipcf.Compact.Inv.Keyed.{Keyed, init-Keyed}
use ipcf.Compact.Inv.Known.{flow_of-known}
use ipcf.Compact.Encode.{get_sflow_key}
use ipcf.Compact.Inv.Sends.{IsWhole, Fate, xmit_compress-Fate}

Bool-not_false : (b : Bool) → (¬ (b ≡ false)) → b ≡ true
Bool-not_false true h = refl
Bool-not_false false h = absurd (h refl)

module _ (T : Table) (L : Laws T) (hash_bytes : List ℕ → ℕ) (es : List Event) (c : Flows T)
    (ran : events T hash_bytes es (compact_init T) ≡ some c) where
  abbrev reached : (free : List ℕ) × Inv T L c free × Keyed T hash_bytes c
  reached =
      events-Inv T hash_bytes L es (compact_init T) c (ids_from 0 256) (init-Inv T hash_bytes L)
        (init-Keyed T hash_bytes L) ran

  -- After any history of calls without a fault, two flows in the table with the same identifier are
  -- the same flow.
  pub fids-differ :
      (p q : ℕ) (n m : SFlow)
      → has p (T.nodes c.sflow_hmap) ≡ true
      → has q (T.nodes c.sflow_hmap) ≡ true
      → c.sflow p ≡ some n
      → c.sflow q ≡ some m
      → n.fid ≡ m.fid
      → p ≡ q
  fids-differ p q n m hp hq sp sq same =
      let (free, inv, keyed) = reached in
      let left = inv.live p hp in
      let right = inv.live q hq in
      let at : left.node.fid ≡ right.node.fid =
        ground (arith, left.stored, sp, right.stored, sq, same) in
      let both : some p ≡ some q = sym left.index ∙ ap c.sflow_rindex at ∙ right.index in
      ground (arith, both)

  small_fid :
      (p : ℕ) (n : SFlow) → has p (T.nodes c.sflow_hmap) ≡ true → c.sflow p ≡ some n → n.fid < 256
  small_fid p n known stored =
      let (free, inv, keyed) = reached in
      let live = inv.live p known in ground (arith, live.stored, stored, live.small)

  -- After any history of calls without a fault, the pool is a queue of different identifiers, and
  -- each of the 256 identifiers is in it or belongs to a flow in the table, but not both.
  pub ids-kept :
      (free : List ℕ) × Holds c.idp free
      × Distinct free
      × ((f : ℕ)
          → f < 256
          → (has f free ≡ true)
            ⊎ ((p : ℕ) × (n : SFlow) × (has p (T.nodes c.sflow_hmap) ≡ true)
                × (c.sflow p ≡ some n)
                × (n.fid ≡ f)))
      × ((p : ℕ) (n : SFlow)
          → has p (T.nodes c.sflow_hmap) ≡ true
          → c.sflow p ≡ some n
          → has n.fid free ≡ false)
  ids-kept =
      let (free, inv, keyed) = reached in
      (
        free,
        inv.held,
        inv.different,
        λ f l. elim (inv.kept f l) [
          | inl e ↦ inl e
          | inr (p, e) ↦
              let (known, n, stored, fid) = inv.indexed f p e in inr (p, n, known, stored, fid)
        ],
        λ p n known stored.
            let live = inv.live p known in
            let one : live.node ≡ n = ground (arith, live.stored, stored) in
            ap (λ (m : SFlow). has m.fid free) (sym one) ∙ live.taken,
      )

  -- After any history of calls without a fault, the timer runs without a fault. Of the flows in the
  -- table of the sender it leaves exactly those that have not timed out, as they were, and the
  -- identifiers of the others are in the pool; of the flows in the table of the receiver it leaves
  -- exactly those that have not timed out, as they were. No flow is new in either table.
  pub timer-sweeps :
      (env : Env)
      → (c' : Flows T) × (free : List ℕ) × (timer_event T env c ≡ some c')
        × Holds c'.idp free
        × ((p : ℕ) (n : SFlow)
            → has p (T.nodes c.sflow_hmap) ≡ true
            → c.sflow p ≡ some n
            → (has p (T.nodes c'.sflow_hmap) ≡ is_live env.now n.soft_timeout)
              × (is_live env.now n.soft_timeout ≡ false → has n.fid free ≡ true))
        × ((p : ℕ) (n : RFlow)
            → has p (T.nodes c.rflow_hmap) ≡ true
            → c.rflow p ≡ some n
            → has p (T.nodes c'.rflow_hmap) ≡ is_live env.now n.soft_timeout)
        × ((p : ℕ)
            → has p (T.nodes c'.sflow_hmap) ≡ true
            → (has p (T.nodes c.sflow_hmap) ≡ true) × (c'.sflow p ≡ c.sflow p))
        × ((p : ℕ)
            → has p (T.nodes c'.rflow_hmap) ≡ true
            → (has p (T.nodes c.rflow_hmap) ≡ true) × (c'.rflow p ≡ c.rflow p))
  timer-sweeps env =
      let (free, inv, keyed) = reached in
      let (c', free', ran', inv', swept, rswept) = timer_event-Inv T L env c free inv in
      (
        c',
        free',
        ran',
        inv'.held,
        λ p n known stored.
            let left : has p (T.nodes c'.sflow_hmap) ≡ is_live env.now n.soft_timeout =
              swept.left p n known stored ∙ rw known refl in
            (
              left,
              λ timed_out. elim (inv'.kept n.fid (small_fid p n known stored)) [
                | inl e ↦ e
                | inr (q, e) ↦
                    let (known_q, m, stored_q, fid) = inv'.indexed n.fid q e in
                    let was : has q (T.nodes c.sflow_hmap) ≡ true =
                      Bool-not_false _ (λ no. ground (arith, swept.none_new q no, known_q)) in
                    let at : q ≡ p =
                      fids-differ q p m n was known (sym (swept.same q known_q) ∙ stored_q) stored
                        fid in
                    absurd (ground (arith, at, known_q, left, timed_out))
              ],
            ),
        λ p n known stored. rswept.left p n known stored ∙ rw known refl,
        λ p h. (Bool-not_false _ (λ no. ground (arith, swept.none_new p no, h)), swept.same p h),
        λ p h. (Bool-not_false _ (λ no. ground (arith, rswept.none_new p no, h)), rswept.same p h),
      )

  -- After any history of calls without a fault, a TCP or UDP packet of at most 2000 bytes that is no
  -- fragment and stands in its buffer with its headers is sent without a fault. One that cannot be
  -- compressed is sent as it is, and the flows stay as they are. Another goes to the flow in the table
  -- with its key, found or new: a new one is announced and the packet follows as it is, one that is not
  -- acknowledged sends the packet as it is, an acknowledged one sends a frame for it; the flow's state
  -- and timer are kept. Nothing is sent only if the pool has no identifier.
  pub send-Fate :
      (env : Env) (ippkt : List ℕ) (tot : ℕ)
      → IsWhole ippkt tot
      → (pkts : List (List ℕ)) × (c' : Flows T) × (xmit_compress T hash_bytes env ippkt c
          ≡ some (pkts, c'))
        × Fate T hash_bytes env ippkt tot pkts c c' (get_id c.idp ≡ some (none, c.idp))
  send-Fate env ippkt tot h =
      let (free, inv, keyed) = reached in
      let (pkts, c', sent, what) =
        xmit_compress-Fate T L hash_bytes env ippkt tot c free inv keyed h in
      (
        pkts,
        c',
        sent,
        elim what [
          | inl untouched ↦ inl untouched
          | inr (inl passes) ↦ inr (inl passes)
          | inr (inr (e, none_free)) ↦ inr (inr (e, get_id-none c.idp (rw none_free at inv.held)))
        ],
      )

  -- After any history of calls without a fault, two flows in the table with the same key are the
  -- same flow, and a packet whose key a flow in the table has goes to that flow, with nothing
  -- changed.
  pub keys-differ :
      (p : ℕ) (n : SFlow)
      → has p (T.nodes c.sflow_hmap) ≡ true
      → c.sflow p ≡ some n
      → ((q : ℕ) (m : SFlow)
          → has q (T.nodes c.sflow_hmap) ≡ true
          → c.sflow q ≡ some m
          → n.skey ≡ m.skey
          → p ≡ q)
        × ((env : Env) (ippkt : List ℕ)
            → get_sflow_key ippkt ≡ n.skey
            → flow_of T hash_bytes env ippkt c ≡ some (some p, c))
  keys-differ p n known stored =
      let (free, inv, keyed) = reached in
      (
        λ q m hq at same. keyed.unique p q n m known hq stored at same,
        λ env ippkt key.
            flow_of-known T hash_bytes L env ippkt c free p n inv keyed known stored key,
      )
