-- ===== src/Compact/Inv/Timers.antt =====
-- The loops of `timer_event` of compact.c.
use ipcf.Common.{
  ℕ, ◌≡◌, ◌∙◌, sym, refl, ap, inl, inr, Bool-cases, Bool, true, false, not, if◌then◌else◌, ◌||◌,
  some, List, [], ◌∷◌, ◌++◌, arith, ◌==◌,
}
use ipcf.Compact.Types.{SFlow, Env, is_live}
use ipcf.Compact.Table.{Table, Laws, has, Distinct}
use ipcf.Idpool.{release_id}
use ipcf.Common.Fault.{>>=-eq-some}
use ipcf.Compact.Flows.{Flows, expire_sflow, sflow_timers, rflow_timers, timer_event}
use ipcf.Compact.Inv.{Inv}
use ipcf.Compact.Inv.Expire.{remains, stays, elsewhere, expire-Inv}
use ipcf.Compact.Inv.Swept.{
  Swept, Swept-live, Swept-expired, RSwept, RSwept-live, without, RSwept-expired,
}

module _ (T : Table) (L : Laws T) where
  -- The loop over nodes of the table.
  sflow_timers-Inv :
      (env : Env) (ps : List ℕ) (c : Flows T) (free : List ℕ)
      → Distinct ps
      → ((r : ℕ) → has r ps ≡ true → has r (T.nodes c.sflow_hmap) ≡ true)
      → Inv T L c free
      → (c' : Flows T) × (free' : List ℕ) × (sflow_timers T env ps c ≡ some c')
        × Inv T L c' free'
        × Swept T env ps c c'
  unfolding sflow_timers
  sflow_timers-Inv env [] c free d known inv =
      let stay : Swept T env [] c c = record {
        none_new = λ r h. h;
        left = λ r n h e. h;
        same = λ r h. refl;
        placed = λ r k h e. e;
      } in
      (c, free, refl, inv, stay)
  sflow_timers-Inv env (p ∷ ps) c free d known inv =
      let here : has p (T.nodes c.sflow_hmap) ≡ true = known p (ground arith) in
      let later : (r : ℕ) → has r ps ≡ true → has r (T.nodes c.sflow_hmap) ≡ true =
        λ r h. known r (ground (arith, h)) in
      let old = inv.live p here in
      elim (Bool-cases (is_live env.now old.node.soft_timeout)) [
        | inl q ↦
            let (c', free', ran, inv', swept) = sflow_timers-Inv env ps c free d.1 later inv in
            (
              c',
              free',
              rw (old.stored, q) ran,
              inv',
              Swept-live T env p ps c c' old.node old.stored q swept,
            )
        | inr q ↦
            let (c1, ran1, inv1, left, alike, hashed) =
              expire-Inv T L c free p old.node inv here old.stored in
            let known1 : (r : ℕ) → has r ps ≡ true → has r (T.nodes c1.sflow_hmap) ≡ true =
              λ r h. stays (r == p) _ _ (left r) (elsewhere r p ps h d.0) (later r h) in
            let (c', free', ran, inv', swept) =
              sflow_timers-Inv env ps c1 (free ++ (old.node.fid ∷ [])) d.1 known1 inv1 in
            (
              c',
              free',
              rw (old.stored, q, ran1) ran,
              inv',
              Swept-expired T env p ps c c1 c' old.node here old.stored q d.0 left alike hashed
                  swept,
            )
      ]

  -- A receive flow is removed.
  expire_rflow-Inv :
      (c : Flows T) (free : List ℕ) (p : ℕ)
      → Inv T L c free
      → has p (T.nodes c.rflow_hmap) ≡ true
      → Inv T L (without T p c) free
  expire_rflow-Inv c free p inv known = record {
    held = inv.held;
    size = inv.size;
    different = inv.different;
    ids = inv.ids;
    stable = inv.stable;
    rtable = L.remove-IsTable c.rflow_hmap p known inv.rtable;
    live = λ r h.
        let old = inv.live r h in
        record {
          node = old.node;
          stored = old.stored;
          small = old.small;
          index = old.index;
          taken = old.taken;
          old = old.old;
        };
    indexed = inv.indexed;
    kept = inv.kept;
    rlive = λ r h.
        let (away, was) = remains (r == p) _ _ (L.has-remove c.rflow_hmap p r known) h in
        let (old, m, stored) = inv.rlive r was in (old, m, rw away stored);
  }

  rflow_timers-Inv :
      (env : Env) (ps : List ℕ) (c : Flows T) (free : List ℕ)
      → Distinct ps
      → ((r : ℕ) → has r ps ≡ true → has r (T.nodes c.rflow_hmap) ≡ true)
      → Inv T L c free
      → (c' : Flows T) × (rflow_timers T env ps c ≡ some c')
        × Inv T L c' free
        × (c'.sflow ≡ c.sflow)
        × (c'.sflow_hmap ≡ c.sflow_hmap)
        × RSwept T env ps c c'
  unfolding rflow_timers
  rflow_timers-Inv env [] c free d known inv =
      let stay : RSwept T env [] c c = record {
        none_new = λ r h. h;
        left = λ r n h e. h;
        same = λ r h. refl;
      } in
      (c, refl, inv, refl, refl, stay)
  rflow_timers-Inv env (p ∷ ps) c free d known inv =
      let here : has p (T.nodes c.rflow_hmap) ≡ true = known p (ground arith) in
      let later : (r : ℕ) → has r ps ≡ true → has r (T.nodes c.rflow_hmap) ≡ true =
        λ r h. known r (ground (arith, h)) in
      let (old, m, stored) = inv.rlive p here in
      elim (Bool-cases (is_live env.now m.soft_timeout)) [
        | inl q ↦
            let (c', ran, inv', alike, table, swept) =
              rflow_timers-Inv env ps c free d.1 later inv in
            (
              c',
              rw (stored, q) ran,
              inv',
              alike,
              table,
              RSwept-live T env p ps c c' m stored q swept,
            )
        | inr q ↦
            let c1 = without T p c in
            let known1 : (r : ℕ) → has r ps ≡ true → has r (T.nodes c1.rflow_hmap) ≡ true = λ r h.
              stays (r == p) _ _ (L.has-remove c.rflow_hmap p r here) (elsewhere r p ps h d.0)
                (later r h) in
            let (c', ran, inv', alike, table, swept) =
              rflow_timers-Inv env ps c1 free d.1 known1 (expire_rflow-Inv c free p inv here) in
            (
              c',
              rw (stored, q) ran,
              inv',
              alike,
              table,
              RSwept-expired T env p ps c c' m stored q d.0
                  (λ r. L.has-remove c.rflow_hmap p r here) swept,
            )
      ]

  one_timer-rflows :
      (b : Bool) (p : ℕ) (n : SFlow) (c c1 : Flows T)
      → (if b then some c else expire_sflow T p n c) ≡ some c1
      → (c1.rflow_hmap ≡ c.rflow_hmap) × (c1.rflow ≡ c.rflow)
  unfolding expire_sflow
  one_timer-rflows true p n c c1 e = ground (arith, e)
  one_timer-rflows false p n c c1 e =
      let (idp, ran, e1) = >>=-eq-some (release_id c.idp n.fid) _ e in ground (arith, e1)

  -- The loop over the send flows leaves the receive flows as they are.
  sflow_timers-rflows :
      (env : Env) (ps : List ℕ) (c c' : Flows T)
      → sflow_timers T env ps c ≡ some c'
      → (c'.rflow_hmap ≡ c.rflow_hmap) × (c'.rflow ≡ c.rflow)
  unfolding sflow_timers
  sflow_timers-rflows env [] c c' e = ground (arith, e)
  sflow_timers-rflows env (p ∷ ps) c c' e =
      let (n, stored, e1) = >>=-eq-some (c.sflow p) _ e in
      let (c1, one, rest) =
        >>=-eq-some (if is_live env.now n.soft_timeout then some c else expire_sflow T p n c) _
          e1 in
      let (table, heap) = sflow_timers-rflows env ps c1 c' rest in
      let (table1, heap1) = one_timer-rflows (is_live env.now n.soft_timeout) p n c c1 one in
      (table ∙ table1, heap ∙ heap1)

  pub timer_event-Inv :
      (env : Env) (c : Flows T) (free : List ℕ)
      → Inv T L c free
      → (c' : Flows T) × (free' : List ℕ) × (timer_event T env c ≡ some c')
        × Inv T L c' free'
        × Swept T env (T.nodes c.sflow_hmap) c c'
        × RSwept T env (T.nodes c.rflow_hmap) c c'
  unfolding timer_event
  timer_event-Inv env c free inv =
      let (c1, free1, ran1, inv1, swept) =
        sflow_timers-Inv env (T.nodes c.sflow_hmap) c free
          (L.nodes-Distinct c.sflow_hmap inv.stable) (λ r h. h) inv in
      let (c2, ran2, inv2, alike, table, rswept) =
        rflow_timers-Inv env (T.nodes c1.rflow_hmap) c1 free1
          (L.nodes-Distinct c1.rflow_hmap inv1.rtable) (λ r h. h) inv1 in
      let swept2 : Swept T env (T.nodes c.sflow_hmap) c c2 = record {
        none_new = λ r h. ap (λ m. has r (T.nodes m)) table ∙ swept.none_new r h;
        left = λ r n h e. ap (λ m. has r (T.nodes m)) table ∙ swept.left r n h e;
        same =
            λ r h. ap (λ m. m r) alike ∙ swept.same r (ap (λ m. has r (T.nodes m)) (sym table) ∙ h);
        placed = λ r k h e.
            ap (λ m. has r (T.with_hash m k)) table
            ∙ swept.placed r k (ap (λ m. has r (T.nodes m)) (sym table) ∙ h) e;
      } in
      let (rtable, heap) = sflow_timers-rflows env (T.nodes c.sflow_hmap) c c1 ran1 in
      let rswept2 : RSwept T env (T.nodes c.rflow_hmap) c c2 = record {
        none_new = λ r h. rswept.none_new r (ap (λ m. has r (T.nodes m)) rtable ∙ h);
        left = λ r n h e.
            rswept.left r n (ap (λ m. has r (T.nodes m)) rtable ∙ h) (ap (λ m. m r) heap ∙ e)
            ∙ ap (λ m. not (has r (T.nodes m)) || is_live env.now n.soft_timeout) rtable;
        same = λ r h. rswept.same r h ∙ ap (λ m. m r) heap;
      } in
      (c2, free1, rw (ran1, ran2) refl, inv2, swept2, rswept2)
