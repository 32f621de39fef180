-- ===== src/Compact/Inv/Make.antt =====
-- `get_sflow_by_hash` and `build_sflow_by_hash` of compact.c: the flow that a packet is sent in.
use ipcf.Common.{
  ℕ, ◌+◌, ◌<◌, ◌≡◌, ◌∙◌, sym, refl, ap, inl, inr, Bool-cases, true, false, ◌||◌, Option, none, some,
  List, [], ◌∷◌, arith, ◌==◌, Option-cases,
}
use ipcf.Common.Word.{u8}
use ipcf.Split.Types.{update}
use ipcf.Idpool.{Pool}
use ipcf.Idpool.Refine.{Holds, get_id-none, get_id-some}
use ipcf.Compact.Types.{SKey, skey_bytes, skey_same, SFlow, Env}
use ipcf.Compact.Encode.{get_sflow_key}
use ipcf.Compact.Table.{Table, Laws, has}
use ipcf.Compact.Flows.{Flows, find_sflow, get_sflow_by_hash, new_sflow, build_sflow_by_hash}
use ipcf.Compact.Xmit.{make_flow, flow_of}
use ipcf.Compact.Inv.{Inv}
use ipcf.Compact.Inv.Keyed.{Keyed, skey_same_refl, build-Keyed}

module _ (T : Table) where
  -- A node of the table with this key.
  pub record Found (c : Flows T) (key : SKey) (p : ℕ) : Type 0 where
    pub known : has p (T.nodes c.sflow_hmap) ≡ true
    pub node : SFlow
    pub stored : c.sflow p ≡ some node
    pub same : skey_same node.skey key ≡ true

  module _ (L : Laws T) where
    find_sflow-Found :
        (c : Flows T) (free : List ℕ) (key : SKey) (ps : List ℕ)
        → Inv T L c free
        → ((r : ℕ) → has r ps ≡ true → has r (T.nodes c.sflow_hmap) ≡ true)
        → (o : Option ℕ) × (find_sflow T c key ps ≡ some o) × ((p : ℕ) → o ≡ some p → Found c key p)
    unfolding find_sflow
    find_sflow-Found c free key [] inv h = (none, refl, λ p e. absurd (ground (arith, e)))
    find_sflow-Found c free key (p ∷ ps) inv h =
        let here : has p (T.nodes c.sflow_hmap) ≡ true = h p (ground arith) in
        let old = inv.live p here in
        elim (Bool-cases (skey_same old.node.skey key)) [
          | inl q ↦ (
            some p,
            rw (old.stored, q) refl,
            λ r e.
                let at : r ≡ p = ground (arith, e) in
                record { known = rw at here; node = old.node; stored = rw at old.stored; same = q },
          )
          | inr q ↦
              let (o, ran, found) =
                find_sflow-Found c free key ps inv (λ r m. h r (ground (arith, m))) in
              (o, rw (old.stored, q) ran, found)
        ]

    -- A packet's new flow, at an identifier that was free.
    build-Inv :
        (c : Flows T) (hval x : ℕ) (q : List ℕ) (idp : Pool) (n : SFlow)
        → Inv T L c (x ∷ q)
        → Holds idp q
        → idp.n ≡ c.idp.n
        → n.fid ≡ x
        → (c' : Flows T) × (c' ≡ record {
          sflow_hmap = T.insert c.sflow_hmap c.fresh hval;
          rflow_hmap = c.rflow_hmap;
          sflow_rindex = update c.sflow_rindex x (some c.fresh);
          idp = idp;
          sflow = update c.sflow c.fresh (some n);
          rflow = c.rflow;
          fresh = c.fresh + 1;
        })
          × Inv T L c' q
          × (has c.fresh (T.nodes c'.sflow_hmap) ≡ true)
    build-Inv c hval x q idp n inv held size fid =
        let absent : has c.fresh (T.nodes c.sflow_hmap) ≡ false =
          elim (Bool-cases (has c.fresh (T.nodes c.sflow_hmap))) [
            | inl y ↦ absurd (omega (arith, (inv.live c.fresh y).old))
            | inr y ↦ y
          ] in
        let now : (r : ℕ)
            → has r (T.nodes (T.insert c.sflow_hmap c.fresh hval))
              ≡ (r == c.fresh || has r (T.nodes c.sflow_hmap)) =
          λ r. L.has-insert c.sflow_hmap c.fresh hval r absent in
        let other : (r : ℕ) → has r (T.nodes c.sflow_hmap) ≡ true → (r == c.fresh) ≡ false =
          λ r h. let o : r < c.fresh = (inv.live r h).old in ground (arith, o) in
        (
          _,
          refl,
          record {
            held = held;
            size = size ∙ inv.size;
            different = inv.different.1;
            ids = inv.ids.1;
            stable = L.insert-IsTable c.sflow_hmap c.fresh hval absent inv.stable;
            rtable = inv.rtable;
            live = λ r h. elim (Bool-cases (r == c.fresh)) [
              | inl e ↦ record {
                node = n;
                stored = rw e refl;
                small = ground (arith, fid, inv.ids.0);
                index = ground (arith, fid, e);
                taken = rw fid inv.different.0;
                old = ground (arith, e);
              }
              | inr e ↦
                  let old = inv.live r (sym (now r ∙ rw e refl) ∙ h) in
                  let apart : (old.node.fid == x) ≡ false = ground (arith, old.taken) in
                  record {
                    node = old.node;
                    stored = rw e old.stored;
                    small = old.small;
                    index = rw apart old.index;
                    taken = ground (arith, old.taken);
                    old = omega (arith, old.old);
                  }
            ];
            indexed = λ f r h. elim (Bool-cases (f == x)) [
              | inl e ↦
                  let at : r ≡ c.fresh = ground (arith, e, h) in
                  (now r ∙ rw at (ground arith), n, rw at (ground arith), fid ∙ ground (arith, e))
              | inr e ↦
                  let (there, m, at, id) = inv.indexed f r (ground (arith, e, h)) in
                  (now r ∙ rw (there, other r there) refl, m, rw (other r there) at, id)
            ];
            kept = λ f h. elim (Bool-cases (f == x)) [
              | inl e ↦ inr (c.fresh, rw e refl)
              | inr e ↦ elim (inv.kept f h) [
                | inl k ↦ inl (ground (arith, e, k))
                | inr (r, k) ↦ inr (r, rw e k)
              ]
            ];
            rlive = λ r h. let (old, m, stored) = inv.rlive r h in (omega arith, m, stored);
          },
          now c.fresh ∙ ground arith,
        )

    make_flow-Found :
        (hash_bytes : List ℕ → ℕ) (env : Env) (key : SKey) (ippkt : List ℕ) (c : Flows T)
        (free : List ℕ)
        → Inv T L c free
        → Keyed T hash_bytes c
        → get_sflow_by_hash T c (hash_bytes (skey_bytes key)) key ≡ some none
        → (o : Option ℕ) × (c' : Flows T) × (free' : List ℕ) × (make_flow T hash_bytes env
              (hash_bytes (skey_bytes key))
              key
              ippkt
              c
            ≡ some (o, c'))
          × Inv T L c' free'
          × ((p : ℕ) → o ≡ some p → Found c' key p)
          × (o ≡ none → free ≡ [])
          × Keyed T hash_bytes c'
    unfolding make_flow build_sflow_by_hash
    make_flow-Found hash_bytes env key ippkt c [] inv keyed unknown = (
      none,
      c,
      [],
      rw (get_id-none c.idp inv.held) refl,
      inv,
      λ p e. absurd (ground (arith, e)),
      λ e. refl,
      keyed,
    )
    make_flow-Found hash_bytes env key ippkt c (x ∷ q) inv keyed unknown =
        let (idp, ran, held, size) = get_id-some c.idp x q inv.held in
        let byte : u8 x ≡ x = omega (arith, inv.ids.0) in
        let n : SFlow = new_sflow T env key ippkt x in
        let (c', made, inv', known) =
          build-Inv c (hash_bytes (skey_bytes key)) x q idp n inv held size refl in
        (
          some c.fresh,
          c',
          q,
          rw (ran, byte) (ap (λ (d : Flows T). some (some c.fresh, d)) (sym made)),
          inv',
          λ p e.
              let at : p ≡ c.fresh = ground (arith, e) in
              record {
                known = rw at known;
                node = n;
                stored = ap (λ (d : Flows T). d.sflow p) made ∙ rw at (ground arith);
                same = skey_same_refl key;
              },
          λ e. absurd (ground (arith, e)),
          build-Keyed T hash_bytes L c c' (x ∷ q) n inv keyed unknown
              (ap (λ (d : Flows T). d.sflow_hmap) made) (ap (λ (d : Flows T). d.sflow) made),
        )

    -- The flow of a packet has the packet's key. There is none if no identifier is free.
    pub flow_of-Found :
        (hash_bytes : List ℕ → ℕ) (env : Env) (ippkt : List ℕ) (c : Flows T) (free : List ℕ)
        → Inv T L c free
        → Keyed T hash_bytes c
        → (o : Option ℕ) × (c' : Flows T) × (free' : List ℕ) × (flow_of T hash_bytes env ippkt c
            ≡ some (o, c'))
          × Inv T L c' free'
          × ((p : ℕ) → o ≡ some p → Found c' (get_sflow_key ippkt) p)
          × (o ≡ none → free ≡ [])
          × Keyed T hash_bytes c'
    unfolding flow_of get_sflow_by_hash
    flow_of-Found hash_bytes env ippkt c free inv keyed =
        let key = get_sflow_key ippkt in
        let hval = hash_bytes (skey_bytes key) in
        let (o, ran, found) =
          find_sflow-Found c free key (T.with_hash c.sflow_hmap hval) inv
            (λ r h. L.has_hash-has c.sflow_hmap r hval h) in
        elim (Option-cases o) [
          | inr (p, e) ↦ (
            some p,
            c,
            free,
            rw (ran, e) refl,
            inv,
            λ r at. found r (e ∙ at),
            λ n. absurd (ground (arith, n)),
            keyed,
          )
          | inl e ↦
              let (o', c', free', ran', inv', found', full, keyed') =
                make_flow-Found hash_bytes env key ippkt c free inv keyed (ran ∙ ap some e) in
              (o', c', free', rw (ran, e) ran', inv', found', full, keyed')
        ]
