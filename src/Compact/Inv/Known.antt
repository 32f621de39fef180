-- ===== src/Compact/Inv/Known.antt =====
-- The flow of a packet whose key is in the table.
use ipcf.Common.{
  ℕ, ◌≡◌, ◌∙◌, sym, refl, ap, inl, inr, Bool-cases, true, false, some, List, [], ◌∷◌, arith, ◌==◌,
}
use ipcf.Compact.Types.{skey_bytes, skey_same, SFlow, Env}
use ipcf.Compact.Encode.{get_sflow_key}
use ipcf.Compact.Table.{Table, Laws, has}
use ipcf.Compact.Flows.{Flows, find_sflow, get_sflow_by_hash}
use ipcf.Compact.Xmit.{flow_of}
use ipcf.Compact.Inv.{Inv}
use ipcf.Compact.Inv.Keyed.{Keyed, skey_same-eq, skey_same_refl}

module _ (T : Table) (hash_bytes : List ℕ → ℕ) (L : Laws T) where
  -- The search through good pointers that stops at the flow with the key.
  find_sflow-known :
      (c : Flows T) (free : List ℕ) (p : ℕ) (n : SFlow) (ps : List ℕ)
      → Inv T L c free
      → Keyed T hash_bytes c
      → has p (T.nodes c.sflow_hmap) ≡ true
      → c.sflow p ≡ some n
      → ((r : ℕ) → has r ps ≡ true → has r (T.nodes c.sflow_hmap) ≡ true)
      → has p ps ≡ true
      → find_sflow T c n.skey ps ≡ some (some p)
  unfolding find_sflow
  find_sflow-known c free p n [] inv keyed known stored good h = absurd (ground (arith, h))
  find_sflow-known c free p n (q ∷ ps) inv keyed known stored good h =
      let here : has q (T.nodes c.sflow_hmap) ≡ true = good q (ground arith) in
      let old = inv.live q here in
      elim (Bool-cases (skey_same old.node.skey n.skey)) [
        | inl e ↦
            let at =
              keyed.unique q p old.node n here known old.stored stored
                (skey_same-eq old.node.skey n.skey e) in
            rw (old.stored, e, at) refl
        | inr e ↦
            let other : (p == q) ≡ false = elim (Bool-cases (p == q)) [
              | inl f ↦
                  let at : p ≡ q = ground (arith, f) in
                  let one : n ≡ old.node = ground (arith, stored, old.stored, at) in
                  let same : skey_same old.node.skey n.skey ≡ true =
                    ap (λ (m : SFlow). skey_same m.skey n.skey) (sym one) ∙ skey_same_refl n.skey in
                  absurd (ground (arith, same, e))
              | inr f ↦ f
            ] in
            rw (old.stored, e)
              (find_sflow-known c free p n ps inv keyed known stored
                (λ r k. good r (ground (arith, k))) (ground (arith, other, h)))
      ]

  pub flow_of-known :
      (env : Env) (ippkt : List ℕ) (c : Flows T) (free : List ℕ) (p : ℕ) (n : SFlow)
      → Inv T L c free
      → Keyed T hash_bytes c
      → has p (T.nodes c.sflow_hmap) ≡ true
      → c.sflow p ≡ some n
      → get_sflow_key ippkt ≡ n.skey
      → flow_of T hash_bytes env ippkt c ≡ some (some p, c)
  unfolding flow_of get_sflow_by_hash
  flow_of-known env ippkt c free p n inv keyed known stored key =
      let hval = hash_bytes (skey_bytes n.skey) in
      let found =
        find_sflow-known c free p n (T.with_hash c.sflow_hmap hval) inv keyed known stored
          (λ r h. L.has_hash-has c.sflow_hmap r hval h) (keyed.placed p n known stored) in
      rw (key, found) refl
