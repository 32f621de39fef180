-- ===== src/Compact/Link/Find.antt =====
-- `get_rflow_by_hash` of compact.c: the search for the flow of a frame.
use ipcf.Common.{
  ℕ, ◌+◌, ◌≡◌, ◌∙◌, refl, inl, inr, Bool-cases, true, false, ◌||◌, ◌&&◌, Option, none, some, List,
  [], ◌∷◌, arith, ◌==◌,
}
use ipcf.Common.Fault.{>>=-eq-some}
use ipcf.Split.Types.{update}
use ipcf.Compact.Types.{RKey, rkey_same, RFlow, Env}
use ipcf.Compact.Table.{Table, Laws, has}
use ipcf.Compact.Flows.{
  Flows, find_rflow, get_rflow_by_hash, put_rflow, new_rflow, build_rflow_by_hash,
}
use ipcf.Compact.Inv.{Inv}

pub rkey_same_refl : (k : RKey) → rkey_same k k ≡ true
unfolding rkey_same
rkey_same_refl k = ground arith

module _ (T : Table) where
  -- A receive flow that is stored and has another key.
  abbrev Other : Flows T → RKey → ℕ → Type 0
  Other d key r = (n : RFlow) × (d.rflow r ≡ some n) × (rkey_same n.rkey key ≡ false)

  find_rflow-Other :
      (d : Flows T) (key : RKey) (ps : List ℕ)
      → find_rflow T d key ps ≡ some none
      → (r : ℕ) → has r ps ≡ true
      → Other d key r
  unfolding find_rflow
  find_rflow-Other d key [] e r h = absurd (ground (arith, h))
  find_rflow-Other d key (p ∷ ps) e r h =
      let (n, stored, at) = >>=-eq-some (d.rflow p) _ e in
      elim (Bool-cases (rkey_same n.rkey key)) [
        | inl q ↦ absurd (ground (arith, q, at))
        | inr q ↦ elim (Bool-cases (r == p)) [
          | inl same ↦ let here : r ≡ p = ground (arith, same) in (n, rw here stored, q)
          | inr other ↦
              find_rflow-Other d key ps (ground (arith, q, at)) r (ground (arith, other, h))
        ]
      ]

  find_rflow-one :
      (d : Flows T) (key : RKey) (p : ℕ) (n : RFlow) (ps : List ℕ)
      → d.rflow p ≡ some n
      → rkey_same n.rkey key ≡ true
      → ((r : ℕ) → has r ps ≡ true → (r == p) ≡ false → Other d key r)
      → has p ps ≡ true
      → find_rflow T d key ps ≡ some (some p)
  unfolding find_rflow
  find_rflow-one d key p n [] stored same others h = absurd (ground (arith, h))
  find_rflow-one d key p n (q ∷ ps) stored same others h = elim (Bool-cases (q == p)) [
    | inl e ↦ let at : q ≡ p = ground (arith, e) in rw (at, stored, same) refl
    | inr e ↦
        let (m, stored_q, differs) = others q (ground arith) e in
        rw (stored_q, differs)
          (find_rflow-one d key p n ps stored same (λ r k. others r (ground (arith, k)))
            (ground (arith, e, h)))
  ]

  -- The search among good pointers is no fault.
  find_rflow-some :
      (d : Flows T) (key : RKey) (ps : List ℕ)
      → ((r : ℕ) → has r ps ≡ true → (n : RFlow) × (d.rflow r ≡ some n))
      → (o : Option ℕ) × (find_rflow T d key ps ≡ some o)
  unfolding find_rflow
  find_rflow-some d key [] good = (none, refl)
  find_rflow-some d key (p ∷ ps) good =
      let (n, stored) = good p (ground arith) in
      let (o, ran) = find_rflow-some d key ps (λ r h. good r (ground (arith, h))) in
      elim (Bool-cases (rkey_same n.rkey key)) [
        | inl e ↦ (some p, rw (stored, e) refl)
        | inr e ↦ (o, rw (stored, e) ran)
      ]

  find_rflow-put_rflow :
      (d : Flows T) (key : RKey) (p : ℕ) (n n' : RFlow) (ps : List ℕ)
      → d.rflow p ≡ some n
      → n'.rkey ≡ n.rkey
      → find_rflow T (put_rflow T p n' d) key ps ≡ find_rflow T d key ps
  unfolding find_rflow
  find_rflow-put_rflow d key p n n' [] stored same = refl
  find_rflow-put_rflow d key p n n' (q ∷ ps) stored same =
      let ih = find_rflow-put_rflow d key p n n' ps stored same in
      elim (Bool-cases (q == p)) [
        | inl e ↦ let at : q ≡ p = ground (arith, e) in rw (e, at, stored, same, ih) refl
        | inr e ↦ rw (e, ih) refl
      ]

  -- A flow that takes the place of one with its key does not change the search.
  pub get_rflow_by_hash-put_rflow :
      (d : Flows T) (hval : ℕ) (key : RKey) (p : ℕ) (n n' : RFlow)
      → d.rflow p ≡ some n
      → n'.rkey ≡ n.rkey
      → get_rflow_by_hash T (put_rflow T p n' d) hval key ≡ get_rflow_by_hash T d hval key
  unfolding get_rflow_by_hash
  get_rflow_by_hash-put_rflow d hval key p n n' =
      find_rflow-put_rflow d key p n n' (T.with_hash d.rflow_hmap hval)

  module _ (L : Laws T) where
    pub get_rflow_by_hash-some :
        (d : Flows T) (free : List ℕ) (hval : ℕ) (key : RKey)
        → Inv T L d free
        → (o : Option ℕ) × (get_rflow_by_hash T d hval key ≡ some o)
    unfolding get_rflow_by_hash
    get_rflow_by_hash-some d free hval key inv =
        find_rflow-some d key (T.with_hash d.rflow_hmap hval) (λ r h.
          let (old, n, stored) = inv.rlive r (L.has_hash-has d.rflow_hmap r hval h) in (n, stored))

    -- A flow that is not there yet is found when it has been made.
    pub get_rflow_by_hash-build_rflow_by_hash :
        (env : Env) (hval : ℕ) (key : RKey) (cpkt : List ℕ) (d : Flows T) (free : List ℕ)
        → Inv T L d free
        → get_rflow_by_hash T d hval key ≡ some none
        → get_rflow_by_hash T (build_rflow_by_hash T env hval key cpkt d).1 hval key
          ≡ some (some d.fresh)
    unfolding get_rflow_by_hash build_rflow_by_hash
    get_rflow_by_hash-build_rflow_by_hash env hval key cpkt d free inv unknown =
        let d' : Flows T = record d {
          rflow = update d.rflow d.fresh (some (new_rflow T env key cpkt));
          rflow_hmap = T.insert d.rflow_hmap d.fresh hval;
          fresh = d.fresh + 1;
        } in
        let absent : has d.fresh (T.nodes d.rflow_hmap) ≡ false =
          elim (Bool-cases (has d.fresh (T.nodes d.rflow_hmap))) [
            | inl y ↦ absurd (omega (arith, (inv.rlive d.fresh y).0))
            | inr y ↦ y
          ] in
        let now : (r : ℕ)
            → has r (T.with_hash d'.rflow_hmap hval)
              ≡ ((r == d.fresh && hval == hval) || has r (T.with_hash d.rflow_hmap hval)) =
          λ r. L.has_hash-insert d.rflow_hmap d.fresh hval r hval absent in
        find_rflow-one d' key d.fresh (new_rflow T env key cpkt) (T.with_hash d'.rflow_hmap hval)
          (ground arith) (rkey_same_refl key)
          (λ r h e.
            let was : has r (T.with_hash d.rflow_hmap hval) ≡ true = ground (arith, now r, h, e) in
            let (m, stored, differs) =
              find_rflow-Other d key (T.with_hash d.rflow_hmap hval) unknown r was in
            (m, rw e stored, differs))
          (now d.fresh ∙ ground arith)
