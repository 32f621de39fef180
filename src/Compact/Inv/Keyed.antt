-- ===== src/Compact/Inv/Keyed.antt =====
-- The flows of compact.c stand in the table under the hash of their keys, one for each key.
use ipcf.Common.{
  ℕ, ◌≡◌, ◌∙◌, sym, refl, ap, inl, inr, Bool-cases, true, false, ◌&&◌, ◌||◌, none, some, List, [],
  ◌∷◌, arith, ◌==◌, if◌then◌else◌,
}
use ipcf.Common.Fault.{>>=-eq-some}
use ipcf.Split.Types.{update}
use ipcf.Compact.Types.{SKey, skey_bytes, skey_same, SFlow, Env}
use ipcf.Compact.Table.{Table, Laws, has}
use ipcf.Compact.Flows.{Flows, compact_init, put_sflow, find_sflow, get_sflow_by_hash}
use ipcf.Compact.Inv.{Inv}
use ipcf.Compact.Inv.Swept.{Swept}

pub skey_same-eq : (a b : SKey) → skey_same a b ≡ true → a ≡ b
unfolding skey_same
skey_same-eq a b h =
    let e₀ : a.saddr ≡ b.saddr = ground (arith, h) in
    let e₁ : a.daddr ≡ b.daddr = ground (arith, h) in
    let e₂ : a.ipid ≡ b.ipid = ground (arith, h) in
    let e₃ : a.proto ≡ b.proto = ground (arith, h) in
    let e₄ : a.resv ≡ b.resv = ground (arith, h) in
    let e₅ : a.sport ≡ b.sport = ground (arith, h) in
    let e₆ : a.dport ≡ b.dport = ground (arith, h) in rw (e₀, e₁, e₂, e₃, e₄, e₅, e₆) refl

pub skey_same_refl : (a : SKey) → skey_same a a ≡ true
unfolding skey_same
skey_same_refl a = ground arith

module _ (T : Table) (hash_bytes : List ℕ → ℕ) where
  pub record Keyed (c : Flows T) : Type 0 where
    pub placed :
        (p : ℕ) (n : SFlow)
        → has p (T.nodes c.sflow_hmap) ≡ true
        → c.sflow p ≡ some n
        → has p (T.with_hash c.sflow_hmap (hash_bytes (skey_bytes n.skey))) ≡ true
    pub unique :
        (p q : ℕ) (n m : SFlow)
        → has p (T.nodes c.sflow_hmap) ≡ true
        → has q (T.nodes c.sflow_hmap) ≡ true
        → c.sflow p ≡ some n
        → c.sflow q ≡ some m
        → n.skey ≡ m.skey
        → p ≡ q

  pub init-Keyed : Laws T → Keyed (compact_init T)
  init-Keyed L = record {
    placed = λ p n h e. absurd (ground (arith, L.nodes-init, h));
    unique = λ p q n m h k e f s. absurd (ground (arith, L.nodes-init, h));
  }

  -- The flows of another state, with the same table and keys.
  put_sflow-key :
      (c : Flows T) (p : ℕ) (n n' : SFlow)
      → c.sflow p ≡ some n
      → n'.skey ≡ n.skey
      → (r : ℕ) (m : SFlow) → (put_sflow T p n' c).sflow r ≡ some m
      → (m' : SFlow) × (c.sflow r ≡ some m') × (m'.skey ≡ m.skey)
  put_sflow-key c p n n' e same r m h = elim (Bool-cases (r == p)) [
    | inl q ↦
        let at : r ≡ p = ground (arith, q) in
        let one : n' ≡ m = ground (arith, h, q) in
        (n, rw at e, sym same ∙ ap (λ (k : SFlow). k.skey) one)
    | inr q ↦ (m, ground (arith, h, q), refl)
  ]

  pub put_sflow-Keyed :
      (c : Flows T) (p : ℕ) (n n' : SFlow)
      → Keyed c
      → c.sflow p ≡ some n
      → n'.skey ≡ n.skey
      → Keyed (put_sflow T p n' c)
  put_sflow-Keyed c p n n' k e same = record {
    placed = λ r m h at.
        let (m', at', key) = put_sflow-key c p n n' e same r m at in
        ap (λ (s : SKey). has r (T.with_hash c.sflow_hmap (hash_bytes (skey_bytes s)))) (sym key)
        ∙ k.placed r m' h at';
    unique = λ r q m o hr hq at_r at_q keys.
        let (m', at_r', key_r) = put_sflow-key c p n n' e same r m at_r in
        let (o', at_q', key_q) = put_sflow-key c p n n' e same q o at_q in
        k.unique r q m' o' hr hq at_r' at_q' (key_r ∙ keys ∙ sym key_q);
  }

  -- Every flow of a list that the search goes through has another key.
  find_sflow-other :
      (c : Flows T) (key : SKey) (ps : List ℕ) (r : ℕ) (m : SFlow)
      → find_sflow T c key ps ≡ some none
      → has r ps ≡ true
      → c.sflow r ≡ some m
      → skey_same m.skey key ≡ false
  unfolding find_sflow
  find_sflow-other c key [] r m e h at = absurd (ground (arith, h))
  find_sflow-other c key (p ∷ ps) r m e h at =
      let (n, stored, later) = >>=-eq-some (c.sflow p) _ e in
      elim (Bool-cases (skey_same n.skey key)) [
        | inl q ↦ absurd (ground (arith, q, later))
        | inr q ↦ elim (Bool-cases (r == p)) [
          | inl same ↦
              let here : r ≡ p = ground (arith, same) in
              let one : n ≡ m = ground (arith, stored, at, here) in
              ap (λ (k : SFlow). skey_same k.skey key) (sym one) ∙ q
          | inr other ↦
              find_sflow-other c key ps r m (ground (arith, q, later)) (ground (arith, other, h)) at
        ]
      ]

  -- A flow that is searched by its key is found.
  get_sflow_by_hash-Keyed :
      (c : Flows T) (key : SKey) (r : ℕ) (m : SFlow)
      → Keyed c
      → get_sflow_by_hash T c (hash_bytes (skey_bytes key)) key ≡ some none
      → has r (T.nodes c.sflow_hmap) ≡ true
      → c.sflow r ≡ some m
      → (skey_same m.skey key ≡ false)
  unfolding get_sflow_by_hash
  get_sflow_by_hash-Keyed c key r m k e h at = elim (Bool-cases (skey_same m.skey key)) [
    | inr q ↦ q
    | inl q ↦
        let place = k.placed r m h at in
        let same =
          ap (λ (s : SKey). has r (T.with_hash c.sflow_hmap (hash_bytes (skey_bytes s))))
            (sym (skey_same-eq m.skey key q)) in
        find_sflow-other c key (T.with_hash c.sflow_hmap (hash_bytes (skey_bytes key))) r m e
          (same ∙ place) at
  ]

  module _ (L : Laws T) where
    fresh-absent :
        (c : Flows T) (free : List ℕ) → Inv T L c free → has c.fresh (T.nodes c.sflow_hmap) ≡ false
    fresh-absent c free inv = elim (Bool-cases (has c.fresh (T.nodes c.sflow_hmap))) [
      | inl y ↦ absurd (omega (arith, (inv.live c.fresh y).old))
      | inr y ↦ y
    ]

    -- A new flow for a key that was not found.
    pub build-Keyed :
        (c c' : Flows T) (free : List ℕ) (n : SFlow)
        → Inv T L c free
        → Keyed c
        → get_sflow_by_hash T c (hash_bytes (skey_bytes n.skey)) n.skey ≡ some none
        → c'.sflow_hmap ≡ T.insert c.sflow_hmap c.fresh (hash_bytes (skey_bytes n.skey))
        → c'.sflow ≡ update c.sflow c.fresh (some n)
        → Keyed c'
    build-Keyed c c' free n inv k unknown table heap =
        let hval = hash_bytes (skey_bytes n.skey) in
        let absent : has c.fresh (T.nodes c.sflow_hmap) ≡ false = fresh-absent c free inv in
        let now : (r : ℕ)
            → has r (T.nodes c'.sflow_hmap) ≡ (r == c.fresh || has r (T.nodes c.sflow_hmap)) =
          λ r.
            ap (λ m. has r (T.nodes m)) table ∙ L.has-insert c.sflow_hmap c.fresh hval r absent in
        let place : (r h : ℕ)
            → has r (T.with_hash c'.sflow_hmap h)
              ≡ ((r == c.fresh && h == hval) || has r (T.with_hash c.sflow_hmap h)) =
          λ r h.
            ap (λ m. has r (T.with_hash m h)) table
            ∙ L.has_hash-insert c.sflow_hmap c.fresh hval r h absent in
        let node : (r : ℕ) → c'.sflow r ≡ (if r == c.fresh then some n else c.sflow r) =
          λ r. ap (λ m. m r) heap in
        let old : (r : ℕ) (m : SFlow)
            → has r (T.nodes c'.sflow_hmap) ≡ true
            → c'.sflow r ≡ some m
            → (r == c.fresh) ≡ false
            → (has r (T.nodes c.sflow_hmap) ≡ true) × (c.sflow r ≡ some m) =
          λ r m h at q. (sym (now r ∙ rw q refl) ∙ h, sym (node r ∙ rw q refl) ∙ at) in
        let new : (r : ℕ) (m : SFlow) → c'.sflow r ≡ some m → (r == c.fresh) ≡ true → n ≡ m =
          λ r m at q.
            let both : some n ≡ some m = sym (node r ∙ rw q refl) ∙ at in ground (arith, both) in
        let clash : (r : ℕ) (m : SFlow)
            → has r (T.nodes c'.sflow_hmap) ≡ true
            → c'.sflow r ≡ some m
            → (r == c.fresh) ≡ false
            → n.skey ≡ m.skey
            → true ≡ false =
          λ r m h at q e.
            let (known, stored) = old r m h at q in
            let differs = get_sflow_by_hash-Keyed c n.skey r m k unknown known stored in
            let same : skey_same m.skey n.skey ≡ true =
              ap (λ s. skey_same s n.skey) (sym e) ∙ skey_same_refl n.skey in
            absurd (ground (arith, same, differs)) in
        record {
          placed = λ r m h at. elim (Bool-cases (r == c.fresh)) [
            | inl q ↦
                let one = new r m at q in
                ap
                  (λ (s : SFlow).
                    has r (T.with_hash c'.sflow_hmap (hash_bytes (skey_bytes s.skey))))
                  (sym one)
                ∙ place r hval
                ∙ rw q (ground arith)
            | inr q ↦
                let (known, stored) = old r m h at q in
                place r (hash_bytes (skey_bytes m.skey)) ∙ rw (q, k.placed r m known stored) refl
          ];
          unique = λ r q m o hr hq at_r at_q keys. elim (Bool-cases (r == c.fresh)) [
            | inl e ↦ elim (Bool-cases (q == c.fresh)) [
              | inl f ↦ ground (arith, e, f)
              | inr f ↦ absurd (
                  ground (
                    arith,
                    clash q o hq at_q f (ap (λ (s : SFlow). s.skey) (new r m at_r e) ∙ keys),
                  ))
            ]
            | inr e ↦ elim (Bool-cases (q == c.fresh)) [
              | inl f ↦ absurd (
                  ground (
                    arith,
                    clash r m hr at_r e (ap (λ (s : SFlow). s.skey) (new q o at_q f) ∙ sym keys),
                  ))
              | inr f ↦
                  let (known_r, stored_r) = old r m hr at_r e in
                  let (known_q, stored_q) = old q o hq at_q f in
                  k.unique r q m o known_r known_q stored_r stored_q keys
            ]
          ];
        }

    -- The flows that the timer leaves.
    pub sweep-Keyed :
        (env : Env) (c c' : Flows T) → Keyed c → Swept T env (T.nodes c.sflow_hmap) c c' → Keyed c'
    sweep-Keyed env c c' k swept =
        let was : (r : ℕ)
            → has r (T.nodes c'.sflow_hmap) ≡ true
            → has r (T.nodes c.sflow_hmap) ≡ true =
          λ r h. elim (Bool-cases (has r (T.nodes c.sflow_hmap))) [
            | inl y ↦ y
            | inr y ↦ absurd (ground (arith, swept.none_new r y, h))
          ] in
        record {
          placed = λ r m h at.
              swept.placed r (hash_bytes (skey_bytes m.skey)) h
                (k.placed r m (was r h) (sym (swept.same r h) ∙ at));
          unique = λ r q m o hr hq at_r at_q keys.
              k.unique r q m o (was r hr) (was q hq) (sym (swept.same r hr) ∙ at_r)
                (sym (swept.same q hq) ∙ at_q) keys;
        }
