-- ===== src/Compact/Inv/Swept.antt =====
-- What the loops of `timer_event` of compact.c leave of the flows.
use ipcf.Common.{
  ℕ, ◌≡◌, ◌∙◌, refl, inl, inr, Bool-cases, true, false, not, ◌&&◌, ◌||◌, none, some, List, ◌∷◌,
  arith, ◌==◌,
}
use ipcf.Split.Types.{update}
use ipcf.Compact.Types.{SFlow, RFlow, Env, is_live}
use ipcf.Compact.Table.{Table, has}
use ipcf.Compact.Flows.{Flows}

module _ (T : Table) where
  -- Of the flows of `c`, those in `ps` that have timed out are gone in `c'`; the others are as they
  -- were.
  pub record Swept (env : Env) (ps : List ℕ) (c c' : Flows T) : Type 0 where
    pub none_new :
        (r : ℕ) → has r (T.nodes c.sflow_hmap) ≡ false → has r (T.nodes c'.sflow_hmap) ≡ false
    pub left :
        (r : ℕ) (n : SFlow)
        → has r (T.nodes c.sflow_hmap) ≡ true
        → c.sflow r ≡ some n
        → has r (T.nodes c'.sflow_hmap) ≡ (not (has r ps) || is_live env.now n.soft_timeout)
    pub same : (r : ℕ) → has r (T.nodes c'.sflow_hmap) ≡ true → c'.sflow r ≡ c.sflow r
    pub placed :
        (r k : ℕ)
        → has r (T.nodes c'.sflow_hmap) ≡ true
        → has r (T.with_hash c.sflow_hmap k) ≡ true
        → has r (T.with_hash c'.sflow_hmap k) ≡ true

  pub Swept-live :
      (env : Env) (p : ℕ) (ps : List ℕ) (c c' : Flows T) (n : SFlow)
      → c.sflow p ≡ some n
      → is_live env.now n.soft_timeout ≡ true
      → Swept env ps c c'
      → Swept env (p ∷ ps) c c'
  Swept-live env p ps c c' n stored lives s = record {
    none_new = s.none_new;
    left = λ r m h e. elim (Bool-cases (r == p)) [
      | inl q ↦
          let at : r ≡ p = ground (arith, q) in
          let one : m ≡ n = ground (arith, at, e, stored) in
          s.left r m h e ∙ rw (one, lives) (ground arith)
      | inr q ↦ s.left r m h e ∙ rw q refl
    ];
    same = s.same;
    placed = s.placed;
  }

  pub Swept-expired :
      (env : Env) (p : ℕ) (ps : List ℕ) (c c1 c' : Flows T) (n : SFlow)
      → has p (T.nodes c.sflow_hmap) ≡ true
      → c.sflow p ≡ some n
      → is_live env.now n.soft_timeout ≡ false
      → has p ps ≡ false
      → ((r : ℕ) → has r (T.nodes c1.sflow_hmap) ≡ (not (r == p) && has r (T.nodes c.sflow_hmap)))
      → ((r : ℕ) → (r == p) ≡ false → c1.sflow r ≡ c.sflow r)
      → ((r k : ℕ)
          → has r (T.with_hash c1.sflow_hmap k)
            ≡ (not (r == p) && has r (T.with_hash c.sflow_hmap k)))
      → Swept env ps c1 c'
      → Swept env (p ∷ ps) c c'
  Swept-expired env p ps c c1 c' n known stored timed_out d left alike hashed s =
      let gone : (r : ℕ) → (r == p) ≡ true → has r (T.nodes c'.sflow_hmap) ≡ false =
        λ r q. s.none_new r (left r ∙ rw q refl) in
      let apart : (r : ℕ) → has r (T.nodes c'.sflow_hmap) ≡ true → (r == p) ≡ false = λ r h.
        elim (Bool-cases (r == p)) [ inl q ↦ absurd (ground (arith, gone r q, h)) | inr q ↦ q ] in
      record {
        none_new = λ r h. s.none_new r (left r ∙ ground (arith, h));
        left = λ r m h e. elim (Bool-cases (r == p)) [
          | inl q ↦
              let at : r ≡ p = ground (arith, q) in
              let one : m ≡ n = ground (arith, at, e, stored) in
              gone r q ∙ rw (q, one, timed_out) refl
          | inr q ↦ s.left r m (left r ∙ rw (q, h) refl) (alike r q ∙ e) ∙ rw q refl
        ];
        same = λ r h. s.same r h ∙ alike r (apart r h);
        placed = λ r k h e. s.placed r k h (hashed r k ∙ rw (apart r h, e) refl);
      }

  -- Of the receive flows of `c`, those in `ps` that have timed out are gone in `c'`; the others are as
  -- they were.
  pub record RSwept (env : Env) (ps : List ℕ) (c c' : Flows T) : Type 0 where
    pub none_new :
        (r : ℕ) → has r (T.nodes c.rflow_hmap) ≡ false → has r (T.nodes c'.rflow_hmap) ≡ false
    pub left :
        (r : ℕ) (n : RFlow)
        → has r (T.nodes c.rflow_hmap) ≡ true
        → c.rflow r ≡ some n
        → has r (T.nodes c'.rflow_hmap) ≡ (not (has r ps) || is_live env.now n.soft_timeout)
    pub same : (r : ℕ) → has r (T.nodes c'.rflow_hmap) ≡ true → c'.rflow r ≡ c.rflow r

  pub RSwept-live :
      (env : Env) (p : ℕ) (ps : List ℕ) (c c' : Flows T) (n : RFlow)
      → c.rflow p ≡ some n
      → is_live env.now n.soft_timeout ≡ true
      → RSwept env ps c c'
      → RSwept env (p ∷ ps) c c'
  RSwept-live env p ps c c' n stored lives s = record {
    none_new = s.none_new;
    left = λ r m h e. elim (Bool-cases (r == p)) [
      | inl q ↦
          let at : r ≡ p = ground (arith, q) in
          let one : m ≡ n = ground (arith, at, e, stored) in
          s.left r m h e ∙ rw (one, lives) (ground arith)
      | inr q ↦ s.left r m h e ∙ rw q refl
    ];
    same = s.same;
  }

  -- The receive flows without the one at `p`.
  abbrev pub without : ℕ → Flows T → Flows T
  without p c = record c { rflow_hmap = T.remove c.rflow_hmap p; rflow = update c.rflow p none }

  pub RSwept-expired :
      (env : Env) (p : ℕ) (ps : List ℕ) (c c' : Flows T) (n : RFlow)
      → c.rflow p ≡ some n
      → is_live env.now n.soft_timeout ≡ false
      → has p ps ≡ false
      → ((r : ℕ)
          → has r (T.nodes (T.remove c.rflow_hmap p))
            ≡ (not (r == p) && has r (T.nodes c.rflow_hmap)))
      → RSwept env ps (without p c) c'
      → RSwept env (p ∷ ps) c c'
  RSwept-expired env p ps c c' n stored timed_out d left s =
      let gone : (r : ℕ) → (r == p) ≡ true → has r (T.nodes c'.rflow_hmap) ≡ false =
        λ r q. s.none_new r (left r ∙ rw q refl) in
      let apart : (r : ℕ) → has r (T.nodes c'.rflow_hmap) ≡ true → (r == p) ≡ false = λ r h.
        elim (Bool-cases (r == p)) [ inl q ↦ absurd (ground (arith, gone r q, h)) | inr q ↦ q ] in
      let alike : (r : ℕ) → (r == p) ≡ false → (without p c).rflow r ≡ c.rflow r =
        λ r q. rw q refl in
      record {
        none_new = λ r h. s.none_new r (left r ∙ ground (arith, h));
        left = λ r m h e. elim (Bool-cases (r == p)) [
          | inl q ↦
              let at : r ≡ p = ground (arith, q) in
              let one : m ≡ n = ground (arith, at, e, stored) in
              gone r q ∙ rw (q, one, timed_out) refl
          | inr q ↦ s.left r m (left r ∙ rw (q, h) refl) (alike r q ∙ e) ∙ rw q refl
        ];
        same = λ r h. s.same r h ∙ alike r (apart r h);
      }
