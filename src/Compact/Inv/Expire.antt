-- ===== src/Compact/Inv/Expire.antt =====
-- A flow of compact.c that times out: the invariant when it is removed.
use ipcf.Common.{
  ℕ, ◌<◌, ◌≡◌, ◌∙◌, sym, refl, ap, inl, inr, Bool, Bool-cases, true, false, not, ◌&&◌, Option, none,
  some, List, [], ◌∷◌, ◌++◌, All, arith, ◌==◌,
}
use ipcf.Split.Types.{update}
use ipcf.Idpool.Refine.{release_id-append}
use ipcf.Compact.Types.{SFlow}
use ipcf.Compact.Table.{Table, Laws, has}
use ipcf.Compact.Ids.{has-append, append-Distinct, length-lt}
use ipcf.Compact.Flows.{Flows, expire_sflow}
use ipcf.Compact.Inv.{Inv}

pub All-append : (P : ℕ → Type 0) (xs : List ℕ) (x : ℕ) → All P xs → P x → All P (xs ++ (x ∷ []))
All-append P [] x h p = (p, tt)
All-append P (y ∷ xs) x h p = (h.0, All-append P xs x h.1 p)

-- What is left after a removal, and what was there.
pub remains : (a b c : Bool) → c ≡ (not a && b) → c ≡ true → (a ≡ false) × (b ≡ true)
remains true b c e h = absurd (ground (arith, e, h))
remains false b c e h = (refl, sym e ∙ h)

pub stays : (a b c : Bool) → c ≡ (not a && b) → a ≡ false → b ≡ true → c ≡ true
stays true b c e h k = absurd (ground (arith, h))
stays false b c e h k = e ∙ k

-- Different pointers stand at different places of the index.
index_ne :
    (ix : ℕ → Option ℕ) (f g p r : ℕ)
    → ix f ≡ some p
    → ix g ≡ some r
    → (r == p) ≡ false
    → (g == f) ≡ false
index_ne ix f g p r ef eg away = elim (Bool-cases (g == f)) [
  | inl q ↦
      let e : some p ≡ some r = sym ef ∙ ap ix (ground (arith, q)) ∙ eg in
      absurd (ground (arith, e, away))
  | inr q ↦ q
]

pub elsewhere : (r p : ℕ) (ps : List ℕ) → has r ps ≡ true → has p ps ≡ false → (r == p) ≡ false
elsewhere r p ps h k = elim (Bool-cases (r == p)) [
  | inl q ↦ absurd (ground (arith, q, h, k))
  | inr q ↦ q
]

update_old :
    (ix : ℕ → Option ℕ) (i f p : ℕ)
    → update ix i none f ≡ some p
    → ((f == i) ≡ false) × (ix f ≡ some p)
update_old ix i f p h = elim (Bool-cases (f == i)) [
  | inl q ↦ absurd (ground (arith, q, h))
  | inr q ↦ (q, ground (arith, q, h))
]

module _ (T : Table) (L : Laws T) where
  -- The flow at `p` is removed, and its identifier appended to the free ones.
  pub expire-Inv :
      (c : Flows T) (free : List ℕ) (p : ℕ) (n : SFlow)
      → Inv T L c free
      → has p (T.nodes c.sflow_hmap) ≡ true
      → c.sflow p ≡ some n
      → (c' : Flows T) × (expire_sflow T p n c ≡ some c')
        × Inv T L c' (free ++ (n.fid ∷ []))
        × ((r : ℕ) → has r (T.nodes c'.sflow_hmap) ≡ (not (r == p) && has r (T.nodes c.sflow_hmap)))
        × ((r : ℕ) → (r == p) ≡ false → c'.sflow r ≡ c.sflow r)
        × ((r k : ℕ)
            → has r (T.with_hash c'.sflow_hmap k)
              ≡ (not (r == p) && has r (T.with_hash c.sflow_hmap k)))
  unfolding expire_sflow
  expire-Inv c free p n inv known stored =
      let mine = inv.live p known in
      let node : mine.node ≡ n = ground (arith, mine.stored, stored) in
      let small : n.fid < 256 = ground (arith, node, mine.small) in
      let taken : has n.fid free ≡ false =
        ap (λ (m : SFlow). has m.fid free) (sym node) ∙ mine.taken in
      let index : c.sflow_rindex n.fid ≡ some p =
        ap (λ (m : SFlow). c.sflow_rindex m.fid) (sym node) ∙ mine.index in
      let fewer = length-lt 256 n.fid free inv.different inv.ids small taken in
      let (idp', ran, held, size) =
        release_id-append c.idp n.fid free inv.held (omega (arith, fewer, inv.size)) in
      let removed : (r : ℕ)
          → has r (T.nodes (T.remove c.sflow_hmap p))
            ≡ (not (r == p) && has r (T.nodes c.sflow_hmap)) =
        λ r. L.has-remove c.sflow_hmap p r known in
      let other_fid : (r : ℕ) (f : ℕ)
          → c.sflow_rindex f ≡ some r
          → (r == p) ≡ false
          → (f == n.fid) ≡ false =
        λ r f e away. index_ne c.sflow_rindex n.fid f p r index e away in
      (
        record c {
          sflow_hmap = T.remove c.sflow_hmap p;
          sflow_rindex = update c.sflow_rindex n.fid none;
          sflow = update c.sflow p none;
          idp = idp';
        },
        rw ran refl,
        record {
          held = held;
          size = size ∙ inv.size;
          different = append-Distinct free n.fid inv.different taken;
          ids = All-append (λ f. f < 256) free n.fid inv.ids small;
          stable = L.remove-IsTable c.sflow_hmap p known inv.stable;
          rtable = inv.rtable;
          live = λ r h.
              let (away, was) = remains (r == p) _ _ (removed r) h in
              let old = inv.live r was in
              let other : (old.node.fid == n.fid) ≡ false =
                other_fid r old.node.fid old.index away in
              record {
                node = old.node;
                stored = rw away old.stored;
                small = old.small;
                index = rw other old.index;
                taken = has-append old.node.fid free (n.fid ∷ []) ∙ rw (old.taken, other) refl;
                old = old.old;
              };
          indexed = λ f r h.
              let (away, was) = update_old c.sflow_rindex n.fid f r h in
              let (there, m, at, fid) = inv.indexed f r was in
              let apart : (r == p) ≡ false = elim (Bool-cases (r == p)) [
                | inl q ↦ absurd (ground (arith, q, at, stored, fid, away))
                | inr q ↦ q
              ] in
              (stays (r == p) _ _ (removed r) apart there, m, rw apart at, fid);
          kept = λ f h. elim (Bool-cases (f == n.fid)) [
            | inl q ↦ inl (has-append f free (n.fid ∷ []) ∙ ground (arith, q))
            | inr q ↦ elim (inv.kept f h) [
              | inl e ↦ inl (has-append f free (n.fid ∷ []) ∙ rw e refl)
              | inr (r, e) ↦ inr (r, rw q e)
            ]
          ];
          rlive = inv.rlive;
        },
        removed,
        λ r e. rw e refl,
        λ r k. L.has_hash-remove c.sflow_hmap p r k known,
      )
