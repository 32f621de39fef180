-- ===== src/Compact/Inv.antt =====
-- The invariant of the flows: who has which identifier, and which pointers are good.
pub mod Expire
pub mod Make
pub mod Keyed
pub mod Known
pub mod Keeps
pub mod Swept
pub mod Timers
pub mod Events
pub mod Sends
pub mod Safety
use ipcf.Common.{
  ℕ, ◌<◌, ◌≡◌, ◌⊎◌, ◌∙◌, sym, refl, ap, inl, inr, Bool-cases, true, false, Option, some, List, All,
  arith, ◌==◌,
}
use ipcf.Split.Types.{update}
use ipcf.Idpool.{Pool}
use ipcf.Idpool.Refine.{Holds}
use ipcf.Compact.Types.{SFlow, RFlow}
use ipcf.Compact.Table.{Table, Laws, has, Distinct}
use ipcf.Compact.Flows.{Flows, put_sflow, put_rflow}

module _ (T : Table) where
  -- The node at `p`, which has an identifier that is not free, and is found by it.
  pub record LiveFlow (c : Flows T) (free : List ℕ) (p : ℕ) : Type 0 where
    pub node : SFlow
    pub stored : c.sflow p ≡ some node
    pub small : node.fid < 256
    pub index : c.sflow_rindex node.fid ≡ some p
    pub taken : has node.fid free ≡ false
    pub old : p < c.fresh

  pub record Inv (L : Laws T) (c : Flows T) (free : List ℕ) : Type 0 where
    pub held : Holds c.idp free
    pub size : c.idp.n ≡ 256
    pub different : Distinct free
    pub ids : All (λ f. f < 256) free
    pub stable : L.IsTable c.sflow_hmap
    pub rtable : L.IsTable c.rflow_hmap
    -- The nodes of the table are live flows, and the index holds no others.
    pub live : (p : ℕ) → has p (T.nodes c.sflow_hmap) ≡ true → LiveFlow c free p
    pub indexed :
        (f p : ℕ)
        → c.sflow_rindex f ≡ some p
        → (has p (T.nodes c.sflow_hmap) ≡ true) × (n : SFlow) × (c.sflow p ≡ some n) × (n.fid ≡ f)
    -- No identifier is lost.
    pub kept : (f : ℕ) → f < 256 → (has f free ≡ true) ⊎ ((p : ℕ) × (c.sflow_rindex f ≡ some p))
    pub rlive :
        (p : ℕ)
        → has p (T.nodes c.rflow_hmap) ≡ true
        → (p < c.fresh) × (n : RFlow) × (c.rflow p ≡ some n)

  module _ (L : Laws T) where
    -- A node whose identifier stays.
    pub put_sflow-Inv :
        (c : Flows T) (free : List ℕ) (p : ℕ) (n n' : SFlow)
        → Inv L c free
        → has p (T.nodes c.sflow_hmap) ≡ true
        → c.sflow p ≡ some n
        → n'.fid ≡ n.fid
        → Inv L (put_sflow T p n' c) free
    put_sflow-Inv c free p n n' inv l e same = record {
      held = inv.held;
      size = inv.size;
      different = inv.different;
      ids = inv.ids;
      stable = inv.stable;
      rtable = inv.rtable;
      live = λ r h.
          let old = inv.live r h in
          elim (Bool-cases (r == p)) [
            | inl q ↦
                let at : r ≡ p = ground (arith, q) in
                let was : old.node.fid ≡ n'.fid = ground (arith, old.stored, at, e, same) in
                record {
                  node = n';
                  stored = rw q refl;
                  small = ground (arith, was, old.small);
                  index = ap c.sflow_rindex (sym was) ∙ old.index;
                  taken = ap (λ f. has f free) (sym was) ∙ old.taken;
                  old = old.old;
                }
            | inr q ↦ record {
              node = old.node;
              stored = rw q old.stored;
              small = old.small;
              index = old.index;
              taken = old.taken;
              old = old.old;
            }
          ];
      indexed = λ f r h.
          let (known, m, stored, fid) = inv.indexed f r h in
          elim (Bool-cases (r == p)) [
            | inl q ↦ (known, n', rw q refl, ground (arith, q, stored, e, same, fid))
            | inr q ↦ (known, m, rw q stored, fid)
          ];
      kept = inv.kept;
      rlive = inv.rlive;
    }

    pub put_rflow-Inv :
        (c : Flows T) (free : List ℕ) (p : ℕ) (n : RFlow)
        → Inv L c free
        → Inv L (put_rflow T p n c) free
    put_rflow-Inv c free p n inv = record {
      held = inv.held;
      size = inv.size;
      different = inv.different;
      ids = inv.ids;
      stable = inv.stable;
      rtable = inv.rtable;
      live = λ r h.
          let old = inv.live r h in
          record {
            node = old.node;
            stored = old.stored;
            small = old.small;
            index = old.index;
            taken = old.taken;
            old = old.old;
          };
      indexed = inv.indexed;
      kept = inv.kept;
      rlive = λ r h.
          let (old, m, stored) = inv.rlive r h in
          elim (Bool-cases (r == p)) [
            | inl q ↦ (old, n, rw q refl)
            | inr q ↦ (old, m, rw q stored)
          ];
    }
