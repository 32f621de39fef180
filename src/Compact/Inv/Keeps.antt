-- ===== src/Compact/Inv/Keeps.antt =====
-- What `xmit_compress` and `recv_compress` of compact.c leave of the flows.
use ipcf.Common.{
  ℕ, ◌≡◌, ◌∙◌, sym, refl, inl, inr, Bool, Bool-cases, true, false, ◌&&◌, Option, none, some, List,
  [], ◌∷◌, take, leb, arith, ◌==◌, if◌then◌else◌,
}
use ipcf.Common.Fault.{◌>>=◌}
use ipcf.Common.Word.{u16}
use ipcf.Csum.{csum}
use ipcf.Compact.Ipv4.{swap16, ip_len, read_ip}
use ipcf.Compact.Types.{
  ctype_frm_ctl, ctype_ctl_req, ctype_ctl_ack, ctype_ctl_flt, RKey, rkey_bytes, read_chdr, SFlow,
  RFlow, Env, timeout_at, state_established,
}
use ipcf.Compact.Encode.{whole_pkt}
use ipcf.Compact.Decode.{recv_untouched_ip}
use ipcf.Compact.Table.{Table, Laws, has}
use ipcf.Compact.Flows.{
  Flows, get_rflow_by_hash, put_sflow, put_rflow, new_rflow, build_rflow_by_hash, get_rflow_key,
}
use ipcf.Compact.Xmit.{
  can_compact, xmit_flow, xmit_compress, recv_packet, recv_control, recv_compress,
}
use ipcf.Compact.Inv.{Inv, put_sflow-Inv, put_rflow-Inv}
use ipcf.Compact.Inv.Keyed.{Keyed, put_sflow-Keyed}
use ipcf.Compact.Inv.Make.{flow_of-Found}

module _ (T : Table) (L : Laws T) (hash_bytes : List ℕ → ℕ) where
  -- The flows that an operation leaves, if it is no fault.
  pub record Keeps {R : Type 0} (flows : R → Flows T) (o : Option R) : Type 0 where
    pub each :
        (r : R)
        → o ≡ some r
        → (free : List ℕ) × Inv T L (flows r) free × Keyed T hash_bytes (flows r)

  module _ {R : Type 0} (flows : R → Flows T) where
    Keeps-some :
        (r : R) (free : List ℕ)
        → Inv T L (flows r) free
        → Keyed T hash_bytes (flows r)
        → Keeps flows (some r)
    Keeps-some r free inv keyed = record {
      each =
          λ r' e. let at : r ≡ r' = ground (arith, e) in (free, rw (sym at) inv, rw (sym at) keyed);
    }

    Keeps-none : Keeps flows none
    Keeps-none = record { each = λ r e. absurd (ground (arith, e)) }

    Keeps-if :
        (b : Bool) {x y : Option R}
        → Keeps flows x
        → Keeps flows y
        → Keeps flows (if b then x else y)
    Keeps-if true hx hy = hx
    Keeps-if false hx hy = hy

    Keeps->>= :
        {B : Type 0} (m : Option B) (f : B → Option R)
        → ((b : B) → m ≡ some b → Keeps flows (f b))
        → Keeps flows (m >>= f)
    Keeps->>= none f h = Keeps-none
    Keeps->>= (some b) f h = h b refl

    Keeps-cases :
        {B : Type 0} (o : Option B) (x : Option R) (f : B → Option R)
        → Keeps flows x
        → ((b : B) → o ≡ some b → Keeps flows (f b))
        → Keeps flows (elim o [ none ↦ x | some b ↦ f b ])
    Keeps-cases none x f hx hf = hx
    Keeps-cases (some b) x f hx hf = hf b refl

  -- A new receive flow.
  build_rflow-Inv :
      (env : Env) (hval : ℕ) (key : RKey) (cpkt : List ℕ) (c : Flows T) (free : List ℕ)
      → Inv T L c free
      → Inv T L (build_rflow_by_hash T env hval key cpkt c).1 free
  unfolding build_rflow_by_hash
  build_rflow-Inv env hval key cpkt c free inv =
      let absent : has c.fresh (T.nodes c.rflow_hmap) ≡ false =
        elim (Bool-cases (has c.fresh (T.nodes c.rflow_hmap))) [
          | inl y ↦ absurd (omega (arith, (inv.rlive c.fresh y).0))
          | inr y ↦ y
        ] in
      record {
        held = inv.held;
        size = inv.size;
        different = inv.different;
        ids = inv.ids;
        stable = inv.stable;
        rtable = L.insert-IsTable c.rflow_hmap c.fresh hval absent inv.rtable;
        live = λ r h.
            let old = inv.live r h in
            record {
              node = old.node;
              stored = old.stored;
              small = old.small;
              index = old.index;
              taken = old.taken;
              old = omega (arith, old.old);
            };
        indexed = inv.indexed;
        kept = inv.kept;
        rlive = λ r h. elim (Bool-cases (r == c.fresh)) [
          | inl e ↦ (ground (arith, e), new_rflow T env key cpkt, rw e refl)
          | inr e ↦
              let was : has r (T.nodes c.rflow_hmap) ≡ true =
                sym (L.has-insert c.rflow_hmap c.fresh hval r absent ∙ rw e refl) ∙ h in
              let (old, m, stored) = inv.rlive r was in (omega (arith, old), m, rw e stored)
        ];
      }

  -- The table of the flows to send is as it was.
  build_rflow-Keyed :
      (env : Env) (hval : ℕ) (key : RKey) (cpkt : List ℕ) (c : Flows T)
      → Keyed T hash_bytes c
      → Keyed T hash_bytes (build_rflow_by_hash T env hval key cpkt c).1
  unfolding build_rflow_by_hash
  build_rflow-Keyed env hval key cpkt c k = record { placed = k.placed; unique = k.unique }

  put_rflow-Keyed :
      (p : ℕ) (n : RFlow) (c : Flows T)
      → Keyed T hash_bytes c
      → Keyed T hash_bytes (put_rflow T p n c)
  put_rflow-Keyed p n c k = record { placed = k.placed; unique = k.unique }

  module _ (c : Flows T) (free : List ℕ) (inv : Inv T L c free) (keyed : Keyed T hash_bytes c) where
    recv_control-Keeps :
        (env : Env) (cpkt : List ℕ) (hval : ℕ) (key : RKey) (found : Option ℕ)
        → Keeps (λ r. r.1) (recv_control T hash_bytes env cpkt hval key found c)
    unfolding recv_control
    recv_control-Keeps env cpkt hval key found =
        let h = read_chdr cpkt in
        let flows : Option (List ℕ) × Flows T → Flows T = λ r. r.1 in
        Keeps-if flows (h.i == ctype_ctl_req)
          (Keeps-cases flows found _ _
            (Keeps-some flows _ free (build_rflow-Inv env hval key cpkt c free inv)
              (build_rflow-Keyed env hval key cpkt c keyed))
            (λ p e. Keeps-none flows))
          (Keeps-if flows (h.i == ctype_ctl_ack)
            (Keeps-cases flows (c.sflow_rindex h.id) _ _ (Keeps-some flows (none, c) free inv keyed)
              (λ p at. Keeps->>= flows (c.sflow p) _ (λ n e.
                let n' : SFlow = record n { state = state_established } in
                Keeps-some flows (none, put_sflow T p n' c) free
                  (put_sflow-Inv T L c free p n n' inv (inv.indexed h.id p at).0 e refl)
                  (put_sflow-Keyed T hash_bytes c p n n' keyed e refl))))
            (Keeps-if flows (h.i == ctype_ctl_flt) (Keeps-some flows (none, c) free inv keyed)
              (Keeps-none flows)))

    pub recv_compress-Keeps :
        (env : Env) (cpkt : List ℕ) (len : ℕ)
        → Keeps (λ r. r.2) (recv_compress T hash_bytes env cpkt len c)
    unfolding recv_compress
    recv_compress-Keeps env cpkt len =
        let flows : Option (List ℕ) × Option (List ℕ) × Flows T → Flows T = λ r. r.2 in
        let ip = read_ip cpkt 0 in
        let key = get_rflow_key T cpkt in
        let hval = hash_bytes (rkey_bytes key) in
        Keeps-if flows (ip.version == 4 && (leb 5 ip.ihl && csum (take ip_len cpkt) == 0))
          (Keeps->>= flows (recv_untouched_ip cpkt) _
            (λ pkt e. Keeps-some flows (some pkt, none, c) free inv keyed))
          (Keeps->>= flows (get_rflow_by_hash T c hval key) _ (λ found e.
            Keeps-if flows ((read_chdr cpkt).t == ctype_frm_ctl)
              (Keeps->>= flows (recv_control T hash_bytes env cpkt hval key found c) _ (λ r ran.
                let (free', inv', keyed') =
                  (recv_control-Keeps env cpkt hval key found).each r ran in
                Keeps-some flows (none, r.0, r.1) free' inv' keyed'))
              (Keeps-cases flows found _ _ (Keeps-none flows) (λ p at.
                Keeps->>= flows (c.rflow p) _ (λ n stored.
                  Keeps->>= flows
                    (recv_packet T hash_bytes cpkt (u16 len)
                      (record n { soft_timeout = timeout_at env }))
                    _
                    (λ r ran.
                      Keeps-some flows (some r.0, none, put_rflow T p r.1 c) free
                        (put_rflow-Inv T L c free p r.1 inv) (put_rflow-Keyed p r.1 c keyed)))))))

    pub xmit_compress-Keeps :
        (env : Env) (ippkt : List ℕ) → Keeps (λ r. r.1) (xmit_compress T hash_bytes env ippkt c)
    unfolding xmit_compress
    xmit_compress-Keeps env ippkt =
        let flows : List (List ℕ) × Flows T → Flows T = λ r. r.1 in
        let (o, c', free', ran, inv', found, full, keyed') =
          flow_of-Found T L hash_bytes env ippkt c free inv keyed in
        Keeps-if flows (can_compact ippkt)
          (rw ran (
            Keeps-cases flows o _ _ (Keeps-some flows ([], c') free' inv' keyed') (λ p at_p.
              Keeps->>= flows (c'.sflow p) _ (λ n stored.
                Keeps->>= flows (xmit_flow env n ippkt) _ (λ s sent.
                  let n' : SFlow = record n { state = s.1; soft_timeout = timeout_at env } in
                  Keeps-some flows (s.0, put_sflow T p n' c') free'
                    (put_sflow-Inv T L c' free' p n n' inv' (found p at_p).known stored refl)
                    (put_sflow-Keyed T hash_bytes c' p n n' keyed' stored refl))))))
          (Keeps->>= flows (whole_pkt ippkt (swap16 (read_ip ippkt 0).tot_len)) _
            (λ pkt e. Keeps-some flows (pkt ∷ [], c) free inv keyed))
