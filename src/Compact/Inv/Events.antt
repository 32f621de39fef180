-- ===== src/Compact/Inv/Events.antt =====
-- The histories of the flows: packets sent, frames received and timers, in any order.
use ipcf.Common.{
  ℕ, zero, suc, ◌+◌, ◌≤◌, ◌<◌, ◌≡◌, sym, refl, inl, inr, Bool-cases, true, false, Option, some,
  List, [], ◌∷◌, ◌++◌, ap, All, arith, ◌==◌,
}
use mathlib.Core.Option.{some-injective}
use ipcf.Common.Fault.{◌>>=◌, >>=-eq-some}
use ipcf.Idpool.{ids_from, init_idpool}
use ipcf.Idpool.Refine.{init_idpool-Holds}
use ipcf.Compact.Types.{Env}
use ipcf.Compact.Table.{Table, Laws, has, Distinct}
use ipcf.Compact.Flows.{Flows, compact_init, timer_event}
use ipcf.Compact.Xmit.{xmit_compress, recv_compress}
use ipcf.Compact.Inv.{Inv}
use ipcf.Compact.Inv.Timers.{timer_event-Inv}
use ipcf.Compact.Inv.Keyed.{Keyed, sweep-Keyed}
use ipcf.Compact.Inv.Keeps.{recv_compress-Keeps, xmit_compress-Keeps}

-- The identifiers of an empty table.
has-ids_from : (f i n : ℕ) → i ≤ f → f < i + n → has f (ids_from i n) ≡ true
unfolding ids_from
has-ids_from f i zero l h = absurd (omega arith)
has-ids_from f i (suc n) l h = elim (Bool-cases (f == i)) [
  | inl e ↦ rw e refl
  | inr e ↦ rw e (has-ids_from f (i + 1) n (ground (arith, e)) (omega arith))
]

has-ids_from_below : (f i n : ℕ) → f < i → has f (ids_from i n) ≡ false
unfolding ids_from
has-ids_from_below f i zero l = refl
has-ids_from_below f i (suc n) l = ground (arith, has-ids_from_below f (i + 1) n)

ids_from-Distinct : (i n : ℕ) → Distinct (ids_from i n)
unfolding ids_from
ids_from-Distinct i zero = tt
ids_from-Distinct i (suc n) =
    (has-ids_from_below i (i + 1) n (omega arith), ids_from-Distinct (i + 1) n)

ids_from-below : (i n m : ℕ) → i + n ≤ m → All (λ f. f < m) (ids_from i n)
unfolding ids_from
ids_from-below i zero m h = tt
ids_from-below i (suc n) m h = (omega arith, ids_from-below (i + 1) n m (omega arith))

-- A call of an entry point, with what it finds around it.
pub data Event : Type 0 where
  sends : Env → List ℕ → Event
  receives : Env → List ℕ → ℕ → Event
  ticks : Env → Event

module _ (T : Table) (hash_bytes : List ℕ → ℕ) where
  -- The flows after a call; `none` is a fault.
  unfoldable pub event : Event → Flows T → Option (Flows T)
  event (sends env ippkt) c = xmit_compress T hash_bytes env ippkt c >>= λ r. some r.1
  event (receives env cpkt len) c = recv_compress T hash_bytes env cpkt len c >>= λ r. some r.2
  event (ticks env) c = timer_event T env c

  unfoldable pub events : List Event → Flows T → Option (Flows T)
  unfolding event
  events [] c = some c
  events (e ∷ es) c = event e c >>= λ c'. events es c'

  pub events-append :
      (es fs : List Event) (c d : Flows T)
      → events es c ≡ some d
      → events (es ++ fs) c ≡ events fs d
  unfolding events
  events-append [] fs c d h = ap (events fs) (some-injective c d h)
  events-append (e ∷ es) fs c d h =
      let (c', ran, later) = >>=-eq-some (event e c) _ h in rw ran (events-append es fs c' d later)

  module _ (L : Laws T) where
    pub init-Inv : Inv T L (compact_init T) (ids_from 0 256)
    unfolding init_idpool
    init-Inv = record {
      held = init_idpool-Holds 256 (omega arith);
      size = refl;
      different = ids_from-Distinct 0 256;
      ids = ids_from-below 0 256 256 (omega arith);
      stable = L.init-IsTable;
      rtable = L.init-IsTable;
      live = λ p h. absurd (ground (arith, L.nodes-init, h));
      indexed = λ f p h. absurd (ground (arith, h));
      kept = λ f h. inl (has-ids_from f 0 256 (omega arith) (omega arith));
      rlive = λ p h. absurd (ground (arith, L.nodes-init, h));
    }

    event-Inv :
        (e : Event) (c c' : Flows T) (free : List ℕ)
        → Inv T L c free
        → Keyed T hash_bytes c
        → event e c ≡ some c'
        → (free' : List ℕ) × Inv T L c' free' × Keyed T hash_bytes c'
    unfolding event
    event-Inv (sends env ippkt) c c' free inv keyed h =
        let (r, ran, at) = >>=-eq-some _ _ h in
        let (free', inv', keyed') =
          (xmit_compress-Keeps T L hash_bytes c free inv keyed env ippkt).each r ran in
        let same : r.1 ≡ c' = ground (arith, at) in
        (free', rw (sym same) inv', rw (sym same) keyed')
    event-Inv (receives env cpkt len) c c' free inv keyed h =
        let (r, ran, at) = >>=-eq-some _ _ h in
        let (free', inv', keyed') =
          (recv_compress-Keeps T L hash_bytes c free inv keyed env cpkt len).each r ran in
        let same : r.2 ≡ c' = ground (arith, at) in
        (free', rw (sym same) inv', rw (sym same) keyed')
    event-Inv (ticks env) c c' free inv keyed h =
        let (d, free', ran, inv', swept, rswept) = timer_event-Inv T L env c free inv in
        let same : d ≡ c' = ground (arith, ran, h) in
        (free', rw (sym same) inv', rw (sym same) (sweep-Keyed T hash_bytes L env c d keyed swept))

    pub events-Inv :
        (es : List Event) (c c' : Flows T) (free : List ℕ)
        → Inv T L c free
        → Keyed T hash_bytes c
        → events es c ≡ some c'
        → (free' : List ℕ) × Inv T L c' free' × Keyed T hash_bytes c'
    unfolding events
    events-Inv [] c c' free inv keyed h =
        let same : c ≡ c' = ground (arith, h) in (free, rw (sym same) inv, rw (sym same) keyed)
    events-Inv (e ∷ es) c c' free inv keyed h =
        let (d, ran, later) = >>=-eq-some (event e c) _ h in
        let (free', inv', keyed') = event-Inv e c d free inv keyed ran in
        events-Inv es d c' free' inv' keyed' later
