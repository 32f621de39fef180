-- ===== src/Program/Safety.antt =====
-- What holds of the program after any run.
use ipcf.Common.{ℕ, ◌≡◌, refl, some, List, []}
use ipcf.Idpool.{ids_from}
use ipcf.Split.Send.Inv.{AllInStep}
use ipcf.Split.Node.Inv.{calls-safe}
use ipcf.Compact.Table.{Table, Laws}
use ipcf.Compact.Flows.{compact_init}
use ipcf.Compact.Inv.{Inv}
use ipcf.Compact.Inv.Keyed.{Keyed, init-Keyed}
use ipcf.Compact.Inv.Timers.{timer_event-Inv}
use ipcf.Compact.Inv.Events.{init-Inv, events-Inv}
use ipcf.Program.{Around, Output, Program, start, tick, Step, run}
use ipcf.Program.Behaves.{Behaves, Behaves-trans}
use ipcf.Program.Steps.{tick-Behaves, run-Behaves}

module _ (T : Table) (L : Laws T) (hash_bytes : List ℕ → ℕ) where
  -- Both layers in order: each send session in step, and the identifiers of the flows in their place.
  pub record InOrder (p : Program T) : Type 0 where
    pub node : AllInStep p.node
    pub free : List ℕ
    pub flows : Inv T L p.flows free
    pub keyed : Keyed T hash_bytes p.flows

  Behaves-InOrder : (p : Program T) → Behaves T hash_bytes (start T) p → InOrder p
  Behaves-InOrder p b =
      let (inv, survives) =
        calls-safe b.cs p.node (record { now = 0; stale = []; info_level = 1 }) b.node in
      let (free, flows, keyed) =
        events-Inv T hash_bytes L b.es (compact_init T) p.flows (ids_from 0 256)
          (init-Inv T hash_bytes L) (init-Keyed T hash_bytes L) b.flows in
      record { node = inv; free = free; flows = flows; keyed = keyed }

  -- After any rounds of the five loops, in any order and with any bytes from the device and from
  -- the socket, that were no fault, both layers are in order, and the next round of the main loop, at
  -- any time, is no fault and leaves them so.
  pub run-InOrder :
      (ss : List (Step T hash_bytes)) (os : List Output) (p : Program T) (env : Around)
      → run T hash_bytes ss (start T) ≡ some (os, p)
      → InOrder p × ((p' : Program T) × (tick T env p ≡ some p') × InOrder p')
  unfolding tick
  run-InOrder ss os p env h =
      let b = run-Behaves T hash_bytes ss (start T) p os h in
      let order = Behaves-InOrder p b in
      let (inv, survives) = calls-safe b.cs p.node env.link b.node in
      let (n, ran, inv') = survives in
      let (c, free', swept, still, rest, received) =
        timer_event-Inv T L env.compact p.flows order.free order.flows in
      let p' : Program T = record p { flows = c; node = n } in
      let ticked : tick T env p ≡ some p' = rw (swept, ran) refl in
      let behaves =
        Behaves-trans T hash_bytes (start T) p p' b
          ((tick-Behaves T hash_bytes env p).each p' ticked) in
      (order, (p', ticked, Behaves-InOrder p' behaves))
