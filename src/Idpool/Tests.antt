-- ===== src/Idpool/Tests.antt =====
-- A pool of two identifiers.
use ipcf.Common.{ℕ, ◌≡◌, refl, none, some, Option, List, [], ◌∷◌, arith}
use ipcf.Idpool.{Pool, ids_from, init_idpool}
use ipcf.Idpool.Refine.{Holds}
use ipcf.Idpool.Queue.{Op, get, release, run, queue_run, run-queue}

-- The third `get_id` fails; 1 comes back before 0.
abbrev ops : List Op
ops = get ∷ get ∷ get ∷ release 1 ∷ release 0 ∷ release 7 ∷ get ∷ []

abbrev ids : List (Option ℕ)
ids = some 0 ∷ some 1 ∷ none ∷ some 1 ∷ []

queue_run-ops : queue_run 2 (ids_from 0 2) ops ≡ (ids, 0 ∷ [])
unfolding queue_run ids_from
queue_run-ops = refl

run-queue_example : (p : Pool) × (run (init_idpool 2) ops ≡ some (ids, p)) × Holds p (0 ∷ [])
unfolding queue_run ids_from
run-queue_example = run-queue 2 ops (omega arith)
