-- ===== src/Lock/Tests.antt =====
-- Two threads that meet at the lock.
use ipcf.Common.{ℕ, suc, ◌≡◌, refl, none, some, List, [], ◌∷◌, arith}
use ipcf.Lock.{
  Thread, outside, waiting, inside, posting, lock_init, lock_destroy, System, start, move, step,
  run,
}
use ipcf.Lock.Safety.{excludes, drains}

-- Thread 0 enters, thread 1 waits, thread 0 leaves but has not posted.
abbrev met : System
met = record { lock = record { sem = 0; cnt = 1 }; threads = posting ∷ waiting ∷ [] }

run-met : run (0 ∷ 1 ∷ 0 ∷ []) (start 2) ≡ some met
unfolding run step move
run-met = refl

-- Thread 1 cannot go on before the post.
step-met : step 1 met ≡ none
unfolding step move
step-met = refl

abbrev entered : System
entered = record { lock = record { sem = 0; cnt = 1 }; threads = outside ∷ inside ∷ [] }

run-entered : run (0 ∷ 1 ∷ 0 ∷ 0 ∷ 1 ∷ []) (start 2) ≡ some entered
unfolding run step move
run-entered = refl

abbrev find_inside : List Thread → ℕ
find_inside [] = 0
find_inside (outside ∷ ts) = suc (find_inside ts)
find_inside (waiting ∷ ts) = suc (find_inside ts)
find_inside (inside ∷ ts) = 0
find_inside (posting ∷ ts) = suc (find_inside ts)

excludes_example : find_inside entered.threads ≡ 1
excludes_example =
    excludes 2 (omega arith) (0 ∷ 1 ∷ 0 ∷ 0 ∷ 1 ∷ []) entered run-entered
      (find_inside entered.threads) 1 refl refl

lock_destroy-met : lock_destroy met.lock ≡ lock_init
lock_destroy-met = refl

drains_example : (is : List ℕ) × (run is met ≡ some (start 2))
drains_example = drains 2 (omega arith) (0 ∷ 1 ∷ 0 ∷ []) met run-met
