-- ===== src/Lock.antt =====
-- include/atomic.h: the light lock, a counter of the threads that want the lock and a semaphore for
-- those that wait.
pub mod Inv
pub mod Safety
mod Tests
use ipcf.Common.{
  ℕ, zero, suc, ◌+◌, ◌-◌, ◌%◌, ◌^◌, Bool, Option, none, some, List, [], ◌∷◌, get_elem?, set,
  replicate, ltb, if◌then◌else◌,
}
use ipcf.Common.Fault.{◌>>=◌}

-- `light_lock_t`. The semaphore is its value.
pub record Lock : Type 0 where
  pub sem : ℕ
  pub cnt : ℕ

-- Where a thread is: outside of `_lock` and `_unlock`, before the `sem_wait` of `_lock`, between
-- the two calls, before the `sem_post` of `_unlock`.
pub data Thread : Type 0 where
  outside waiting inside posting : Thread

abbrev pub lock_init : Lock
lock_init = record { sem = 0; cnt = 0 }

-- `_lock_destroy`, after which the semaphore is no more to be used.
abbrev pub lock_destroy : Lock → Lock
lock_destroy l = record l { cnt = 0 }

-- `_lock` up to `sem_wait`: `__atomic_fetch_add` gives the counter before the addition.
unfoldable pub lock : Lock → Lock × Thread
lock l = (record l { cnt = (l.cnt + 1) % 2 ^ 32 }, if ltb 0 l.cnt then waiting else inside)

-- `sem_wait` goes on only if the semaphore is not 0.
unfoldable pub wait : Lock → Option Lock
wait l = if ltb 0 l.sem then some (record l { sem = l.sem - 1 }) else none

-- `_unlock` up to `sem_post`: `__atomic_sub_fetch` gives the counter after the subtraction.
unfoldable pub unlock : Lock → Lock × Thread
unlock l =
    let left = (l.cnt + 2 ^ 32 - 1) % 2 ^ 32 in
    (record l { cnt = left }, if ltb 0 left then posting else outside)

unfoldable pub post : Lock → Lock
post l = record l { sem = l.sem + 1 }

-- A lock and the threads that use it.
pub record System : Type 0 where
  pub lock : Lock
  pub threads : List Thread

abbrev pub start : ℕ → System
start n = record { lock = lock_init; threads = replicate n outside }

-- A step of a thread, an atomic operation or a call of the semaphore; `none` if there is no such
-- thread, or if it has to wait.
unfoldable pub move : Thread → Lock → Option (Lock × Thread)
unfolding lock wait unlock post
move outside l = some (lock l)
move waiting l = wait l >>= λ l'. some (l', inside)
move inside l = some (unlock l)
move posting l = some (post l, outside)

unfoldable pub step : ℕ → System → Option System
step i s = do
  t ← get_elem? s.threads i
  (l, t') ← move t s.lock
  some (record { lock = l; threads = set s.threads i t' })

-- The threads move in the order of a schedule.
unfoldable pub run : List ℕ → System → Option System
run [] s = some s
run (i ∷ is) s = step i s >>= λ s'. run is s'
