-- ===== src/Idpool.antt =====
-- lib/idpool.c: the free identifiers, in a ring. `none` is an access outside of the array.
pub mod Queue
pub mod Refine
mod Tests
use ipcf.Common.{
  ℕ, zero, suc, ◌+◌, ◌-◌, ◌%◌, Bool, true, false, ◌&&◌, not, Option, none, some, List, [], ◌∷◌,
  ◌++◌, get_elem?, set, length, ltb, ◌==◌, if◌then◌else◌,
}
use ipcf.Common.Fault.{◌>>=◌}

-- `idpool_t`.
pub record Pool : Type 0 where
  pub n : ℕ
  pub pool : List ℕ
  pub head : ℕ
  pub tail : ℕ
  pub empty : Bool

-- The numbers from `i` on, `n` of them.
unfoldable pub ids_from : ℕ → ℕ → List ℕ
ids_from i zero = []
ids_from i (suc n) = i ∷ ids_from (i + 1) n

unfoldable pub init_idpool : ℕ → Pool
unfolding ids_from
init_idpool n = record { n = n; pool = ids_from 0 n; head = 0; tail = n - 1; empty = false }

-- The identifier is `none` for -1.
unfoldable pub get_id : Pool → Option (Option ℕ × Pool)
get_id p =
    let getting_empty = p.head == p.tail in
    let taken = (do
      id ← get_elem? p.pool p.head
      some (some id, record p { head = (p.head + 1) % p.n; empty = getting_empty })) in
    if not p.empty then taken else some (none, p)

unfoldable pub release_id : Pool → ℕ → Option Pool
release_id p id =
    let tail_next = (p.tail + 1) % p.n in
    let is_full = not p.empty && tail_next == p.head in
    let stored : Pool = record p {
      tail = tail_next;
      pool = set p.pool tail_next id;
      empty = false;
    } in
    if is_full then some p else if ltb tail_next (length p.pool) then some stored else none
