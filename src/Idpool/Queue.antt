-- ===== src/Idpool/Queue.antt =====
-- What lib/idpool.c promises: the free identifiers are a queue.
use ipcf.Common.{
  ℕ, ◌<◌, ◌≡◌, refl, ◌∙◌, Bool-cases, inl, inr, Option, none, some, List, [], ◌∷◌, ◌++◌, arith,
  length, ltb, ltb→lt, ltb-false→le, if◌then◌else◌,
}
use ipcf.Common.Fault.{◌>>=◌}
use ipcf.Idpool.{Pool, ids_from, init_idpool, get_id, release_id}
use ipcf.Idpool.Refine.{
  Holds, init_idpool-Holds, get_id-none, get_id-some, release_id-append, release_id-full,
}

-- A call of `get_id`, or of `release_id` with an identifier.
pub data Op : Type 0 where
  get : Op
  release : ℕ → Op

-- The calls in order on a pool, with what the calls of `get_id` return.
unfoldable pub run : Pool → List Op → Option (List (Option ℕ) × Pool)
run p [] = some ([], p)
run p (get ∷ ops) = do (id, p') ← get_id p; (ids, last) ← run p' ops; some (id ∷ ids, last)
run p (release id ∷ ops) = do p' ← release_id p id; run p' ops

-- The same on a queue with room for `n`.
unfoldable pub queue_run : ℕ → List ℕ → List Op → List (Option ℕ) × List ℕ
queue_run n q [] = ([], q)
queue_run n [] (get ∷ ops) = let (ids, last) = queue_run n [] ops in (none ∷ ids, last)
queue_run n (x ∷ q) (get ∷ ops) = let (ids, last) = queue_run n q ops in (some x ∷ ids, last)
queue_run n q (release id ∷ ops) = queue_run n (if ltb (length q) n then q ++ (id ∷ []) else q) ops

abbrev Refines : ℕ → Pool → List ℕ → List Op → Type 0
Refines n p q ops =
    (p' : Pool) × (run p ops ≡ some ((queue_run n q ops).0, p'))
    × Holds p' (queue_run n q ops).1
    × (p'.n ≡ n)

-- `release_id` on either side.
release_lem :
    (n : ℕ) (p : Pool) (q : List ℕ) (id : ℕ)
    → Holds p q
    → p.n ≡ n
    → (p' : Pool) × (release_id p id ≡ some p')
      × Holds p' (if ltb (length q) n then q ++ (id ∷ []) else q)
      × (p'.n ≡ n)
release_lem n p q id h e = elim (Bool-cases (ltb (length q) n)) [
  | inl b ↦
      let (p', ran, h', e') =
        release_id-append p id q h (omega (arith, ltb→lt (length q) n b, e)) in
      (p', ran, rw b h', e' ∙ e)
  | inr b ↦ (
    p,
    release_id-full p id q h (omega (arith, ltb-false→le (length q) n b, h.few, e)),
    rw b h,
    e,
  )
]

run-Refines :
    (n : ℕ) (ops : List Op) (p : Pool) (q : List ℕ) → Holds p q → p.n ≡ n → Refines n p q ops
unfolding run queue_run
run-Refines n [] p q h e = (p, refl, h, e)
run-Refines n (get ∷ ops) p [] h e =
    let (p', ran, held, e') = run-Refines n ops p [] h e in
    (p', rw (get_id-none p h, ran) refl, held, e')
run-Refines n (get ∷ ops) p (x ∷ q) h e =
    let (p₁, got, h₁, e₁) = get_id-some p x q h in
    let (p', ran, held, e') = run-Refines n ops p₁ q h₁ (e₁ ∙ e) in
    (p', rw (got, ran) refl, held, e')
run-Refines n (release id ∷ ops) p q h e =
    let (p₁, gave, h₁, e₁) = release_lem n p q id h e in
    let (p', ran, held, e') = run-Refines n ops p₁ _ h₁ e₁ in (p', rw (gave, ran) refl, held, e')

-- A pool of `n` identifiers, `n` not 0, under any calls, is never read or written outside of its
-- array and returns what the queue of the identifiers 0, 1, …, `n - 1` returns: `get_id` takes the
-- front or returns -1, `release_id` appends where fewer than `n` are there.
pub run-queue :
    (n : ℕ) (ops : List Op)
    → 0 < n
    → let (ids, q) = queue_run n (ids_from 0 n) ops in
      (p : Pool) × (run (init_idpool n) ops ≡ some (ids, p)) × Holds p q
unfolding init_idpool
run-queue n ops h =
    let (p, ran, held, e) =
      run-Refines n ops (init_idpool n) (ids_from 0 n) (init_idpool-Holds n h) refl in
    (p, ran, held)
