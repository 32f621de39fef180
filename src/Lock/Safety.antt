-- ===== src/Lock/Safety.antt =====
-- What the light lock promises to threads that call `_lock` and `_unlock` in turn.
use ipcf.Common.{
  ℕ, zero, suc, ◌+◌, ◌-◌, ◌%◌, ◌^◌, ◌≤◌, ◌<◌, ◌≡◌, ◌≢◌, ◌∙◌, sym, refl, ap, ap₂, inl, inr,
  Bool-cases, some, List, [], ◌∷◌, get_elem?, set, replicate, length-set, length-replicate, ltb,
  ◌==◌, length, arith,
}
use ipcf.Common.Fault.{>>=-eq-some}
use ipcf.Lock.{
  Lock, Thread, outside, waiting, inside, posting, lock_init, wait, unlock, post, System, start,
  move, step, run,
}
use ipcf.Lock.Inv.{
  at_lock, at_inside, at_posting, count, count-set, count-pos, count-replicate, Balanced,
  start-Balanced, step-Balanced, run-Balanced,
}

count-two :
    (f : Thread → ℕ) (ts : List Thread) (i j : ℕ) (t u : Thread)
    → get_elem? ts i ≡ some t
    → get_elem? ts j ≡ some u
    → i ≢ j
    → f t + f u ≤ count f ts
unfolding count
count-two f [] i j t u hi hj d = absurd (ground (arith, hi))
count-two f (x ∷ ts) zero zero t u hi hj d = absurd (d refl)
count-two f (x ∷ ts) zero (suc j) t u hi hj d =
    let same : x ≡ t = ground (arith, hi) in rw same (omega (arith, count-pos f ts j u hj))
count-two f (x ∷ ts) (suc i) zero t u hi hj d =
    let same : x ≡ u = ground (arith, hj) in rw same (omega (arith, count-pos f ts i t hi))
count-two f (x ∷ ts) (suc i) (suc j) t u hi hj d =
    omega (arith, count-two f ts i j t u hi hj (λ e. d (ap suc e)))

-- A thread that is counted.
count-some :
    (f : Thread → ℕ) (ts : List Thread)
    → 0 < count f ts
    → (i : ℕ) × (t : Thread) × (get_elem? ts i ≡ some t) × (0 < f t)
unfolding count
count-some f [] h = absurd (omega arith)
count-some f (t ∷ ts) h = elim (Bool-cases (ltb 0 (f t))) [
  | inl q ↦ (0, t, refl, ground (arith, q))
  | inr q ↦ let (i, u, at, pos) = count-some f ts (ground (arith, q, h)) in (suc i, u, at, pos)
]

-- How many steps a thread has left until it is outside.
abbrev left : Thread → ℕ
left outside = 0
left waiting = 3
left inside = 2
left posting = 1

-- A thread that can move, and is not outside.
move-left :
    (s : System) (t : Thread)
    → 0 < left t
    → (t ≡ waiting → 0 < s.lock.sem)
    → (l : Lock) × (t' : Thread) × (move t s.lock ≡ some (l, t')) × (left t' < left t)
unfolding move wait unlock post
move-left s outside h w = absurd (omega arith)
move-left s waiting h w =
    (record s.lock { sem = s.lock.sem - 1 }, inside, ground (arith, w refl), omega arith)
move-left s inside h w =
    let cnt = (s.lock.cnt + 2 ^ 32 - 1) % 2 ^ 32 in
    elim (Bool-cases (ltb 0 cnt)) [
      | inl q ↦ (record s.lock { cnt = cnt }, posting, rw q refl, omega arith)
      | inr q ↦ (record s.lock { cnt = cnt }, outside, rw q refl, omega arith)
    ]
move-left s posting h w = (record s.lock { sem = s.lock.sem + 1 }, outside, refl, omega arith)

inside-left : (t : Thread) → 0 < at_inside t → (0 < left t) × (t ≢ waiting)
inside-left outside h = absurd (omega arith)
inside-left waiting h = absurd (omega arith)
inside-left inside h = (omega arith, λ e. absurd (ground (arith, e)))
inside-left posting h = absurd (omega arith)

posting-left : (t : Thread) → 0 < at_posting t → (0 < left t) × (t ≢ waiting)
posting-left outside h = absurd (omega arith)
posting-left waiting h = absurd (omega arith)
posting-left inside h = absurd (omega arith)
posting-left posting h = (omega arith, λ e. absurd (ground (arith, e)))

-- A thread that is not outside and can move, if there is one that is not outside: the one inside,
-- one that is about to post, or any that waits if there is none of these.
mover :
    (s : System)
    → Balanced s
    → 0 < count left s.threads
    → (i : ℕ) × (t : Thread) × (get_elem? s.threads i ≡ some t)
      × (0 < left t)
      × (t ≡ waiting → 0 < s.lock.sem)
mover s inv h = elim (Bool-cases (ltb 0 (count at_inside s.threads))) [
  | inl q ↦
      let (i, t, at, pos) = count-some at_inside s.threads (ground (arith, q)) in
      let (far, other) = inside-left t pos in (i, t, at, far, λ e. absurd (other e))
  | inr q ↦ elim (Bool-cases (ltb 0 (count at_posting s.threads))) [
    | inl r ↦
        let (i, t, at, pos) = count-some at_posting s.threads (ground (arith, r)) in
        let (far, other) = posting-left t pos in (i, t, at, far, λ e. absurd (other e))
    | inr r ↦
        let (i, t, at, pos) = count-some left s.threads h in
        (
          i,
          t,
          at,
          pos,
          λ e.
              let one : at_lock t ≡ 1 = ap at_lock e in
              let counted : 0 < s.lock.cnt =
                omega (arith, inv.counted, one, count-pos at_lock s.threads i t at) in
              ground (arith, q, r, inv.token, counted),
        )
  ]
]

-- A step that brings a thread nearer to the outside, if there is one that is not.
step-left :
    (s : System)
    → Balanced s
    → 0 < count left s.threads
    → (i : ℕ) × (s' : System) × (step i s ≡ some s')
      × (count left s'.threads < count left s.threads)
unfolding step
step-left s inv h =
    let (i, t, at, pos, ready) = mover s inv h in
    let (l, t', moved, less) = move-left s t pos ready in
    (
      i,
      record { lock = l; threads = set s.threads i t' },
      rw (at, moved) refl,
      omega (arith, less, count-set left s.threads i t t' at, count-pos left s.threads i t at),
    )

left-outside : (ts : List Thread) → count left ts ≡ 0 → ts ≡ replicate (length ts) outside
unfolding count
left-outside [] h = refl
left-outside (outside ∷ ts) h = ap (λ l. outside ∷ l) (left-outside ts (omega (arith, h)))
left-outside (waiting ∷ ts) h = absurd (omega arith)
left-outside (inside ∷ ts) h = absurd (omega arith)
left-outside (posting ∷ ts) h = absurd (omega arith)

-- When all threads are outside, the lock is as it was made.
outside-start : (s : System) → Balanced s → count left s.threads ≡ 0 → s ≡ start (length s.threads)
outside-start s inv h =
    let all = left-outside s.threads h in
    let cnt0 : s.lock.cnt ≡ 0 =
      inv.counted ∙ ap (count at_lock) all ∙ count-replicate at_lock (length s.threads) refl in
    let sem0 : s.lock.sem ≡ 0 = ground (arith, inv.token, cnt0) in
    let lock0 : s.lock ≡ lock_init = ap₂ (λ (a b : ℕ). record { sem = a; cnt = b }) sem0 cnt0 in
    ap₂ (λ (l : Lock) (ts : List Thread). record { lock = l; threads = ts }) lock0 all

step-length : (i : ℕ) (s s' : System) → step i s ≡ some s' → length s'.threads ≡ length s.threads
unfolding step
step-length i s s' h =
    let (t, at, later) = >>=-eq-some (get_elem? s.threads i) _ h in
    let (r, moved, done) = >>=-eq-some (move t s.lock) _ later in
    let is : set s.threads i r.1 ≡ s'.threads = ground (arith, done) in
    ap length (sym is) ∙ length-set s.threads i r.1

run-length :
    (is : List ℕ) (s s' : System) → run is s ≡ some s' → length s'.threads ≡ length s.threads
unfolding run
run-length [] s s' h = ground (arith, h)
run-length (i ∷ is) s s' h =
    let (s1, moved, later) = >>=-eq-some (step i s) _ h in
    run-length is s1 s' later ∙ step-length i s s1 moved

-- On fuel for the steps that are left.
run-drains :
    (n : ℕ) (s : System)
    → count left s.threads ≤ n
    → Balanced s
    → (is : List ℕ) × (run is s ≡ some (start (length s.threads)))
unfolding run
run-drains zero s h inv = ([], ap some (outside-start s inv (omega (arith, h))))
run-drains (suc n) s h inv = elim (Bool-cases (ltb 0 (count left s.threads))) [
  | inr q ↦ ([], ap some (outside-start s inv (ground (arith, q))))
  | inl q ↦
      let (i, s1, moved, less) = step-left s inv (ground (arith, q)) in
      let (is, ran) = run-drains n s1 (omega (arith, less, h)) (step-Balanced i s s1 inv moved) in
      let size = step-length i s s1 moved in
      (i ∷ is, rw moved (ran ∙ ap (λ m. some (start m)) size))
]

module _ (n : ℕ) (few : n < 2 ^ 32) (is : List ℕ) (s : System)
    (ran : run is (start n) ≡ some s) where
  -- After any schedule of fewer than 2^32 threads there is at most one thread between `_lock` and
  -- `_unlock`.
  pub excludes :
      (i j : ℕ) → get_elem? s.threads i ≡ some inside → get_elem? s.threads j ≡ some inside → i ≡ j
  excludes i j hi hj =
      let inv = run-Balanced is (start n) s (start-Balanced n few) ran in
      elim (Bool-cases (i == j)) [
        | inl q ↦ ground (arith, q)
        | inr q ↦
            let two =
              count-two at_inside s.threads i j inside inside hi hj (λ e. ground (arith, q, e)) in
            absurd (ground (arith, two, inv.token))
      ]

  -- After any schedule of fewer than 2^32 threads there is a schedule that leads all threads out,
  -- and then the lock is as it was made.
  pub drains : (is' : List ℕ) × (run is' s ≡ some (start n))
  drains =
      let inv = run-Balanced is (start n) s (start-Balanced n few) ran in
      let (is', out) = run-drains (count left s.threads) s (omega arith) inv in
      let size : length s.threads ≡ n =
        run-length is (start n) s ran ∙ length-replicate n outside in
      (is', out ∙ ap (λ m. some (start m)) size)
