-- ===== src/Lock/Inv.antt =====
-- The light lock: one thread inside at most, and none that waits for ever.
use ipcf.Common.{
  ℕ, zero, suc, ◌+◌, ◌-◌, ◌%◌, ◌^◌, ◌≤◌, ◌<◌, ◌≡◌, sym, refl, inl, inr, Bool-cases, some, List, [],
  ◌∷◌, get_elem?, set, replicate, length-replicate, length-set, ltb, ◌==◌, if◌then◌else◌, length,
  arith,
}
use ipcf.Common.Fault.{>>=-eq-some}
use ipcf.Lock.{
  Lock, Thread, outside, waiting, inside, posting, lock, wait, unlock, post, System, start, move,
  step, run,
}

-- How many threads are at a place.
abbrev pub at_lock : Thread → ℕ
at_lock outside = 0
at_lock waiting = 1
at_lock inside = 1
at_lock posting = 0

abbrev pub at_inside : Thread → ℕ
at_inside outside = 0
at_inside waiting = 0
at_inside inside = 1
at_inside posting = 0

abbrev pub at_posting : Thread → ℕ
at_posting outside = 0
at_posting waiting = 0
at_posting inside = 0
at_posting posting = 1

unfoldable pub count : (Thread → ℕ) → List Thread → ℕ
count f [] = 0
count f (t ∷ ts) = f t + count f ts

pub count-set :
    (f : Thread → ℕ) (ts : List Thread) (i : ℕ) (t t' : Thread)
    → get_elem? ts i ≡ some t
    → count f (set ts i t') + f t ≡ count f ts + f t'
unfolding count
count-set f [] i t t' h = absurd (ground (arith, h))
count-set f (x ∷ ts) zero t t' h = let same : x ≡ t = ground (arith, h) in rw same (omega arith)
count-set f (x ∷ ts) (suc i) t t' h = omega (arith, count-set f ts i t t' h)

pub count-replicate : (f : Thread → ℕ) (n : ℕ) → f outside ≡ 0 → count f (replicate n outside) ≡ 0
unfolding count
count-replicate f zero h = refl
count-replicate f (suc n) h = omega (arith, h, count-replicate f n h)

count-le : (f : Thread → ℕ) → ((t : Thread) → f t ≤ 1) → (ts : List Thread) → count f ts ≤ length ts
unfolding count
count-le f h [] = omega arith
count-le f h (t ∷ ts) = omega (arith, h t, count-le f h ts)

pub count-pos :
    (f : Thread → ℕ) (ts : List Thread) (i : ℕ) (t : Thread)
    → get_elem? ts i ≡ some t
    → f t ≤ count f ts
unfolding count
count-pos f [] i t h = absurd (ground (arith, h))
count-pos f (x ∷ ts) zero t h = let same : x ≡ t = ground (arith, h) in rw same (omega arith)
count-pos f (x ∷ ts) (suc i) t h = omega (arith, count-pos f ts i t h)

-- The counter counts the threads that wait or are inside; while it is not 0, just one thread is
-- inside or about to let one in, or the semaphore is 1.
pub record Balanced (s : System) : Type 0 where
  pub few : length s.threads < 2 ^ 32
  pub counted : s.lock.cnt ≡ count at_lock s.threads
  pub token :
      count at_inside s.threads + s.lock.sem + count at_posting s.threads
      ≡ (if s.lock.cnt == 0 then 0 else 1)

pub start-Balanced : (n : ℕ) → n < 2 ^ 32 → Balanced (start n)
start-Balanced n h = record {
  few = omega (arith, length-replicate n outside);
  counted = sym (count-replicate at_lock n refl);
  token = ground (arith, count-replicate at_inside n refl, count-replicate at_posting n refl);
}

at_lock-le : (t : Thread) → at_lock t ≤ 1
at_lock-le outside = omega arith
at_lock-le waiting = omega arith
at_lock-le inside = omega arith
at_lock-le posting = omega arith

-- A thread goes from `t` to `t'`, and the lock changes so that the counts stay right.
module _ (s : System) (i : ℕ) (t t' : Thread) (inv : Balanced s)
    (at : get_elem? s.threads i ≡ some t) where
  -- The counts before the step.
  abbrev insiders : ℕ
  insiders = count at_inside s.threads

  abbrev posters : ℕ
  posters = count at_posting s.threads

  set-Balanced :
      (l : Lock)
      → l.cnt + at_lock t ≡ s.lock.cnt + at_lock t'
      → ((x y : ℕ)
          → x + at_inside t ≡ insiders + at_inside t'
          → y + at_posting t ≡ posters + at_posting t'
          → x + l.sem + y ≡ (if l.cnt == 0 then 0 else 1))
      → Balanced (record { lock = l; threads = set s.threads i t' })
  set-Balanced l hc ht = record {
    few = omega (arith, length-set s.threads i t', inv.few);
    counted = omega (arith, hc, inv.counted, count-set at_lock s.threads i t t' at);
    token =
        ht _ _ (count-set at_inside s.threads i t t' at) (count-set at_posting s.threads i t t' at);
  }

  -- The counter does not overflow, nor go below the threads that it counts.
  room : at_lock t' ≡ at_lock t + 1 → s.lock.cnt + 1 < 2 ^ 32
  room h = omega (
    arith,
    count-set at_lock s.threads i t t' at,
    count-le at_lock at_lock-le (set s.threads i t'),
    length-set s.threads i t',
    inv.few,
    inv.counted,
  )

  held : at_lock t ≤ s.lock.cnt
  held = omega (arith, inv.counted, count-pos at_lock s.threads i t at)

  held_inside : at_inside t ≤ insiders
  held_inside = count-pos at_inside s.threads i t at

  held_posting : at_posting t ≤ posters
  held_posting = count-pos at_posting s.threads i t at

-- A step of a thread.
move-Balanced :
    (s : System) (i : ℕ) (t t' : Thread) (l : Lock)
    → Balanced s
    → get_elem? s.threads i ≡ some t
    → move t s.lock ≡ some (l, t')
    → Balanced (record { lock = l; threads = set s.threads i t' })
unfolding move lock wait unlock post
move-Balanced s i outside t' l inv at h = elim (Bool-cases (ltb 0 s.lock.cnt)) [
  | inl q ↦
      let next : (s.lock.cnt + 1) % 2 ^ 32 ≡ s.lock.cnt + 1 =
        omega (arith, room s i outside waiting inv at refl) in
      let to : waiting ≡ t' = ground (arith, h, q) in
      let l' : Lock = record s.lock { cnt = (s.lock.cnt + 1) % 2 ^ 32 } in
      let is : l' ≡ l = ground (arith, h) in
      rw (sym to, sym is)
        (set-Balanced s i outside waiting inv at l' (omega (arith, next))
          (λ x y hx hy. rw next (ground (arith, q, hx, hy, inv.token))))
  | inr q ↦
      let next : (s.lock.cnt + 1) % 2 ^ 32 ≡ s.lock.cnt + 1 =
        omega (arith, room s i outside inside inv at refl) in
      let to : inside ≡ t' = ground (arith, h, q) in
      let l' : Lock = record s.lock { cnt = (s.lock.cnt + 1) % 2 ^ 32 } in
      let is : l' ≡ l = ground (arith, h) in
      rw (sym to, sym is)
        (set-Balanced s i outside inside inv at l' (omega (arith, next))
          (λ x y hx hy. rw next (ground (arith, q, hx, hy, inv.token))))
]
move-Balanced s i waiting t' l inv at h = elim (Bool-cases (ltb 0 s.lock.sem)) [
  | inl q ↦
      let to : inside ≡ t' = ground (arith, h, q) in
      let l' : Lock = record s.lock { sem = s.lock.sem - 1 } in
      let is : l' ≡ l = ground (arith, h, q) in
      rw (sym to, sym is)
        (set-Balanced s i waiting inside inv at l' refl
          (λ x y hx hy. ground (arith, q, hx, hy, inv.token)))
  | inr q ↦ absurd (ground (arith, h, q))
]
move-Balanced s i inside t' l inv at h =
    let some_left : 0 < s.lock.cnt = omega (arith, held s i inside inside inv at) in
    let here = held_inside s i inside inside inv at in
    let below : s.lock.cnt < 2 ^ 32 =
      omega (arith, inv.counted, inv.few, count-le at_lock at_lock-le s.threads) in
    let next : (s.lock.cnt + 2 ^ 32 - 1) % 2 ^ 32 ≡ s.lock.cnt - 1 =
      omega (arith, some_left, below) in
    let l' : Lock = record s.lock { cnt = (s.lock.cnt + 2 ^ 32 - 1) % 2 ^ 32 } in
    let is : l' ≡ l = ground (arith, h) in
    elim (Bool-cases (ltb 0 (s.lock.cnt - 1))) [
      | inl q ↦
          let to : posting ≡ t' = ground (arith, h, next, q) in
          rw (sym to, sym is)
            (set-Balanced s i inside posting inv at l' (omega (arith, next, some_left))
              (λ x y hx hy. rw next (ground (arith, q, hx, hy, inv.token, here))))
      | inr q ↦
          let to : outside ≡ t' = ground (arith, h, next, q) in
          rw (sym to, sym is)
            (set-Balanced s i inside outside inv at l' (omega (arith, next, some_left))
              (λ x y hx hy. rw next (ground (arith, q, hx, hy, inv.token, here, some_left))))
    ]
move-Balanced s i posting t' l inv at h =
    let to : outside ≡ t' = ground (arith, h) in
    let l' : Lock = record s.lock { sem = s.lock.sem + 1 } in
    let is : l' ≡ l = ground (arith, h) in
    rw (sym to, sym is)
      (set-Balanced s i posting outside inv at l' refl
        (λ x y hx hy. ground (arith, hx, hy, inv.token)))

pub step-Balanced : (i : ℕ) (s s' : System) → Balanced s → step i s ≡ some s' → Balanced s'
unfolding step
step-Balanced i s s' inv h =
    let (t, at, later) = >>=-eq-some (get_elem? s.threads i) _ h in
    let (r, moved, done) = >>=-eq-some (move t s.lock) _ later in
    let is : record { lock = r.0; threads = set s.threads i r.1 } ≡ s' = ground (arith, done) in
    rw (sym is) (move-Balanced s i t r.1 r.0 inv at moved)

pub run-Balanced : (is : List ℕ) (s s' : System) → Balanced s → run is s ≡ some s' → Balanced s'
unfolding run
run-Balanced [] s s' inv h = let same : s ≡ s' = ground (arith, h) in rw (sym same) inv
run-Balanced (i ∷ is) s s' inv h =
    let (s1, moved, later) = >>=-eq-some (step i s) _ h in
    run-Balanced is s1 s' (step-Balanced i s s1 inv moved) later
