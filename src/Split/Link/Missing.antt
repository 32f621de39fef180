-- ===== src/Split/Link/Missing.antt =====
-- What `send_ack` asks for: the slices whose bits are 0, in order.
use ipcf.Common.{
  ℕ, zero, suc, ◌+◌, ◌-◌, ◌≤◌, ◌<◌, ◌≡◌, ◌⊎◌, refl, true, Option, none, some, List, [], ◌∷◌, arith,
  length, ◌==◌, if◌then◌else◌, All, Bool-cases, inl, inr,
}
use ipcf.Common.Bits.{bit}
use ipcf.Common.Word.{u8}
use ipcf.Compact.Table.{has}
use ipcf.Split.Bitmap.{find_first_zero}
use ipcf.Split.Bitmap.Laws.{find_first_zero_lem, IsFirstZero}
use ipcf.Split.Recv.{missing_loop}

-- The clear bits of `w` among the `n` from `k` on, in ascending order.
unfoldable pub zeros : ℕ → ℕ → ℕ → List ℕ
zeros w k zero = []
zeros w k (suc n) = let rest = zeros w (k + 1) n in if bit w k == 0 then k ∷ rest else rest

pub length-zeros : (w k n : ℕ) → length (zeros w k n) ≤ n
unfolding zeros
length-zeros w k zero = omega arith
length-zeros w k (suc n) = ground (arith, length-zeros w (k + 1) n)

-- Where all bits are 1, nothing is missing.
zeros_none : (w k n : ℕ) → ((j : ℕ) → k ≤ j → j < k + n → bit w j ≡ 1) → zeros w k n ≡ []
unfolding zeros
zeros_none w k zero ones = refl
zeros_none w k (suc n) ones =
    rw (ones k (omega arith) (omega arith))
      (zeros_none w (k + 1) n (λ j a b. ones j (omega arith) (omega arith)))

-- The list from the first bit on that is 0.
zeros_first :
    (w k z n m : ℕ)
    → k ≤ z
    → k + n ≡ z + 1 + m
    → bit w z ≡ 0
    → ((j : ℕ) → k ≤ j → j < z → bit w j ≡ 1)
    → zeros w k n ≡ z ∷ zeros w (z + 1) m
unfolding zeros
zeros_first w k z zero m h e clear ones = absurd (omega arith)
zeros_first w k z (suc n) m h e clear ones = elim (here k z h) [
  | inl q ↦ let len : n ≡ m = omega arith in rw (q, clear, len) refl
  | inr q ↦ rw (ones k (omega arith) q) (
      zeros_first w (k + 1) z n m (omega arith) (omega arith) clear
        (λ j a b. ones j (omega arith) b))
]
  where
    here : (k z : ℕ) → k ≤ z → (k ≡ z) ⊎ (k < z)
    here k z h = omega arith

-- What the loop lists from `k` on, where `n` slices are left, and its last `k`, which is 0 only if
-- it lists nothing.
abbrev Lists : ℕ → ℕ → ℕ → ℕ → ℕ → Type 0
Lists w max fuel k n =
    (k' : ℕ) × (missing_loop (w ∷ []) max fuel k ≡ some (zeros w k n, k'))
    × (k ≤ k')
    × ((zeros w k n ≡ []) ⊎ (0 < k'))

-- A round of the loop, by what the search finds.
missing_loop-Lists :
    (w max fuel k n : ℕ) (r : Option ℕ)
    → max < 32
    → k + n ≡ max
    → find_first_zero (w ∷ []) k max ≡ some r
    → IsFirstZero w k max r
    → ((z m : ℕ) → k ≤ z → z + 1 + m ≡ max → Lists w max fuel (z + 1) m)
    → Lists w max (suc fuel) k n
unfolding missing_loop
missing_loop-Lists w max fuel k n none h e run first ih =
    let nothing = zeros_none w k n (λ j a b. first j a (omega arith)) in
    (k, rw (run, nothing) refl, omega arith, inl nothing)
missing_loop-Lists w max fuel k n (some z) h e run first ih =
    let m : ℕ = max - (z + 1) in
    let one = zeros_first w k z n m first.0 (omega (arith, first.1)) first.2 first.3 in
    let (k', ran, le, rest) = ih z m first.0 (omega (arith, first.1)) in
    let byte : u8 (z + 1) ≡ z + 1 = omega (arith, first.1) in
    (k', rw (run, byte, ran, one) refl, omega (arith, first.0), inr (omega arith))

missing_loop_from : (w max fuel k n : ℕ) → max < 32 → k + n ≡ max → n < fuel → Lists w max fuel k n
missing_loop_from w max zero k n h e f = absurd (omega arith)
missing_loop_from w max (suc fuel) k n h e f =
    let (r, run, first) = find_first_zero_lem w k max h (omega arith) in
    missing_loop-Lists w max fuel k n r h e run first
      (λ z m a b. missing_loop_from w max fuel (z + 1) m h b (omega arith))

zeros-has : (w k n j : ℕ) → k ≤ j → j < k + n → bit w j ≡ 0 → has j (zeros w k n) ≡ true
unfolding zeros
zeros-has w k zero j a b clear = absurd (omega arith)
zeros-has w k (suc n) j a b clear = elim (here k j a) [
  | inl q ↦ rw (q, clear) (ground arith)
  | inr q ↦ ground (arith, zeros-has w (k + 1) n j q, clear)
]
  where
    here : (k j : ℕ) → k ≤ j → (k ≡ j) ⊎ (k + 1 ≤ j)
    here k j a = omega arith

-- Each number listed is below the end of the range, and its bit is 0.
zeros-All : (w k n m : ℕ) → k + n ≤ m → All (λ j. (j < m) × (bit w j ≡ 0)) (zeros w k n)
unfolding zeros
zeros-All w k zero m h = tt
zeros-All w k (suc n) m h =
    let rest = zeros-All w (k + 1) n m (omega arith) in
    elim (Bool-cases (bit w k == 0)) [
      | inl q ↦ rw q ((omega arith, ground arith), rest)
      | inr q ↦ rw q rest
    ]

pub missing_loop_lem :
    (w n : ℕ)
    → n < 32
    → (k' : ℕ) × (missing_loop (w ∷ []) n 256 0 ≡ some (zeros w 0 n, k'))
      × ((zeros w 0 n ≡ []) ⊎ (0 < k'))
      × All (λ j. (j < n) × (bit w j ≡ 0)) (zeros w 0 n)
      × ((j : ℕ) → j < n → bit w j ≡ 0 → has j (zeros w 0 n) ≡ true)
      × (length (zeros w 0 n) ≤ n)
missing_loop_lem w n h =
    let (k', ran, le, rest) = missing_loop_from w n 256 0 n h (omega arith) (omega arith) in
    (
      k',
      ran,
      rest,
      zeros-All w 0 n n (omega arith),
      (λ j l clear. zeros-has w 0 n j (omega arith) (omega arith) clear),
      length-zeros w 0 n,
    )
