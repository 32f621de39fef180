-- ===== src/Split/Bitmap/Laws.antt =====
-- What the three operations do on the bitmap of one word that this build has (BITMAP32_SIZE is 1).
use ipcf.Common.{
  ℕ, zero, suc, ◌+◌, ◌-◌, ◌/◌, ◌^◌, ◌≤◌, ◌<◌, ◌≡◌, ◌≢◌, ◌↔◌, sym, true, false, Option, none, some,
  [], ◌∷◌, arith, bit_and, bit_or, ltb, leb, ◌==◌, if◌then◌else◌, inl, inr, Bool-cases, ◌⊎◌,
}
use ipcf.Common.Bits.{
  bit, bit-lt, one_at, one_at-pow, bit_and-one_at, bit-bit_or_self, bit-bit_or_ne, bit_and_word,
}
use ipcf.Common.Word.{u8}
use ipcf.Split.Bitmap.{set_bit, zero_loop, find_first_zero, test_all_bits_set}
use native.Mathlib.Nat.{pow-suc, one-le-pow}

-- In a bitmap of one word, `set_bit` of an index below 32 is no fault; it sets that bit and leaves
-- the others.
pub set_bit_lem :
    (w k : ℕ)
    → k < 32
    → (v : ℕ) × (set_bit (w ∷ []) k ≡ some (v ∷ []))
      × (bit v k ≡ 1)
      × ((j : ℕ) → j ≢ k → bit v j ≡ bit w j)
unfolding set_bit
set_bit_lem w k h =
    let word : k / 32 ≡ 0 = omega arith in
    let place : bit_and k 0x1f ≡ k = omega (arith, bit_and_word k) in
    (
      bit_or w (one_at k),
      rw (word, place, one_at-pow k),
      bit-bit_or_self w k,
      λ j ne. bit-bit_or_ne w k j (λ e. ne (sym e)),
    )

one_at-pos : (i : ℕ) → 0 < one_at i
unfolding one_at
one_at-pos zero = omega arith
one_at-pos (suc i) = omega (arith, one_at-pos i)

bit-cases : (w i : ℕ) → (bit w i ≡ 0) ⊎ (bit w i ≡ 1)
bit-cases w i = omega (arith, bit-lt w i)

-- The test of one bit in the loop.
test_bit : (w k : ℕ) → k < 32 → (bit_and w (2 ^ bit_and k 0x1f) == 0) ≡ (bit w k == 0)
test_bit w k h =
    let place : bit_and k 0x1f ≡ k = omega (arith, bit_and_word k) in
    rw (place, one_at-pow k, bit_and-one_at w k)
      (elim (bit-cases w k) [
        | inl e ↦ rw e (ground arith)
        | inr e ↦ rw e (ground (arith, one_at-pos k))
      ])

-- The result of a search from `k` below `max`: the first bit that is 0, or -1 if all are 1.
abbrev pub IsFirstZero : ℕ → ℕ → ℕ → Option ℕ → Type 0
IsFirstZero w k max none = (j : ℕ) → k ≤ j → j < max → bit w j ≡ 1
IsFirstZero w k max (some z) =
    (k ≤ z) × (z < max) × (bit w z ≡ 0) × ((j : ℕ) → k ≤ j → j < z → bit w j ≡ 1)

IsFirstZero-step :
    (w k max : ℕ) (r : Option ℕ) → bit w k ≡ 1 → IsFirstZero w (k + 1) max r → IsFirstZero w k max r
IsFirstZero-step w k max none e h =
    λ j a b. elim (at_least k j a) [ inl q ↦ rw (← q) e | inr q ↦ h j q b ]
  where
    at_least : (k j : ℕ) → k ≤ j → (k ≡ j) ⊎ (k + 1 ≤ j)
    at_least k j a = omega arith
IsFirstZero-step w k max (some z) e h = (
  omega arith,
  h.1,
  h.2,
  λ j a b. elim (at_least k j a) [ inl q ↦ rw (← q) e | inr q ↦ h.3 j q b ],
)
  where
    at_least : (k j : ℕ) → k ≤ j → (k ≡ j) ⊎ (k + 1 ≤ j)
    at_least k j a = omega arith

zero_loop_lem :
    (w max fuel k : ℕ)
    → max < 32
    → k ≤ max
    → max < fuel + k
    → (r : Option ℕ) × (zero_loop (w ∷ []) (max / 32) max fuel 0 k ≡ some r) × IsFirstZero w k max r
unfolding zero_loop
zero_loop_lem w max zero k h l f = absurd (omega arith)
zero_loop_lem w max (suc fuel) k h l f = elim (Bool-cases (ltb k max)) [
  | inr ended ↦ (none, ground arith, λ j a b. absurd (ground arith))
  | inl more ↦
      let lt : k < max = ground arith in
      let word : leb 0 (max / 32) ≡ true = ground arith in
      elim (bit-cases w k) [
        | inl e ↦ (
          some k,
          rw (word, more, test_bit w k (omega arith), e),
          (omega arith, lt, e, λ j a b. absurd (omega arith)),
        )
        | inr e ↦
            let (r, run, first) = zero_loop_lem w max fuel (k + 1) h (omega arith) (omega arith) in
            let next : u8 (k + 1) ≡ k + 1 = omega arith in
            let stay : (bit_and (k + 1) 0x1f == 0) ≡ false = ground (arith, bit_and_word (k + 1)) in
            (
              r,
              rw (word, more, test_bit w k (omega arith), e, next, stay) run,
              IsFirstZero-step w k max r e first,
            )
      ]
]

-- On a bitmap of one word, from `k` up to `max`, which is below 32, the search never leaves the word
-- and ends; it finds the first bit strictly below `max` that is 0, or -1 if there is none.
pub find_first_zero_lem :
    (w k max : ℕ)
    → max < 32
    → k ≤ max
    → (r : Option ℕ) × (find_first_zero (w ∷ []) k max ≡ some r) × IsFirstZero w k max r
unfolding find_first_zero
find_first_zero_lem w k max h l =
    let word : k / 32 ≡ 0 = omega arith in
    rw word (zero_loop_lem w max (max - k + 1) k h l (omega arith))

full_of_mask : (t w j : ℕ) → w ≡ 2 ^ t - 1 → j < t → bit w j ≡ 1
unfolding bit
full_of_mask zero w j e h = absurd (omega arith)
full_of_mask (suc t) w zero e h = omega (arith, pow-suc 2 t, one-le-pow t 2)
full_of_mask (suc t) w (suc j) e h =
    full_of_mask t (w / 2) j (omega (arith, pow-suc 2 t, one-le-pow t 2)) (omega arith)

mask_of_full : (t w : ℕ) → w < 2 ^ t → ((j : ℕ) → j < t → bit w j ≡ 1) → w ≡ 2 ^ t - 1
unfolding bit
mask_of_full zero w h all = omega arith
mask_of_full (suc t) w h all = omega (
  arith,
  pow-suc 2 t,
  all 0 (omega arith),
  mask_of_full t (w / 2) (omega (arith, pow-suc 2 t)) (λ j l. all (suc j) (omega arith)),
  one-le-pow t 2,
)

-- For `n` below 32: no fault, and the answer is yes exactly if the `n` lowest bits are 1 and,
-- unless `n` is 0, every higher bit is 0.
pub test_all_bits_set_lem :
    (w n : ℕ)
    → n < 32
    → test_all_bits_set (w ∷ []) n ≡ some (if n == 0 then true else w == 2 ^ n - 1)
unfolding test_all_bits_set
test_all_bits_set_lem w n h =
    let words : n / 32 ≡ 0 = omega arith in
    let place : bit_and n 0x1f ≡ n = omega (arith, bit_and_word n) in
    rw (words, place) (ground arith)

-- `test_all_bits_set` of 1 to 31 slices, on a bitmap of one word, says yes exactly if the bits of
-- all of them are set and every higher bit is clear.
pub test_all_bits_set_iff :
    (w n : ℕ)
    → n < 32
    → 0 < n
    → (test_all_bits_set (w ∷ []) n ≡ some true) ↔ (((j : ℕ) → j < n → bit w j ≡ 1) × (w < 2 ^ n))
test_all_bits_set_iff w n h p = (
  λ e.
      let m : w ≡ 2 ^ n - 1 = ground (arith, test_all_bits_set_lem w n h) in
      (λ j l. full_of_mask n w j m l, omega (arith, one-le-pow n 2)),
  λ (all, lt). ground (arith, test_all_bits_set_lem w n h, mask_of_full n w lt all),
)
