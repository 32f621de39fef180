-- ===== src/Common/Bits.antt =====
-- Bits of words at variables: the laws of `bit_or` and `bit_and` with one bit, by the digit
-- recursion.
use Prim.Native.Nat.{ℕ, zero, suc, ◌+◌, ◌*◌, ◌/◌, ◌%◌, ◌^◌, ◌≤◌, ◌<◌, min, max, digits, bitwise}
use Prim.Native.Nat.{bit_and, bit_or, bit_and-bitwise, bit_or-bitwise}
use mathlib.Core.Path.{◌≡◌, refl, ap, sym, ◌∙◌}
use mathlib.Core.Logic.{◌≢◌}
use mathlib.Core.Bool.{Bool, true, ◌&&◌}
use native.Mathlib.Omega.{arith}
use native.Mathlib.Nat.{le_refl, pow-suc}

-- Every value below `n` passes a test, by evaluation.
unfoldable pub all_below : ℕ → (ℕ → Bool) → Bool
all_below zero p = true
all_below (suc n) p = p n && all_below n p

pub all_below-true : (p : ℕ → Bool) (n : ℕ) → all_below n p ≡ true → (x : ℕ) → x < n → p x ≡ true
unfolding all_below
all_below-true p zero passed x below = absurd (omega arith)
all_below-true p (suc n) passed x below =
    let smaller : all_below n p ≡ true = ground (arith, passed) in
    ground (arith, passed, all_below-true p n smaller x)

-- A digitwise operation: the lowest digit, and the same operation on the halves.
module _ (tail : ℕ → ℕ) (op : ℕ → ℕ → ℕ)
    (tail_step : (y : ℕ) → tail y ≡ tail (y / 2) * 2 + op 0 (y % 2)) where
  -- Any fuel that covers the first word gives what the word itself gives.
  enough_fuel : (s t x y : ℕ) → x ≤ t → t ≤ s → digits tail op s x y ≡ digits tail op t x y
  enough_fuel s t zero y below more = stops s ∙ sym (stops t)
    where
      stops : (fuel : ℕ) → digits tail op fuel 0 y ≡ tail y
      stops zero = refl
      stops (suc fuel) = refl
  enough_fuel s zero (suc x) y below more = absurd (omega arith)
  enough_fuel zero (suc t) (suc x) y below more = absurd (omega arith)
  enough_fuel (suc s) (suc t) (suc x) y below more =
      ap (λ (h : ℕ). h * 2 + op (suc x % 2) (y % 2))
        (enough_fuel s t (suc x / 2) (y / 2) (omega arith) (omega arith))

  pub bitwise-halves :
      (x y : ℕ) → bitwise tail op x y ≡ bitwise tail op (x / 2) (y / 2) * 2 + op (x % 2) (y % 2)
  bitwise-halves zero y = tail_step y
  bitwise-halves (suc x) y =
      let half = suc x / 2 in
      ap (λ (h : ℕ). h * 2 + op (suc x % 2) (y % 2))
        (enough_fuel x half half (y / 2) (omega arith) (omega arith))

pub bit_or_step : (x y : ℕ) → bit_or x y ≡ bit_or (x / 2) (y / 2) * 2 + max (x % 2) (y % 2)
bit_or_step x y =
    rw (bit_or-bitwise x y, bit_or-bitwise (x / 2) (y / 2))
      (bitwise-halves (λ t. t) max (λ t. omega arith) x y)

pub bit_and_step : (x y : ℕ) → bit_and x y ≡ bit_and (x / 2) (y / 2) * 2 + min (x % 2) (y % 2)
bit_and_step x y =
    rw (bit_and-bitwise x y, bit_and-bitwise (x / 2) (y / 2))
      (bitwise-halves (λ t. 0) min (λ t. omega arith) x y)

-- Two functions that agree at 0 and take the same digit at each halving are equal.
same_halves :
    (g h d : ℕ → ℕ)
    → g 0 ≡ h 0
    → ((x : ℕ) → g x ≡ g (x / 2) * 2 + d x)
    → ((x : ℕ) → h x ≡ h (x / 2) * 2 + d x)
    → (bound x : ℕ) → x ≤ bound
    → g x ≡ h x
same_halves g h d base gs hs bound zero le = base
same_halves g h d base gs hs zero (suc x) le = absurd (omega arith)
same_halves g h d base gs hs (suc bound) (suc x) le =
    let half = same_halves g h d base gs hs bound (suc x / 2) (omega arith) in
    omega (arith, gs (suc x), hs (suc x), half)

pub bit_or-zero : (x : ℕ) → bit_or x 0 ≡ x
bit_or-zero x =
    same_halves (λ y. bit_or y 0) (λ y. y) (λ y. y % 2) refl (λ y. omega (arith, bit_or_step y 0))
      (λ y. omega arith) x x (omega arith)

pub bit_and-zero : (x : ℕ) → bit_and x 0 ≡ 0
bit_and-zero x =
    same_halves (λ y. bit_and y 0) (λ y. 0) (λ y. 0) refl (λ y. omega (arith, bit_and_step y 0))
      (λ y. refl) x x (omega arith)

-- Bit `i` of a word.
unfoldable pub bit : ℕ → ℕ → ℕ
bit w zero = w % 2
bit w (suc i) = bit (w / 2) i

-- The word with bit `i` alone.
unfoldable pub one_at : ℕ → ℕ
one_at zero = 1
one_at (suc i) = 2 * one_at i

pub one_at-pow : (i : ℕ) → 2 ^ i ≡ one_at i
unfolding one_at
one_at-pow zero = refl
one_at-pow (suc i) = omega (arith, pow-suc 2 i, one_at-pow i)

pub bit-lt : (w i : ℕ) → bit w i < 2
unfolding bit
bit-lt w zero = omega arith
bit-lt w (suc i) = bit-lt (w / 2) i

pub bit-zero : (i : ℕ) → bit 0 i ≡ 0
unfolding bit
bit-zero zero = refl
bit-zero (suc i) = bit-zero i

one_at-half : (i : ℕ) → (2 * one_at i / 2 ≡ one_at i) × (2 * one_at i % 2 ≡ 0)
one_at-half i = omega arith

-- `w & (1 << i)` is the bit at its place.
pub bit_and-one_at : (w i : ℕ) → bit_and w (one_at i) ≡ bit w i * one_at i
unfolding bit one_at
bit_and-one_at w zero = omega (arith, bit_and_step w 1, bit_and-zero (w / 2))
bit_and-one_at w (suc i) =
    let (e, o) = one_at-half i in
    let step : bit_and w (2 * one_at i) ≡ bit_and (w / 2) (one_at i) * 2 + 0 =
      rw (bit_and_step w (2 * one_at i), e, o) (omega arith) in
    omega (arith, step, bit_and-one_at (w / 2) i)

or_half :
    (w i : ℕ)
    → (bit_or w (2 * one_at i) / 2 ≡ bit_or (w / 2) (one_at i))
      × (bit_or w (2 * one_at i) % 2 ≡ w % 2)
or_half w i =
    let (e, o) = one_at-half i in
    let step : bit_or w (2 * one_at i) ≡ bit_or (w / 2) (one_at i) * 2 + w % 2 =
      rw (bit_or_step w (2 * one_at i), e, o) (omega arith) in
    (omega (arith, step), omega (arith, step))

-- `w | (1 << i)` has bit `i`, and every other bit of `w`.
pub bit-bit_or_self : (w i : ℕ) → bit (bit_or w (one_at i)) i ≡ 1
unfolding bit one_at
bit-bit_or_self w zero = omega (arith, bit_or_step w 1)
bit-bit_or_self w (suc i) = rw ((or_half w i).0) (bit-bit_or_self (w / 2) i)

pub bit-bit_or_ne : (w i j : ℕ) → i ≢ j → bit (bit_or w (one_at i)) j ≡ bit w j
unfolding bit one_at
bit-bit_or_ne w zero zero h = absurd (h refl)
bit-bit_or_ne w zero (suc j) h =
    ap (λ v. bit v j) (omega (arith, bit_or_step w 1, bit_or-zero (w / 2)))
bit-bit_or_ne w (suc i) zero h = (or_half w i).1
bit-bit_or_ne w (suc i) (suc j) h =
    rw ((or_half w i).0) (bit-bit_or_ne (w / 2) i j (λ e. h (ap suc e)))

bit_and-one : (a : ℕ) → bit_and a 1 ≡ a % 2
bit_and-one a = omega (arith, bit_and_step a 1, bit_and-zero (a / 2))

bit_and_fifteen : (a : ℕ) → bit_and a 15 ≡ a % 16
bit_and_fifteen a = omega (
  arith,
  bit_and_step a 15,
  bit_and_step (a / 2) 7,
  bit_and_step (a / 2 / 2) 3,
  bit_and-one (a / 2 / 2 / 2),
)

-- `a & 0xff` is the low byte.
pub bit_and_byte : (a : ℕ) → bit_and a 0xff ≡ a % 256
bit_and_byte a = omega (
  arith,
  bit_and_step a 255,
  bit_and_step (a / 2) 127,
  bit_and_step (a / 2 / 2) 63,
  bit_and_step (a / 2 / 2 / 2) 31,
  bit_and_fifteen (a / 2 / 2 / 2 / 2),
)

-- `k & 0x1f`, the place of a bit in its word.
pub bit_and_word : (a : ℕ) → bit_and a 0x1f ≡ a % 32
bit_and_word a = omega (arith, bit_and_step a 31, bit_and_fifteen (a / 2))

zero_of_bits : (n w : ℕ) → w ≤ n → ((j : ℕ) → bit w j ≡ 0) → w ≡ 0
unfolding bit
zero_of_bits zero w h z = omega arith
zero_of_bits (suc n) zero h z = refl
zero_of_bits (suc n) (suc w) h z =
    omega (arith, z 0, zero_of_bits n (suc w / 2) (omega arith) (λ j. z (suc j)))

-- A word whose bits from `k` on are 0 has `k` bits.
pub lt_of_bits : (k w : ℕ) → ((j : ℕ) → k ≤ j → bit w j ≡ 0) → w < 2 ^ k
unfolding bit
lt_of_bits zero w z = omega (arith, zero_of_bits w w (le_refl w) (λ j. z j (omega arith)))
lt_of_bits (suc k) w z =
    omega (arith, pow-suc 2 k, lt_of_bits k (w / 2) (λ j l. z (suc j) (omega arith)))
