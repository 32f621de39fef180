-- ===== src/Common/Xor.antt =====
-- The laws of `bit_xor` at variables, by the digit recursion.
use Prim.Native.Nat.{ℕ, zero, suc, ◌+◌, ◌*◌, ◌/◌, ◌%◌, ◌^◌, ◌≤◌, ◌<◌, differ}
use Prim.Native.Nat.{bit_xor, bit_xor-bitwise}
use mathlib.Core.Path.{◌≡◌, refl, sym, ap, ◌∙◌}
use mathlib.Core.Logic.{◌⊎◌}
use native.Mathlib.Omega.{arith}
use native.Mathlib.Nat.{pow-suc, mul_comm, div-div-eq-div-mul}
use ipcf.Common.Bits.{bitwise-halves}

differ_step : (t : ℕ) → t ≡ t / 2 * 2 + differ 0 (t % 2)
differ_step t = omega arith

pub bit_xor_step : (a b : ℕ) → bit_xor a b ≡ bit_xor (a / 2) (b / 2) * 2 + differ (a % 2) (b % 2)
bit_xor_step a b =
    rw (bit_xor-bitwise a b, bit_xor-bitwise (a / 2) (b / 2))
      (bitwise-halves (λ t. t) differ differ_step a b)

below_two : (a : ℕ) → a < 2 → (a ≡ 0) ⊎ (a ≡ 1)
below_two a h = omega arith

differ_digits : (a b : ℕ) → a < 2 → b < 2 → differ a b ≡ (a + b) % 2
differ_digits zero zero p q = refl
differ_digits zero (suc zero) p q = refl
differ_digits (suc zero) zero p q = refl
differ_digits (suc zero) (suc zero) p q = refl
differ_digits (suc (suc a)) b p q = absurd (omega arith)
differ_digits zero (suc (suc b)) p q = absurd (omega arith)
differ_digits (suc zero) (suc (suc b)) p q = absurd (omega arith)

-- The lowest digit of a result, and the others.
pub half-bit_xor : (a b : ℕ) → bit_xor a b / 2 ≡ bit_xor (a / 2) (b / 2)
half-bit_xor a b =
    omega (arith, bit_xor_step a b, differ_digits (a % 2) (b % 2) (omega arith) (omega arith))

pub parity-bit_xor : (a b : ℕ) → bit_xor a b % 2 ≡ (a + b) % 2
parity-bit_xor a b =
    omega (arith, bit_xor_step a b, differ_digits (a % 2) (b % 2) (omega arith) (omega arith))

eq_of_digits : (a b : ℕ) → a / 2 ≡ b / 2 → a % 2 ≡ b % 2 → a ≡ b
eq_of_digits a b h l = omega arith

assoc_fuel :
    (n a b c : ℕ) → a ≤ n → b ≤ n → c ≤ n → bit_xor (bit_xor a b) c ≡ bit_xor a (bit_xor b c)
assoc_fuel zero zero zero zero p q r = refl
assoc_fuel zero (suc a) b c p q r = absurd (omega arith)
assoc_fuel zero zero (suc b) c p q r = absurd (omega arith)
assoc_fuel zero zero zero (suc c) p q r = absurd (omega arith)
assoc_fuel (suc n) a b c p q r =
    let ih = assoc_fuel n (a / 2) (b / 2) (c / 2) (omega arith) (omega arith) (omega arith) in
    eq_of_digits (bit_xor (bit_xor a b) c) (bit_xor a (bit_xor b c))
      (rw (half-bit_xor (bit_xor a b) c, half-bit_xor a b, half-bit_xor a (bit_xor b c))
        (rw (half-bit_xor b c) ih))
      (omega (
        arith,
        parity-bit_xor (bit_xor a b) c,
        parity-bit_xor a b,
        parity-bit_xor a (bit_xor b c),
        parity-bit_xor b c,
      ))

pub bit_xor_assoc : (a b c : ℕ) → bit_xor (bit_xor a b) c ≡ bit_xor a (bit_xor b c)
bit_xor_assoc a b c = assoc_fuel (a + b + c) a b c (omega arith) (omega arith) (omega arith)

comm_fuel : (n a b : ℕ) → a ≤ n → b ≤ n → bit_xor a b ≡ bit_xor b a
comm_fuel zero zero zero p q = refl
comm_fuel zero (suc a) b p q = absurd (omega arith)
comm_fuel zero zero (suc b) p q = absurd (omega arith)
comm_fuel (suc n) a b p q =
    eq_of_digits (bit_xor a b) (bit_xor b a)
      (rw (half-bit_xor a b, half-bit_xor b a)
        (comm_fuel n (a / 2) (b / 2) (omega arith) (omega arith)))
      (omega (arith, parity-bit_xor a b, parity-bit_xor b a))

pub bit_xor_comm : (a b : ℕ) → bit_xor a b ≡ bit_xor b a
bit_xor_comm a b = comm_fuel (a + b) a b (omega arith) (omega arith)

self_fuel : (n a : ℕ) → a ≤ n → bit_xor a a ≡ 0
self_fuel zero zero h = refl
self_fuel zero (suc a) h = absurd (omega arith)
self_fuel (suc n) a h =
    eq_of_digits (bit_xor a a) 0 (rw (half-bit_xor a a) (self_fuel n (a / 2) (omega arith)))
      (omega (arith, parity-bit_xor a a))

pub bit_xor_self : (a : ℕ) → bit_xor a a ≡ 0
bit_xor_self a = self_fuel a a (omega arith)

pub zero-bit_xor : (a : ℕ) → bit_xor 0 a ≡ a
zero-bit_xor a = bit_xor-bitwise 0 a

pub bit_xor-zero : (a : ℕ) → bit_xor a 0 ≡ a
bit_xor-zero a = bit_xor_comm a 0 ∙ zero-bit_xor a

pub bit_xor_cancel : (a b : ℕ) → bit_xor (bit_xor a b) b ≡ a
bit_xor_cancel a b = bit_xor_assoc a b b ∙ rw (bit_xor_self b) (bit_xor-zero a)

-- Two words of `k` bits differ in `k` bits.
pub bit_xor-lt : (k a b : ℕ) → a < 2 ^ k → b < 2 ^ k → bit_xor a b < 2 ^ k
bit_xor-lt zero zero zero p q = omega arith
bit_xor-lt zero (suc a) b p q = absurd (omega arith)
bit_xor-lt zero zero (suc b) p q = absurd (omega arith)
bit_xor-lt (suc k) a b p q = omega (
  arith,
  pow-suc 2 k,
  half-bit_xor a b,
  bit_xor-lt k (a / 2) (b / 2) (omega (arith, pow-suc 2 k)) (omega (arith, pow-suc 2 k)),
)

-- A bit that one of two words has above the other stays.
pub pow-le-bit_xor : (m a b : ℕ) → a < 2 ^ m → 2 ^ m ≤ b → 2 ^ m ≤ bit_xor a b
pow-le-bit_xor zero zero b p q = rw (zero-bit_xor b) q
pow-le-bit_xor zero (suc a) b p q = absurd (omega arith)
pow-le-bit_xor (suc m) a b p q = omega (
  arith,
  pow-suc 2 m,
  half-bit_xor a b,
  pow-le-bit_xor m (a / 2) (b / 2) (omega (arith, pow-suc 2 m)) (omega (arith, pow-suc 2 m)),
)

-- Disjoint fields: the difference is the sum.
join : (k r q : ℕ) → r < 2 ^ k → r + 2 ^ k * q ≡ bit_xor r (2 ^ k * q)
join zero zero q h = omega (arith, zero-bit_xor (1 * q))
join zero (suc r) q h = absurd (omega arith)
join (suc k) r q h =
    let double : 2 ^ suc k * q ≡ 2 * (2 ^ k * q) =
      omega (arith, ap (λ (t : ℕ). t * q) (pow-suc 2 k)) in
    let half : 2 * (2 ^ k * q) / 2 ≡ 2 ^ k * q = omega arith in
    rw double (
      eq_of_digits (r + 2 * (2 ^ k * q)) (bit_xor r (2 * (2 ^ k * q)))
        (rw (half-bit_xor r (2 * (2 ^ k * q)), half)
          (omega (arith, join k (r / 2) q (omega (arith, pow-suc 2 k)))))
        (omega (arith, parity-bit_xor r (2 * (2 ^ k * q)))))

-- A word is its low byte and the rest.
pub split_byte : (a : ℕ) → a ≡ bit_xor (a % 256) (2 ^ 8 * (a / 256))
split_byte a = omega (arith, join 8 (a % 256) (a / 256) (omega arith))

-- The high bits of a word pass over a smaller one.
high_bits : (k a b : ℕ) → b < 2 ^ k → bit_xor a b / 2 ^ k ≡ a / 2 ^ k
high_bits zero a zero h = ap (λ (t : ℕ). t / 1) (bit_xor-zero a)
high_bits zero a (suc b) h = absurd (omega arith)
high_bits (suc k) a b h =
    rw (pow-suc 2 k, mul_comm (2 ^ k) 2)
      (sym (div-div-eq-div-mul (bit_xor a b) 2 (2 ^ k))
        ∙ rw (half-bit_xor a b) (high_bits k (a / 2) (b / 2) (omega (arith, pow-suc 2 k)))
        ∙ div-div-eq-div-mul a 2 (2 ^ k))

pub high-bit_xor : (a b : ℕ) → b < 256 → bit_xor a b / 256 ≡ a / 256
high-bit_xor a b h = high_bits 8 a b h
