-- ===== src/Crc/Serial.antt =====
-- The reference: a CRC as a shift register that takes one bit at a time, lowest bit first.
use ipcf.Common.{
  ℕ, zero, suc, ◌*◌, ◌/◌, ◌%◌, ◌^◌, ◌≤◌, ◌<◌, ◌≡◌, ◌∙◌, sym, ap, List, [], ◌∷◌, ◌++◌, arith,
  bit_xor, ◌==◌, if◌then◌else◌, All,
}
use ipcf.Common.Xor.{
  half-bit_xor, parity-bit_xor, bit_xor_assoc, bit_xor_comm, pow-le-bit_xor, bit_xor-lt,
  bit_xor_cancel,
}
use native.Mathlib.Nat.{pow-suc}

-- One shift over the (reflected) polynomial `p`.
unfoldable pub shift : ℕ → ℕ → ℕ
shift p x = if x % 2 == 1 then bit_xor (x / 2) p else x / 2

unfoldable pub shifts : ℕ → ℕ → ℕ → ℕ
shifts p zero x = x
shifts p (suc k) x = shifts p k (shift p x)

unfoldable pub serial : ℕ → ℕ → List ℕ → ℕ
serial p crc [] = crc
serial p crc (b ∷ bs) = serial p (shifts p 8 (bit_xor crc b)) bs

module _ (p : ℕ) where
  -- Bits above the lowest pass through a shift unchanged.
  shift-bit_xor : (x y : ℕ) → shift p (bit_xor x (2 * y)) ≡ bit_xor (shift p x) y
  unfolding shift
  shift-bit_xor x y =
      let half : 2 * y / 2 ≡ y = omega arith in
      let odd : bit_xor x (2 * y) % 2 ≡ x % 2 = omega (arith, parity-bit_xor x (2 * y)) in
      let swap : bit_xor (bit_xor (x / 2) y) p ≡ bit_xor (bit_xor (x / 2) p) y =
        bit_xor_assoc (x / 2) y p
        ∙ ap (bit_xor (x / 2)) (bit_xor_comm y p)
        ∙ sym (bit_xor_assoc (x / 2) p y) in
      rw (odd, half-bit_xor x (2 * y), half) (ground (arith, swap))

  pub shifts-bit_xor : (k x y : ℕ) → shifts p k (bit_xor x (2 ^ k * y)) ≡ bit_xor (shifts p k x) y
  unfolding shifts
  shifts-bit_xor zero x y = ap (bit_xor x) (omega arith)
  shifts-bit_xor (suc k) x y =
      let double : 2 ^ suc k * y ≡ 2 * (2 ^ k * y) =
        omega (arith, ap (λ (t : ℕ). t * y) (pow-suc 2 k)) in
      rw (double, shift-bit_xor x (2 ^ k * y)) (shifts-bit_xor k (shift p x) y)

-- A polynomial of `m + 1` bits, the highest one set.
module _ (p m : ℕ) (top : 2 ^ m ≤ p) (fits : p < 2 ^ suc m) where
  pub shift-lt : (x : ℕ) → x < 2 ^ suc m → shift p x < 2 ^ suc m
  unfolding shift
  shift-lt x h = ground (arith, bit_xor-lt (suc m) (x / 2) p, pow-suc 2 m)

  pub shifts-lt : (k x : ℕ) → x < 2 ^ suc m → shifts p k x < 2 ^ suc m
  unfolding shifts
  shifts-lt zero x h = h
  shifts-lt (suc k) x h = shifts-lt k (shift p x) (shift-lt x h)

  -- A shift loses nothing: its result tells the bit that left.
  shift-injective : (x y : ℕ) → x < 2 ^ suc m → y < 2 ^ suc m → shift p x ≡ shift p y → x ≡ y
  unfolding shift
  shift-injective x y hx hy e = ground (
    arith,
    pow-suc 2 m,
    pow-le-bit_xor m (x / 2) p,
    pow-le-bit_xor m (y / 2) p,
    bit_xor_cancel (x / 2) p,
    bit_xor_cancel (y / 2) p,
  )

  shifts-injective :
      (k x y : ℕ) → x < 2 ^ suc m → y < 2 ^ suc m → shifts p k x ≡ shifts p k y → x ≡ y
  unfolding shifts
  shifts-injective zero x y hx hy e = e
  shifts-injective (suc k) x y hx hy e =
      shift-injective x y hx hy
        (shifts-injective k (shift p x) (shift p y) (shift-lt x hx) (shift-lt y hy) e)

  -- Two registers that differ still differ after the same bytes.
  pub serial-injective :
      (bs : List ℕ) (x y : ℕ)
      → All (λ b. b < 2 ^ suc m) bs
      → x < 2 ^ suc m
      → y < 2 ^ suc m
      → serial p x bs ≡ serial p y bs
      → x ≡ y
  unfolding serial
  serial-injective [] x y hb hx hy e = e
  serial-injective (b ∷ bs) x y hb hx hy e =
      let lx = bit_xor-lt (suc m) x b hx hb.0 in
      let ly = bit_xor-lt (suc m) y b hy hb.0 in
      let same = shifts-injective 8 (bit_xor x b) (bit_xor y b) lx ly (
        serial-injective bs (shifts p 8 (bit_xor x b)) (shifts p 8 (bit_xor y b)) hb.1
          (shifts-lt 8 (bit_xor x b) lx) (shifts-lt 8 (bit_xor y b) ly) e) in
      cc (bit_xor_cancel x b, bit_xor_cancel y b, ap (λ (t : ℕ). bit_xor t b) same)

  pub serial-lt :
      (bs : List ℕ) (x : ℕ)
      → All (λ b. b < 2 ^ suc m) bs
      → x < 2 ^ suc m
      → serial p x bs < 2 ^ suc m
  unfolding serial
  serial-lt [] x hb hx = hx
  serial-lt (b ∷ bs) x hb hx =
      serial-lt bs (shifts p 8 (bit_xor x b)) hb.1
        (shifts-lt 8 (bit_xor x b) (bit_xor-lt (suc m) x b hx hb.0))

-- The register tells any two buffers apart that differ in one byte.
module _ (p m : ℕ) (top : 2 ^ m ≤ p) (fits : p < 2 ^ suc m) where
  pub serial_detects :
      (front back : List ℕ) (x b c : ℕ)
      → All (λ b. b < 2 ^ suc m) (front ++ (b ∷ back))
      → x < 2 ^ suc m
      → c < 2 ^ suc m
      → serial p x (front ++ (b ∷ back)) ≡ serial p x (front ++ (c ∷ back))
      → b ≡ c
  unfolding serial
  serial_detects [] back x b c hb hx hc e =
      let lb = bit_xor-lt (suc m) x b hx hb.0 in
      let lc = bit_xor-lt (suc m) x c hx hc in
      let same = shifts-injective p m top fits 8 (bit_xor x b) (bit_xor x c) lb lc (
        serial-injective p m top fits back (shifts p 8 (bit_xor x b)) (shifts p 8 (bit_xor x c))
          hb.1 (shifts-lt p m top fits 8 (bit_xor x b) lb)
          (shifts-lt p m top fits 8 (bit_xor x c) lc) e) in
      cc (
        bit_xor_comm x b,
        bit_xor_comm x c,
        bit_xor_cancel b x,
        bit_xor_cancel c x,
        ap (λ (t : ℕ). bit_xor t x) same,
      )
  serial_detects (f ∷ front) back x b c hb hx hc e =
      serial_detects front back (shifts p 8 (bit_xor x f)) b c hb.1
        (shifts-lt p m top fits 8 (bit_xor x f) (bit_xor-lt (suc m) x f hx hb.0)) hc e
