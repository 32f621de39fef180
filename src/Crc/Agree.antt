-- ===== src/Crc/Agree.antt =====
-- The table-driven loops of lib/crc.c compute the shift register of their polynomial.
use ipcf.Common.{
  ℕ, ◌-◌, ◌/◌, ◌%◌, ◌^◌, ◌<◌, ◌≡◌, refl, sym, ap, ◌∙◌, true, List, [], ◌∷◌, arith, bit_and, bit_xor,
  get_or, ◌==◌, ==_iff, All,
}
use ipcf.Common.Bits.{all_below, all_below-true, bit_and_byte}
use ipcf.Common.Word.{u8, IsByte}
use ipcf.Common.Xor.{bit_xor_comm, bit_xor-lt, split_byte, high-bit_xor}
use ipcf.Crc.{crc8, crc16, crc32_loop, crc32c}
use ipcf.Crc.Table8.{crc8_table}
use ipcf.Crc.Table16.{crc16_table}
use ipcf.Crc.Table32.{crc32_table}
use ipcf.Crc.Serial.{shift, shifts, shifts-bit_xor, shifts-lt, serial}

-- The polynomials that the comments of crc8_table and crc16_table name, reflected: the lowest bit is
-- the highest power.
abbrev pub poly8 : ℕ
poly8 = 0xab

abbrev pub poly16 : ℕ
poly16 = 0xa001

-- That of CRC-32C, reflected; the comment of crc32Table names another one.
abbrev pub poly32 : ℕ
poly32 = 0x82f63b78

table8 : all_below 256 (λ i. get_or crc8_table i 0 == shifts poly8 8 i) ≡ true
unfolding all_below shifts shift
table8 = refl

table16 : all_below 256 (λ i. get_or crc16_table i 0 == shifts poly16 8 i) ≡ true
unfolding all_below shifts shift
table16 = refl

table32 : all_below 256 (λ i. get_or crc32_table i 0 == shifts poly32 8 i) ≡ true
unfolding all_below shifts shift
table32 = refl

-- An entry found by the low byte of a register, in terms of the register.
entry :
    (table : List ℕ) (p w : ℕ)
    → all_below 256 (λ i. get_or table i 0 == shifts p 8 i) ≡ true
    → get_or table (bit_and w 0xff) 0 ≡ shifts p 8 (w % 256)
entry table p w h =
    rw (bit_and_byte w) ((==_iff _ _).0 (all_below-true _ 256 h (w % 256) (omega arith)))

-- One byte of a register that is wider than a byte.
wide_step :
    (p x b : ℕ)
    → b < 256
    → bit_xor (x / 256) (shifts p 8 (bit_xor x b % 256)) ≡ shifts p 8 (bit_xor x b)
wide_step p x b h =
    bit_xor_comm (x / 256) (shifts p 8 (bit_xor x b % 256))
    ∙ ap (bit_xor (shifts p 8 (bit_xor x b % 256))) (sym (high-bit_xor x b h))
    ∙ sym (shifts-bit_xor p 8 (bit_xor x b % 256) (bit_xor x b / 256))
    ∙ ap (shifts p 8) (sym (split_byte (bit_xor x b)))

pub crc8-serial : (bs : List ℕ) (x : ℕ) → All IsByte bs → x < 256 → crc8 x bs ≡ serial poly8 x bs
unfolding crc8 serial
crc8-serial [] x hb hx = refl
crc8-serial (b ∷ bs) x hb hx =
    let lt = bit_xor-lt 8 x b hx hb.0 in
    let next = shifts-lt poly8 7 (omega arith) (omega arith) 8 (bit_xor x b) lt in
    let low : bit_xor x b % 256 ≡ bit_xor x b = omega arith in
    let same : u8 (get_or crc8_table (bit_and (bit_xor x b) 0xff) 0)
        ≡ shifts poly8 8 (bit_xor x b) =
      rw (entry crc8_table poly8 (bit_xor x b) table8, low) (omega arith) in
    rw same (crc8-serial bs (shifts poly8 8 (bit_xor x b)) hb.1 next)

pub crc16-serial : (bs : List ℕ) (x : ℕ) → All IsByte bs → crc16 x bs ≡ serial poly16 x bs
unfolding crc16 serial
crc16-serial [] x hb = refl
crc16-serial (b ∷ bs) x hb =
    rw (entry crc16_table poly16 (bit_xor x b) table16, wide_step poly16 x b hb.0)
      (crc16-serial bs (shifts poly16 8 (bit_xor x b)) hb.1)

crc32_loop-serial : (bs : List ℕ) (x : ℕ) → All IsByte bs → crc32_loop x bs ≡ serial poly32 x bs
unfolding crc32_loop serial
crc32_loop-serial [] x hb = refl
crc32_loop-serial (b ∷ bs) x hb =
    rw
      (
        entry crc32_table poly32 (bit_xor x b) table32,
        bit_xor_comm (shifts poly32 8 (bit_xor x b % 256)) (x / 256),
        wide_step poly32 x b hb.0,
      )
      (crc32_loop-serial bs (shifts poly32 8 (bit_xor x b)) hb.1)

pub crc32c-serial :
    (bs : List ℕ) → All IsByte bs → crc32c bs ≡ 2 ^ 32 - 1 - serial poly32 0xffffffff bs
unfolding crc32c
crc32c-serial bs hb = ap (λ (t : ℕ). 2 ^ 32 - 1 - t) (crc32_loop-serial bs 0xffffffff hb)

-- On bytes, the three loops over their tables are bit-serial registers: `crc8`, from a byte, and
-- `crc16`, from any value, those of the polynomials that the comments of their tables name, and
-- `crc32c` that of CRC-32C, which is not the one that the comment of its table names.
pub crc-serial :
    (bs : List ℕ) (x y : ℕ)
    → All IsByte bs
    → x < 256
    → (crc8 x bs ≡ serial poly8 x bs)
      × (crc16 y bs ≡ serial poly16 y bs)
      × (crc32c bs ≡ 2 ^ 32 - 1 - serial poly32 0xffffffff bs)
crc-serial bs x y hb hx = (crc8-serial bs x hb hx, crc16-serial bs y hb, crc32c-serial bs hb)
