-- ===== src/Crc/Bounds.antt =====
-- The CRCs of lib/crc.c fit the words that hold them.
use ipcf.Common.{
  ℕ, ◌/◌, ◌^◌, ◌<◌, ◌≡◌, refl, true, List, [], ◌∷◌, arith, bit_and, bit_xor, get_or, ltb, ltb→lt,
}
use ipcf.Common.Bits.{all_below, all_below-true, bit_and_byte}
use ipcf.Common.Xor.{bit_xor-lt}
use ipcf.Crc.{crc8, crc16_byte, crc16, crc32c}
use ipcf.Crc.Table16.{crc16_table}

pub crc8-lt : (bs : List ℕ) (x : ℕ) → x < 256 → crc8 x bs < 256
unfolding crc8
crc8-lt [] x h = h
crc8-lt (b ∷ bs) x h = crc8-lt bs _ (omega arith)

table16_small : all_below 256 (λ i. ltb (get_or crc16_table i 0) 65536) ≡ true
unfolding all_below
table16_small = refl

pub crc16-lt : (bs : List ℕ) (x : ℕ) → x < 65536 → crc16 x bs < 65536
unfolding crc16 crc16_byte
crc16-lt [] x h = h
crc16-lt (b ∷ bs) x h =
    let index = bit_and (bit_xor x b) 0xff in
    let entry : get_or crc16_table index 0 < 65536 =
      ltb→lt _ 65536
        (all_below-true _ 256 table16_small index (omega (arith, bit_and_byte (bit_xor x b)))) in
    crc16-lt bs _ (bit_xor-lt 16 (x / 256) (get_or crc16_table index 0) (omega arith) entry)

pub crc32c-lt : (bs : List ℕ) → crc32c bs < 2 ^ 32
unfolding crc32c
crc32c-lt bs = omega arith
