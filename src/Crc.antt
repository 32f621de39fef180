-- ===== src/Crc.antt =====
-- lib/crc.c: the table-driven CRCs of frame headers, slices and messages.
pub mod Table8
pub mod Table16
pub mod Table32
pub mod Serial
pub mod Agree
pub mod Detect
pub mod Bounds
mod Tests
use ipcf.Common.{ℕ, ◌-◌, ◌/◌, ◌%◌, ◌^◌, List, [], ◌∷◌, bit_and, bit_xor, get_or}
use ipcf.Common.Word.{u8}
use ipcf.Crc.Table8.{crc8_table}
use ipcf.Crc.Table16.{crc16_table}
use ipcf.Crc.Table32.{crc32_table}

-- The list is the `len` bytes of the buffer. The table has `u16` entries, and `crc` is a `u8`.
unfoldable pub crc8 : ℕ → List ℕ → ℕ
crc8 crc [] = crc
crc8 crc (b ∷ bs) = crc8 (u8 (get_or crc8_table (bit_and (bit_xor crc b) 0xff) 0)) bs

pub crc16_byte : ℕ → ℕ → ℕ
crc16_byte crc b = bit_xor (crc / 256) (get_or crc16_table (bit_and (bit_xor crc b) 0xff) 0)

unfoldable pub crc16 : ℕ → List ℕ → ℕ
unfolding crc16_byte
crc16 crc [] = crc
crc16 crc (b ∷ bs) = crc16 (crc16_byte crc b) bs

pub crc32_loop : ℕ → List ℕ → ℕ
crc32_loop crc [] = crc
crc32_loop crc (b ∷ bs) =
    crc32_loop (bit_xor (get_or crc32_table (bit_and (bit_xor crc b) 0xff) 0) (crc / 256)) bs

-- `~crc` of a `u32`.
unfoldable pub crc32c : List ℕ → ℕ
unfolding crc32_loop
crc32c bs = 2 ^ 32 - 1 - crc32_loop 0xffffffff bs
