-- ===== src/Csum.antt =====
-- lib/csum.c: the Internet checksum, and its update when a field of the packet changes.
pub mod Recalc
pub mod Check
mod Tests
use ipcf.Common.{ℕ, ◌+◌, ◌-◌, ◌*◌, ◌/◌, ◌%◌, ◌^◌, List, [], ◌∷◌}

unfoldable pub csum_add16 : ℕ → ℕ → ℕ
csum_add16 partial new = (partial + new) % 2 ^ 32

unfoldable pub csum_add32 : ℕ → ℕ → ℕ
csum_add32 partial new = (partial + new / 2 ^ 16 + new % 2 ^ 16) % 2 ^ 32

-- The 16-bit words of the data as a little-endian machine loads them; a last byte is added alone.
unfoldable pub csum_continue : ℕ → List ℕ → ℕ
unfolding csum_add16
csum_continue partial [] = partial
csum_continue partial (b ∷ []) = (partial + b) % 2 ^ 32
csum_continue partial (a ∷ b ∷ rest) = csum_continue (csum_add16 partial (a + 256 * b)) rest

-- `~` of a `uint32_t`, cut to 16 bits.
unfoldable pub csum_finish : ℕ → ℕ
csum_finish partial = (2 ^ 32 - 1 - (partial % 2 ^ 16 + partial / 2 ^ 16)) % 2 ^ 16

unfoldable pub csum : List ℕ → ℕ
unfolding csum_continue csum_finish
csum bytes = csum_finish (csum_continue 0 bytes)

-- `~` of a `uint16_t`, kept in one.
abbrev pub complement16 : ℕ → ℕ
complement16 x = 2 ^ 16 - 1 - x

unfoldable pub recalc_csum16 : ℕ → ℕ → ℕ → ℕ
recalc_csum16 old_csum old_u16 new_u16 =
    let sum = complement16 old_csum + complement16 old_u16 + new_u16 in
    complement16 ((sum + sum / 2 ^ 16) % 2 ^ 16)

-- The two arguments of 32 bits are cut to 16 bits at the inner call.
unfoldable pub recalc_csum32 : ℕ → ℕ → ℕ → ℕ
unfolding recalc_csum16
recalc_csum32 old_csum old_u32 new_u32 =
    recalc_csum16 (recalc_csum16 old_csum (old_u32 % 2 ^ 16) (new_u32 % 2 ^ 16)) (old_u32 / 2 ^ 16)
      (new_u32 / 2 ^ 16)
