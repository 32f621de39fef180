-- ===== src/Csum/Recalc.antt =====
-- The update of a checksum against one's complement sums: RFC 1624, HC' = ~(~HC + ~m + m').
use ipcf.Common.{ℕ, ◌+◌, ◌/◌, ◌%◌, ◌^◌, ◌<◌, ◌≡◌, arith}
use ipcf.Csum.{complement16, recalc_csum16}

-- Modulo 65535 the complement of the new checksum is the complement of the old one, less the old
-- word and plus the new word, for 16-bit words, if one fold of the sum leaves no carry.
pub recalc_csum16_lem :
    (old_csum old_u16 new_u16 : ℕ)
    → old_csum < 2 ^ 16
    → old_u16 < 2 ^ 16
    → new_u16 < 2 ^ 16
    → let sum = complement16 old_csum + complement16 old_u16 + new_u16 in
      sum % 2 ^ 16 + sum / 2 ^ 16 < 2 ^ 16
      → (complement16 (recalc_csum16 old_csum old_u16 new_u16) + old_u16) % 65535
        ≡ (complement16 old_csum + new_u16) % 65535
unfolding recalc_csum16
recalc_csum16_lem old_csum old_u16 new_u16 h h' h'' fold = omega arith
