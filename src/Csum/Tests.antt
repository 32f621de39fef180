-- ===== src/Csum/Tests.antt =====
-- The header of a packet in RFC 1071's example, and updates of a checksum.
use ipcf.Common.{◌+◌, ◌%◌, ◌≡◌, refl, [], ◌∷◌, ◌++◌, arith}
use ipcf.Csum.{csum, complement16, recalc_csum16}
use ipcf.Common.Word.{le16}
use ipcf.Csum.Check.{csum-verifies}
use ipcf.Csum.Recalc.{recalc_csum16_lem}

csum-example : csum (0x00 ∷ 0x01 ∷ 0xf2 ∷ 0x03 ∷ 0xf4 ∷ 0xf5 ∷ 0xf6 ∷ 0xf7 ∷ []) ≡ 0x0d22
unfolding csum
csum-example = refl

-- A sum of 0x1ffff: one fold leaves a carry, which is lost.
recalc_csum16-carry : complement16 (recalc_csum16 0 0 1) ≡ 0
unfolding recalc_csum16
recalc_csum16-carry = refl

recalc_csum16_lem_example :
    (complement16 (recalc_csum16 0x1234 0xc0a8 0x0a00) + 0xc0a8) % 65535
    ≡ (complement16 0x1234 + 0x0a00) % 65535
recalc_csum16_lem_example =
    recalc_csum16_lem 0x1234 0xc0a8 0x0a00 (omega arith) (omega arith) (omega arith) (omega arith)

csum-verifies_example :
    csum
      ((69 ∷ 0 ∷ 0 ∷ 41 ∷ []) ++ (le16 (csum (69 ∷ 0 ∷ 0 ∷ 41 ∷ 0 ∷ 0 ∷ 200 ∷ [])) ++ (200 ∷ [])))
    ≡ 0
csum-verifies_example = csum-verifies 2 (69 ∷ 0 ∷ 0 ∷ 41 ∷ []) (200 ∷ []) refl (omega arith)

-- A sum whose carries carry again: the checksum that is computed does not pass.
csum-carry :
    csum (
      0xff
      ∷ 0xff
      ∷ 0xff
      ∷ 0xff
      ∷ 1
      ∷ 0
      ∷ le16 (csum (0xff ∷ 0xff ∷ 0xff ∷ 0xff ∷ 1 ∷ 0 ∷ 0 ∷ 0 ∷ [])))
    ≡ 0xffff
unfolding csum
csum-carry = refl
