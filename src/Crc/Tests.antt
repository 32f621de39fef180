-- ===== src/Crc/Tests.antt =====
-- The CRCs of lib/crc.c on the check string of CRC catalogues, and the theorems at it.
use ipcf.Common.{ℕ, ◌-◌, ◌^◌, ◌≡◌, ◌≢◌, refl, List, [], ◌∷◌, arith}
use ipcf.Crc.{crc8, crc16, crc32c}
use ipcf.Crc.Serial.{serial}
use ipcf.Crc.Agree.{poly8, poly16, poly32, crc-serial}
use ipcf.Crc.Detect.{crc_detects}

-- "123456789"
abbrev digits : List ℕ
digits = 0x31 ∷ 0x32 ∷ 0x33 ∷ 0x34 ∷ 0x35 ∷ 0x36 ∷ 0x37 ∷ 0x38 ∷ 0x39 ∷ []

-- CRC-16/MODBUS.
crc16-digits : crc16 0xffff digits ≡ 0x4b37
unfolding crc16
crc16-digits = refl

-- CRC-32/ISCSI.
crc32c-digits : crc32c digits ≡ 0xe3069283
unfolding crc32c
crc32c-digits = refl

crc-serial_example :
    (crc8 0xff digits ≡ serial poly8 0xff digits)
    × (crc16 0xffff digits ≡ serial poly16 0xffff digits)
    × (crc32c digits ≡ 2 ^ 32 - 1 - serial poly32 0xffffffff digits)
crc-serial_example = crc-serial digits 0xff 0xffff (omega arith) (omega arith)

crc_detects_example :
    (crc8 0xff (1 ∷ 2 ∷ 3 ∷ []) ≢ crc8 0xff (1 ∷ 9 ∷ 3 ∷ []))
    × (crc16 0xffff (1 ∷ 2 ∷ 3 ∷ []) ≢ crc16 0xffff (1 ∷ 9 ∷ 3 ∷ []))
    × (crc32c (1 ∷ 2 ∷ 3 ∷ []) ≢ crc32c (1 ∷ 9 ∷ 3 ∷ []))
crc_detects_example =
    crc_detects (1 ∷ []) (3 ∷ []) 2 9 0xff 0xffff (omega arith) (omega arith) (omega arith)
      (omega arith) (omega arith)
