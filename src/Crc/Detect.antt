-- ===== src/Crc/Detect.antt =====
-- What the CRCs of lib/crc.c detect: every change of one byte.
use ipcf.Common.{ℕ, ◌^◌, ◌≤◌, ◌<◌, ◌≢◌, ◌∙◌, sym, suc, List, [], ◌∷◌, ◌++◌, arith, All}
use ipcf.Common.Word.{IsByte}
use ipcf.Crc.{crc8, crc16, crc32c}
use ipcf.Crc.Serial.{serial_detects, serial-lt}
use ipcf.Crc.Agree.{poly8, poly16, poly32, crc8-serial, crc16-serial, crc32c-serial}

All-bytes :
    (m : ℕ) (bs : List ℕ) → 7 ≤ m → 256 ≤ 2 ^ suc m → All IsByte bs → All (λ b. b < 2 ^ suc m) bs
All-bytes m [] h w a = tt
All-bytes m (b ∷ bs) h w a = (omega arith, All-bytes m bs h w a.1)

swap_at :
    (front back : List ℕ) (b c : ℕ)
    → All IsByte (front ++ (b ∷ back))
    → c < 256
    → All IsByte (front ++ (c ∷ back))
swap_at [] back b c h l = (l, h.1)
swap_at (f ∷ front) back b c h l = (h.0, swap_at front back b c h.1 l)

-- Two buffers of bytes that differ in one byte have different CRCs, from one start value of the
-- width.
pub crc_detects :
    (front back : List ℕ) (b c x y : ℕ)
    → All IsByte (front ++ (b ∷ back))
    → c < 256
    → b ≢ c
    → x < 256
    → y < 65536
    → (crc8 x (front ++ (b ∷ back)) ≢ crc8 x (front ++ (c ∷ back)))
      × (crc16 y (front ++ (b ∷ back)) ≢ crc16 y (front ++ (c ∷ back)))
      × (crc32c (front ++ (b ∷ back)) ≢ crc32c (front ++ (c ∷ back)))
crc_detects front back b c x y hb hc ne hx hy = (
  λ e. ne (
      serial_detects poly8 7 (omega arith) (omega arith) front back x b c
        (All-bytes 7 _ (omega arith) (omega arith) hb) hx hc
        (sym (crc8-serial _ x hb hx) ∙ e ∙ crc8-serial _ x hb' hx)),
  λ e. ne (
      serial_detects poly16 15 (omega arith) (omega arith) front back y b c
        (All-bytes 15 _ (omega arith) (omega arith) hb) hy (omega arith)
        (sym (crc16-serial _ y hb) ∙ e ∙ crc16-serial _ y hb')),
  λ e. ne (
      serial_detects poly32 31 (omega arith) (omega arith) front back 0xffffffff b c wide
        (omega arith) (omega arith)
        (omega (
          arith,
          e,
          crc32c-serial (front ++ (b ∷ back)) hb,
          crc32c-serial (front ++ (c ∷ back)) hb',
          serial-lt poly32 31 (omega arith) (omega arith) (front ++ (b ∷ back)) 0xffffffff wide
              (omega arith),
          serial-lt poly32 31 (omega arith) (omega arith) (front ++ (c ∷ back)) 0xffffffff wide'
              (omega arith),
        ))),
)
  where
    hb' : All IsByte (front ++ (c ∷ back))
    hb' = swap_at front back b c hb hc

    wide : All (λ b. b < 2 ^ 32) (front ++ (b ∷ back))
    wide = All-bytes 31 _ (omega arith) (omega arith) hb

    wide' : All (λ b. b < 2 ^ 32) (front ++ (c ∷ back))
    wide' = All-bytes 31 _ (omega arith) (omega arith) hb'
