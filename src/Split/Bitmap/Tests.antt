-- ===== src/Split/Bitmap/Tests.antt =====
-- The theorems on the bitmap at a word whose bits 0 and 2 are set.
use ipcf.Common.{ℕ, ◌^◌, ◌<◌, ◌≡◌, ◌↔◌, refl, true, some, Option, [], ◌∷◌, arith, false}
use ipcf.Common.Bits.{bit}
use ipcf.Split.Bitmap.{find_first_zero, test_all_bits_set}
use ipcf.Split.Bitmap.Laws.{IsFirstZero, find_first_zero_lem, test_all_bits_set_iff}

find_first_zero-5 : find_first_zero (5 ∷ []) 0 3 ≡ some (some 1)
unfolding find_first_zero
find_first_zero-5 = refl

-- The test wants the bits above to be clear.
test_all_bits_set-15 : test_all_bits_set (15 ∷ []) 3 ≡ some false
unfolding test_all_bits_set
test_all_bits_set-15 = refl

find_first_zero_lem_example :
    (r : Option ℕ) × (find_first_zero (5 ∷ []) 0 3 ≡ some r) × IsFirstZero 5 0 3 r
find_first_zero_lem_example = find_first_zero_lem 5 0 3 (omega arith) (omega arith)

test_all_bits_set_iff_example :
    (test_all_bits_set (7 ∷ []) 3 ≡ some true) ↔ (((j : ℕ) → j < 3 → bit 7 j ≡ 1) × (7 < 2 ^ 3))
test_all_bits_set_iff_example = test_all_bits_set_iff 7 3 (omega arith) (omega arith)
