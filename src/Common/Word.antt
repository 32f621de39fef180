-- ===== src/Common/Word.antt =====
-- `u8`, `u16` and `u32` of include/types.h as numbers that are cut to their width, and their bytes
-- in memory, the lowest first (include/config.h sets __LITTLE_ENDIAN__).
use Prim.Native.Nat.{ℕ, ◌+◌, ◌*◌, ◌/◌, ◌%◌, ◌^◌, ◌<◌}
use mathlib.Core.List.{List, [], ◌∷◌}
use ipcf.Common.Lists.{get_or}

abbrev pub u8 : ℕ → ℕ
u8 n = n % 256

abbrev pub u16 : ℕ → ℕ
u16 n = n % 65536

abbrev pub u32 : ℕ → ℕ
u32 n = n % 2 ^ 32

-- The two and the four bytes of a word in memory.
abbrev pub le16 : ℕ → List ℕ
le16 n = n % 256 ∷ n / 256 % 256 ∷ []

abbrev pub le32 : ℕ → List ℕ
le32 n = n % 256 ∷ n / 256 % 256 ∷ n / 65536 % 256 ∷ n / 2 ^ 24 % 256 ∷ []

-- A word read at an offset.
abbrev pub get16 : List ℕ → ℕ → ℕ
get16 b i = get_or b i 0 + 256 * get_or b (i + 1) 0

abbrev pub get32 : List ℕ → ℕ → ℕ
get32 b i = get16 b i + 65536 * get16 b (i + 2)

abbrev pub IsByte : ℕ → Type 0
IsByte b = b < 256
