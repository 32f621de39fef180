-- ===== src/Split/Types/Memory.antt =====
-- `memcpy` into an array: what is written, and what stays.
use ipcf.Common.{
  ℕ, ◌+◌, ◌-◌, ◌≤◌, ◌<◌, ◌≡◌, ◌∙◌, some, List, ◌++◌, arith, length, get_or, take, drop,
  length-append, length-take, length-drop, get_or-append_left, get_or-append_right, get_or-take,
  get_or-drop, le→ltb-false,
}
use ipcf.Split.Types.{write_bytes}

-- The array after a write in bounds.
abbrev pub written : List ℕ → ℕ → List ℕ → List ℕ
written buf i bytes = take i buf ++ (bytes ++ drop (i + length bytes) buf)

module _ (buf : List ℕ) (i : ℕ) (bytes : List ℕ) (fits : i + length bytes ≤ length buf) where
  pub write_bytes-some : write_bytes buf i bytes ≡ some (written buf i bytes)
  unfolding write_bytes
  write_bytes-some = rw (le→ltb-false (length buf) (i + length bytes) fits)

  pub length-written : length (written buf i bytes) ≡ length buf
  length-written = omega (
    arith,
    length-append (take i buf) (bytes ++ drop (i + length bytes) buf),
    length-append bytes (drop (i + length bytes) buf),
    length-take i buf,
    length-drop (i + length bytes) buf,
  )

  pub get_or-written_in :
      (k : ℕ) → k < length bytes → get_or (written buf i bytes) (i + k) 0 ≡ get_or bytes k 0
  get_or-written_in k h =
      get_or-append_right 0 (take i buf) (bytes ++ drop (i + length bytes) buf) k (i + k)
        (omega (arith, length-take i buf))
      ∙ get_or-append_left 0 bytes (drop (i + length bytes) buf) k h

  pub get_or-written_before : (j : ℕ) → j < i → get_or (written buf i bytes) j 0 ≡ get_or buf j 0
  get_or-written_before j h =
      get_or-append_left 0 (take i buf) (bytes ++ drop (i + length bytes) buf) j
        (omega (arith, length-take i buf))
      ∙ get_or-take 0 i buf j h

  pub get_or-written_after :
      (j : ℕ) → i + length bytes ≤ j → get_or (written buf i bytes) j 0 ≡ get_or buf j 0
  get_or-written_after j h =
      get_or-append_right 0 (take i buf) (bytes ++ drop (i + length bytes) buf) (j - i) j
        (omega (arith, length-take i buf))
      ∙ get_or-append_right 0 bytes (drop (i + length bytes) buf) (j - i - length bytes) (j - i)
          (omega arith)
      ∙ get_or-drop 0 (i + length bytes) buf (j - i - length bytes) j (omega arith)
