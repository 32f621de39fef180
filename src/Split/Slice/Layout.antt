-- ===== src/Split/Slice/Layout.antt =====
-- Slices as they lie in a frame: read back from the bytes that `fill_slices` stores.
use ipcf.Common.{
  ℕ, ◌+◌, ◌*◌, ◌<◌, ◌≡◌, refl, ap, ap₂, ◌∙◌, sym, List, [], ◌∷◌, ◌++◌, arith, length, take, drop,
  All, length-append, take-append, drop-append, drop-drop, get_or, get_or-drop, get_or-append_right,
}
use ipcf.Common.Word.{le16}
use ipcf.Split.Types.{slice_data_len, slice_len, frm_msg_hdr_len, Slice, slice_bytes, read_slice}
use mathlib.Core.List.{append_assoc}
use ipcf.Split.Slice.{slices_from, read_slices}

-- The bytes of an array of slices.
abbrev pub all_bytes : List Slice → List ℕ
all_bytes [] = []
all_bytes (s ∷ ss) = slice_bytes s ++ all_bytes ss

-- A slice that fits its struct.
pub record IsSlice (s : Slice) : Type 0 where
  pub payload : length s.payload ≡ slice_data_len
  pub csum : s.csum < 65536

pub length-slice_bytes : (s : Slice) → IsSlice s → length (slice_bytes s) ≡ slice_len
length-slice_bytes s v = omega (arith, length-append s.payload (le16 s.csum), v.payload)

-- One slice at the offset where its bytes stand.
read_slice_lem :
    (b rest : List ℕ) (s : Slice) (i : ℕ)
    → IsSlice s
    → drop (frm_msg_hdr_len + slice_len * i) b ≡ slice_bytes s ++ rest
    → read_slice b i ≡ s
read_slice_lem b rest s i v e = ground (
  arith,
  byte 0,
  byte 1,
  payload,
  byte 34,
  byte 35,
  tail_at 0,
  tail_at 1,
  append_assoc s.payload (le16 s.csum) rest,
)
  where
    at : ℕ
    at = frm_msg_hdr_len + slice_len * i

    byte : (j : ℕ) → get_or b (at + j) 0 ≡ get_or (slice_bytes s ++ rest) j 0
    byte j = sym (get_or-drop 0 at b j (at + j) refl) ∙ ap (λ l. get_or l j 0) e

    payload : take slice_data_len (drop (at + 2) b) ≡ s.payload
    payload =
        ap (take slice_data_len) (
          sym (drop-drop 2 at (at + 2) b refl)
          ∙ ap (drop 2) e
          ∙ append_assoc s.payload (le16 s.csum) rest)
        ∙ take-append slice_data_len s.payload (le16 s.csum ++ rest) v.payload

    tail_at : (j : ℕ) → get_or (slice_bytes s ++ rest) (34 + j) 0 ≡ get_or (le16 s.csum ++ rest) j 0
    tail_at j =
        ap (λ l. get_or (s.sep ∷ s.seq ∷ l) (34 + j) 0) (append_assoc s.payload (le16 s.csum) rest)
        ∙ get_or-append_right 0 (s.sep ∷ s.seq ∷ s.payload) (le16 s.csum ++ rest) j (34 + j)
            (omega (arith, v.payload))

slices_from_lem :
    (b rest : List ℕ) (ss : List Slice) (i : ℕ)
    → All IsSlice ss
    → drop (frm_msg_hdr_len + slice_len * i) b ≡ all_bytes ss ++ rest
    → slices_from b i (length ss) ≡ ss
unfolding slices_from
slices_from_lem b rest [] i v e = refl
slices_from_lem b rest (s ∷ ss) i v e =
    ap₂ ◌∷◌
      (read_slice_lem b (all_bytes ss ++ rest) s i v.0
        (e ∙ append_assoc (slice_bytes s) (all_bytes ss) rest))
      (slices_from_lem b rest ss (i + 1) v.1 (
        sym (
          drop-drop slice_len (frm_msg_hdr_len + slice_len * i)
            (frm_msg_hdr_len + slice_len * (i + 1)) b (omega arith))
        ∙ ap (drop slice_len) (e ∙ append_assoc (slice_bytes s) (all_bytes ss) rest)
        ∙ drop-append slice_len (slice_bytes s) (all_bytes ss ++ rest) (length-slice_bytes s v.0)))

-- The slices stored behind the two headers are what a receiver reads from the same bytes.
pub read_slices_lem :
    (header rest : List ℕ) (ss : List Slice)
    → length header ≡ frm_msg_hdr_len
    → All IsSlice ss
    → read_slices (header ++ (all_bytes ss ++ rest)) (length ss) ≡ ss
unfolding read_slices
read_slices_lem header rest ss h v =
    slices_from_lem (header ++ (all_bytes ss ++ rest)) rest ss 0 v
      (drop-append frm_msg_hdr_len header (all_bytes ss ++ rest) h)
