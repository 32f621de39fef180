-- ===== src/Split/Slice.antt =====
-- Slices of a message: `fill_slice_k` and `fill_slices` cut it up on the sending side of split.c;
-- `cp_slice_to_rse` and `patch_rse` put it together in a receive session.
pub mod Fill
pub mod Patch
pub mod Reassemble
pub mod Layout
mod Tests
use ipcf.Common.{
  ℕ, zero, suc, ◌+◌, ◌-◌, ◌*◌, ◌/◌, ◌%◌, Bool, true, false, ◌&&◌, ◌||◌, not, Option, none, some,
  List, [], ◌∷◌, ◌++◌, length, take, drop, replicate, ltb, leb, ◌==◌, if◌then◌else◌,
}
use ipcf.Common.Fault.{◌>>=◌}
use ipcf.Common.Word.{u8}
use ipcf.Split.Types.{
  slice_data_len, slice_len, slice_seperator, Slice, slice_bytes, read_slice, csum16, Rse,
  write_bytes,
}
use ipcf.Split.Bitmap.{set_bit}

-- `slice->csum` over the slice with 0xffff in that field.
abbrev pub slice_csum : Slice → ℕ
slice_csum s = csum16 (slice_bytes (record s { csum = 0xffff }))

-- The list is the `len` bytes at `from`.
unfoldable pub fill_slice_k : ℕ → List ℕ → Slice
fill_slice_k k from =
    let slice : Slice = record {
      sep = slice_seperator;
      seq = k;
      payload = from ++ replicate (slice_data_len - length from) 0;
      csum = 0xffff;
    } in
    record slice { csum = slice_csum slice }

-- The slices stored in `dest`, the number returned, and the bytes of the message that are left
-- over.
pub record Filled : Type 0 where
  pub slices : List Slice
  pub n_slices : ℕ
  pub remain : ℕ

-- The loop of `fill_slices`: `at` slices are stored, the list is what is left of the message.
-- Each round takes a byte at least.
unfoldable pub fill_loop : ℕ → ℕ → ℕ → ℕ → ℕ → List ℕ → Filled
unfolding fill_slice_k
fill_loop zero size at seq n_slices rest = record {
  slices = [];
  n_slices = n_slices;
  remain = length rest;
}
fill_loop (suc fuel) size at seq n_slices rest =
    let next = fill_loop fuel size (at + 1) (u8 (seq + 1)) (seq + 1) (drop slice_data_len rest) in
    if ltb 0 (length rest) && leb (slice_len * at + slice_data_len) size
    then record next { slices = fill_slice_k seq (take slice_data_len rest) ∷ next.slices }
    else record { slices = []; n_slices = n_slices; remain = length rest }

unfoldable pub fill_slices : ℕ → List ℕ → Filled
unfolding fill_loop
fill_slices size msg = fill_loop (length msg) size 0 0 0 msg

-- The number of bytes that a slice brings: the last one may be short.
unfoldable pub copy_len : Rse → ℕ → ℕ
copy_len se seq =
    if seq + 1 == se.n_slices && not (se.msglen % slice_data_len == 0)
    then se.msglen % slice_data_len
    else slice_data_len

unfoldable pub cp_slice_to_rse : Rse → Slice → Option Rse
unfolding copy_len
cp_slice_to_rse se s =
    let copied = (do
      buf ← write_bytes se.buf (slice_data_len * s.seq) (take (copy_len se s.seq) s.payload)
      bitmap ← set_bit se.bitmap s.seq
      some (record se { bitmap = bitmap; buf = buf })) in
    if not (s.csum == slice_csum s)
    then some se
    else if ltb se.n_slices s.seq
    then some se
    else copied

-- The list is the `n_slices` slices from `slice` on.
unfoldable pub patch_rse : Rse → List Slice → Option Rse
patch_rse se [] = some se
patch_rse se (s ∷ ss) = do se' ← cp_slice_to_rse se s; patch_rse se' ss

-- The slices `i`, `i + 1`, … of a frame.
unfoldable pub slices_from : List ℕ → ℕ → ℕ → List Slice
slices_from b i zero = []
slices_from b i (suc n) = read_slice b i ∷ slices_from b (i + 1) n

-- `(slice_t *)mh->data` with `n` slices.
unfoldable pub read_slices : List ℕ → ℕ → List Slice
unfolding slices_from
read_slices b n = slices_from b 0 n
