-- ===== src/Split/Slice/Fill.antt =====
-- What `fill_slices` stores: slice `k` is the `k`-th block of the message.
use ipcf.Common.{
  ℕ, zero, suc, ◌+◌, ◌-◌, ◌*◌, ◌/◌, ◌%◌, ◌≤◌, ◌≡◌, refl, ◌∙◌, true, List, [], ◌∷◌, arith, length,
  take, drop, length-drop, drop-drop, ltb, leb, min,
}
use ipcf.Split.Types.{slice_data_len, slice_len, link_data_max, Slice}
use ipcf.Split.Slice.{fill_slice_k, fill_loop, fill_slices}

-- The block `k` of a message, at most SLICE_DATA_LEN bytes.
abbrev pub block : List ℕ → ℕ → List ℕ
block msg k = take slice_data_len (drop (slice_data_len * k) msg)

-- The slices of the blocks `k`, `k + 1`, …
unfoldable pub genuine_from : List ℕ → ℕ → ℕ → List Slice
genuine_from msg k zero = []
genuine_from msg k (suc n) = fill_slice_k k (block msg k) ∷ genuine_from msg (k + 1) n

-- The number of blocks of a message of `len` bytes that `fill_slices` has room for.
abbrev pub n_blocks : ℕ → ℕ
n_blocks len = min ((len + 31) / 32) 27

-- The loop at block `k`, where it stores the `c` blocks that are left or for which there is room.
fill_loop_lem :
    (msg : List ℕ) (fuel k c : ℕ)
    → k ≤ 27
    → length (drop (slice_data_len * k) msg) ≤ fuel
    → c ≡ min ((length (drop (slice_data_len * k) msg) + 31) / 32) (27 - k)
    → fill_loop fuel link_data_max k k k (drop (slice_data_len * k) msg) ≡ record {
      slices = genuine_from msg k c;
      n_slices = k + c;
      remain = length (drop (slice_data_len * k) msg) - slice_data_len * c;
    }
unfolding fill_loop genuine_from
fill_loop_lem msg zero k zero hk hf hc = ground arith
fill_loop_lem msg zero k (suc c) hk hf hc = absurd (omega arith)
fill_loop_lem msg (suc fuel) k zero hk hf hc = ground arith
fill_loop_lem msg (suc fuel) k (suc c) hk hf hc =
    let len = length (drop (slice_data_len * k) msg) in
    let some_left : ltb 0 len ≡ true = ground arith in
    let room : leb (slice_len * k + slice_data_len) link_data_max ≡ true = ground arith in
    let byte : (k + 1) % 256 ≡ k + 1 = omega arith in
    let rest =
      drop-drop slice_data_len (slice_data_len * k) (slice_data_len * (k + 1)) msg (omega arith) in
    let fewer = length-drop slice_data_len (drop (slice_data_len * k) msg) in
    let ih =
      fill_loop_lem msg fuel (k + 1) c (omega arith) (rw (← rest) (omega (arith, fewer)))
        (rw (← rest) (omega (arith, fewer))) in
    rw (some_left, room, byte, rest, ih, ← rest) (ground (arith, fewer))

-- `fill_slices` with the room of a frame stores the slices of the first blocks in order, as many as
-- the message has and at most MAX_SLICE_NUM, and says how many bytes it has left out.
pub fill_slices_lem :
    (msg : List ℕ)
    → fill_slices link_data_max msg ≡ record {
      slices = genuine_from msg 0 (n_blocks (length msg));
      n_slices = n_blocks (length msg);
      remain = length msg - slice_data_len * n_blocks (length msg);
    }
unfolding fill_slices
fill_slices_lem msg =
    fill_loop_lem msg (length msg) 0 (n_blocks (length msg)) (omega arith) (omega arith) refl
    ∙ ground arith
