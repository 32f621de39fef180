-- ===== src/Split/Bitmap.antt =====
-- The bitmap of received slices: `set_bit`, `find_first_zero`, `test_all_bits_set` of split.c.
-- A bitmap is a list of `u32` words; a word outside of it is a fault (`none`).
pub mod Laws
mod Tests
use ipcf.Common.{
  ℕ, zero, suc, ◌+◌, ◌-◌, ◌/◌, ◌%◌, ◌^◌, Bool, true, false, ◌&&◌, Option, none, some, List, bit_and,
  bit_or, get_elem?, set, ltb, leb, ◌==◌, if◌then◌else◌,
}
use ipcf.Common.Fault.{◌>>=◌}
use ipcf.Common.Word.{u8}

-- `1L << i` for `i` below 32, and `map[offset] |= …`.
unfoldable pub set_bit : List ℕ → ℕ → Option (List ℕ)
set_bit map k = do
  let offset = k / 32
  let i = bit_and k 0x1f
  w ← get_elem? map offset
  some (set map offset (bit_or w (2 ^ i)))

-- The loop of `find_first_zero`, on fuel; `x` is the word of `k`. A result `some none` is -1.
unfoldable pub zero_loop : List ℕ → ℕ → ℕ → ℕ → ℕ → ℕ → Option (Option ℕ)
zero_loop map end max zero x k = some none
zero_loop map end max (suc fuel) x k =
    let next =
      let k' = u8 (k + 1) in
      zero_loop map end max fuel (if bit_and k' 0x1f == 0 then u8 (x + 1) else x) k' in
    let looked = (do
      w ← get_elem? map x
      if bit_and w (2 ^ bit_and k 0x1f) == 0 then some (some k) else next) in
    if leb x end && ltb k max then looked else some none

-- Each round adds 1 to `k`, and the loop ends at `max`.
unfoldable pub find_first_zero : List ℕ → ℕ → ℕ → Option (Option ℕ)
unfolding zero_loop
find_first_zero map k max = zero_loop map (max / 32) max (max - k + 1) (k / 32) k

-- The loop of `test_all_bits_set` from word `i` on, with `rounds` words left.
unfoldable pub ones_loop : List ℕ → ℕ → ℕ → Option Bool
ones_loop map i zero = some true
ones_loop map i (suc rounds) =
    let next = ones_loop map (i + 1) rounds in
    do w ← get_elem? map i; if w == 0xffffffff then next else some false

-- `~(((~0L) >> t) << t)` is the mask of the `t` lowest bits: `>>` keeps the sign of -1.
unfoldable pub test_all_bits_set : List ℕ → ℕ → Option Bool
unfolding ones_loop
test_all_bits_set map n = do
  let k = n / 32
  let t = bit_and n 0x1f
  full ← ones_loop map 0 k
  let last = (do w ← get_elem? map k; some (w == 2 ^ t - 1))
  if full then (if t == 0 then some true else last) else some false
