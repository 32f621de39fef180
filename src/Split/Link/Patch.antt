-- ===== src/Split/Link/Patch.antt =====
-- The slices of a packet, as `upper_send` has stored them and as `send_patch` collects them.
use ipcf.Common.{
  ℕ, zero, suc, ◌+◌, ◌-◌, ◌*◌, ◌≤◌, ◌<◌, ◌≡◌, ◌⊎◌, inl, inr, refl, sym, ap, ap₂, ◌∙◌, true, List,
  [], ◌∷◌, ◌++◌, map, arith, length, take, drop, take_all, take-append, drop-append, drop-drop,
  length-append, length-take, length-drop, length-replicate, get_or-take, get_or-drop, get_or_ext,
  replicate, ltb, All,
}
use ipcf.Split.Types.{
  link_mtu, slice_len, slice_data_len, frm_msg_hdr_len, Slice, slice_bytes, SendNode, Env,
}
use ipcf.Split.Types.Headers.{csum16-lt}
use ipcf.Split.Slice.{fill_slice_k}
use ipcf.Split.Slice.Fill.{block, genuine_from}
use ipcf.Split.Slice.Layout.{all_bytes, IsSlice, length-slice_bytes}
use ipcf.Split.Send.{patch_slots}

-- Slice `k` of a message.
abbrev pub genuine_slice : List ℕ → ℕ → Slice
genuine_slice msg k = fill_slice_k k (block msg k)

pub genuine_slice-IsSlice : (msg : List ℕ) (k : ℕ) → IsSlice (genuine_slice msg k)
unfolding fill_slice_k
genuine_slice-IsSlice msg k =
    let from = block msg k in
    record {
      payload = omega (
        arith,
        length-append from (replicate (slice_data_len - length from) 0),
        length-replicate {A = ℕ} (slice_data_len - length from) 0,
        length-take slice_data_len (drop (slice_data_len * k) msg),
      );
      csum = csum16-lt _;
    }

-- The blocks of the first `m` bytes of a message that are whole, or end where the message ends.
pub block-take :
    (full : List ℕ) (m k : ℕ)
    → (slice_data_len * (k + 1) ≤ m) ⊎ (length full ≤ m)
    → block (take m full) k ≡ block full k
block-take full m k (inr all) = ap (λ l. block l k) (take_all m full all)
block-take full m k (inl whole) =
    get_or_ext 0 (block (take m full) k) (block full k)
      (omega (
        arith,
        length-take 32 (drop (32 * k) (take m full)),
        length-drop (32 * k) (take m full),
        length-take m full,
        length-take 32 (drop (32 * k) full),
        length-drop (32 * k) full,
      ))
      (λ i l.
        let small : i < 32 = omega (arith, length-take 32 (drop (32 * k) (take m full))) in
        get_or-take 0 32 (drop (32 * k) (take m full)) i small
        ∙ get_or-drop 0 (32 * k) (take m full) i (32 * k + i) refl
        ∙ get_or-take 0 m full (32 * k + i) (omega arith)
        ∙ sym (get_or-drop 0 (32 * k) full i (32 * k + i) refl)
        ∙ sym (get_or-take 0 32 (drop (32 * k) full) i small))

-- The array of `total` slices from number `d` on, where `n` are left.
drop-all_bytes :
    (msg : List ℕ) (d k n total : ℕ)
    → d + n ≡ total
    → drop (slice_len * d) (all_bytes (genuine_from msg k total))
      ≡ all_bytes (genuine_from msg (k + d) n)
unfolding genuine_from
drop-all_bytes msg zero k n total e =
    ap₂ (λ (a b : ℕ). all_bytes (genuine_from msg a b)) (omega arith) (omega arith)
drop-all_bytes msg (suc d) k n zero e = absurd (omega arith)
drop-all_bytes msg (suc d) k n (suc total) e =
    let one = genuine_slice msg k in
    let rest = all_bytes (genuine_from msg (k + 1) total) in
    sym (
      drop-drop (slice_len * d) slice_len (slice_len * suc d) (slice_bytes one ++ rest)
        (omega arith))
    ∙ ap (drop (slice_len * d)) (
        drop-append slice_len (slice_bytes one) rest
          (length-slice_bytes one (genuine_slice-IsSlice msg k)))
    ∙ drop-all_bytes msg d (k + 1) n total (omega arith)
    ∙ ap (λ (t : ℕ). all_bytes (genuine_from msg t n)) (omega arith)

-- The bytes of slice `d` of a packet whose slices stand behind its headers.
pub slice_at :
    (header msg frm : List ℕ) (n d : ℕ)
    → length header ≡ frm_msg_hdr_len
    → frm ≡ header ++ all_bytes (genuine_from msg 0 n)
    → d < n
    → take slice_len (drop (frm_msg_hdr_len + slice_len * d) frm)
      ≡ slice_bytes (genuine_slice msg d)
unfolding genuine_from
slice_at header msg frm n d h e l =
    let slices = all_bytes (genuine_from msg 0 n) in
    let one = genuine_slice msg d in
    let rest = all_bytes (genuine_from msg (d + 1) (n - suc d)) in
    let left : n - d ≡ suc (n - suc d) = omega arith in
    let at : drop (frm_msg_hdr_len + slice_len * d) frm ≡ slice_bytes one ++ rest =
      sym (drop-drop (slice_len * d) frm_msg_hdr_len (frm_msg_hdr_len + slice_len * d) frm refl)
      ∙ ap (λ l. drop (slice_len * d) (drop frm_msg_hdr_len l)) e
      ∙ ap (drop (slice_len * d)) (drop-append frm_msg_hdr_len header slices h)
      ∙ drop-all_bytes msg d 0 (n - d) n (omega arith)
      ∙ ap₂ (λ (a b : ℕ). all_bytes (genuine_from msg a b)) (omega arith) left in
    ap (take slice_len) at
    ∙ take-append slice_len (slice_bytes one) rest
        (length-slice_bytes one (genuine_slice-IsSlice msg d))

-- A list of at most MAX_SLICE_NUM slices that the packet has is collected whole.
pub patch_slots_lem :
    (env : Env) (pkt : SendNode) (S : ℕ → Slice) (i : ℕ) (ms : List ℕ)
    → ((d : ℕ)
        → d < pkt.n_slices
        → take slice_len (drop (frm_msg_hdr_len + slice_len * d) pkt.frm) ≡ slice_bytes (S d))
    → All (λ d. d < pkt.n_slices) ms
    → i + length ms ≤ 27
    → patch_slots env pkt i ms ≡ (all_bytes (map S ms), length ms)
unfolding patch_slots
patch_slots_lem env pkt S i [] at below h = refl
patch_slots_lem env pkt S i (d ∷ ms) at (l, below) h =
    let room : ltb (frm_msg_hdr_len + slice_len * i) (link_mtu - slice_len) ≡ true = ground arith in
    let has_it : ltb d pkt.n_slices ≡ true = ground arith in
    rw (patch_slots_lem env pkt S (i + 1) ms at below (omega arith), room, has_it, at d l)
      (ap (λ (t : ℕ). (all_bytes (map S (d ∷ ms)), t)) (omega arith))
