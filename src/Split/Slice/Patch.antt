-- ===== src/Split/Slice/Patch.antt =====
-- Reassembly: genuine slices of one message, in any order and any number of times, among slices
-- that their checksum rejects, bring the message back.
use ipcf.Common.{
  ℕ, ◌+◌, ◌-◌, ◌*◌, ◌/◌, ◌≤◌, ◌<◌, ◌≡◌, ◌≢◌, ◌⊎◌, inl, inr, refl, sym, ◌∙◌, true, false, some, List,
  [], ◌∷◌, arith, length, take, drop, get_or, ◌==◌, min, if◌then◌else◌, length-take, length-drop,
  get_or-take, get_or-drop, take-append, le→ltb-false, ==_iff, ne→==-false, Bool, false, ◌||◌,
}
use ipcf.Common.Bits.{bit}
use ipcf.Split.Types.{link_mtu, Slice, Rse}
use ipcf.Split.Types.Memory.{
  written, write_bytes-some, length-written, get_or-written_in, get_or-written_before,
  get_or-written_after,
}
use ipcf.Split.Bitmap.{set_bit}
use ipcf.Split.Bitmap.Laws.{set_bit_lem}
use ipcf.Split.Slice.{slice_csum, fill_slice_k, copy_len, cp_slice_to_rse, patch_rse}
use ipcf.Split.Slice.Fill.{block}

-- A receive session that waits for `msg`: its header has been taken over, and what the bitmap
-- claims is in the buffer.
pub record Waits (msg : List ℕ) (w : ℕ) (se : Rse) : Type 0 where
  pub n_slices : se.n_slices ≡ (length msg + 31) / 32
  pub msglen : se.msglen ≡ length msg
  pub bitmap : se.bitmap ≡ w ∷ []
  pub room : length se.buf ≡ link_mtu
  pub stored : (i : ℕ) → i < length msg → bit w (i / 32) ≡ 1 → get_or se.buf i 0 ≡ get_or msg i 0

-- The session after a slice with these bytes has been stored as number `k`, its bitmap then `v`.
abbrev stores : Rse → ℕ → ℕ → List ℕ → Rse
stores se v k bytes = record se { bitmap = v ∷ []; buf = written se.buf (32 * k) bytes }

-- The path of `cp_slice_to_rse` on a slice that passes its two tests.
cp_stores :
    (se : Rse) (s : Slice) (w v k : ℕ) (bytes : List ℕ)
    → s.csum ≡ slice_csum s
    → s.seq ≡ k
    → k ≤ se.n_slices
    → se.bitmap ≡ w ∷ []
    → set_bit (w ∷ []) k ≡ some (v ∷ [])
    → take (copy_len se k) s.payload ≡ bytes
    → 32 * k + length bytes ≤ length se.buf
    → cp_slice_to_rse se s ≡ some (stores se v k bytes)
unfolding cp_slice_to_rse
cp_stores se s w v k bytes good seq le map set_k bytes_eq fit =
    let tested : (s.csum == slice_csum s) ≡ true = (==_iff s.csum (slice_csum s)).1 good in
    let below = le→ltb-false se.n_slices k le in
    rw (tested, seq, below)
      (simp (bytes_eq, map, set_k, write_bytes-some se.buf (32 * k) bytes fit))

module _ (msg : List ℕ) (small : length msg ≤ 27 * 32) where
  -- The number of bytes of block `k`.
  abbrev block_len : ℕ → ℕ
  block_len k = min 32 (length msg - 32 * k)

  length-block : (k : ℕ) → length (block msg k) ≡ block_len k
  length-block k = omega (arith, length-take 32 (drop (32 * k) msg), length-drop (32 * k) msg)

  payload_take : (k : ℕ) → take (block_len k) (fill_slice_k k (block msg k)).payload ≡ block msg k
  unfolding fill_slice_k
  payload_take k = take-append (block_len k) (block msg k) _ (length-block k)

  copy_len_lem :
      {w : ℕ} (se : Rse) (k : ℕ)
      → Waits msg w se
      → k < (length msg + 31) / 32
      → copy_len se k ≡ block_len k
  unfolding copy_len
  copy_len_lem se k v h = ground arith

  module _ (w v k : ℕ) (se : Rse) (waits : Waits msg w se) (h : k < (length msg + 31) / 32)
      (new : bit v k ≡ 1) (old : (j : ℕ) → j ≢ k → bit v j ≡ bit w j) where
    fits : 32 * k + length (block msg k) ≤ length se.buf
    fits = omega (arith, length-block k, waits.room)

    stored_in :
        (i : ℕ)
        → i < length msg
        → i / 32 ≡ k
        → get_or (stores se v k (block msg k)).buf i 0 ≡ get_or msg i 0
    stored_in i l e =
        let at : 32 * k + (i - 32 * k) ≡ i = omega arith in
        let inside =
          get_or-written_in se.buf (32 * k) (block msg k) fits (i - 32 * k)
            (omega (arith, length-block k)) in
        (rw at at inside)
        ∙ get_or-take 0 32 (drop (32 * k) msg) (i - 32 * k) (omega arith)
        ∙ get_or-drop 0 (32 * k) msg (i - 32 * k) i at

    stored_out :
        (i : ℕ)
        → i < length msg
        → bit v (i / 32) ≡ 1
        → i / 32 ≢ k
        → get_or (stores se v k (block msg k)).buf i 0 ≡ get_or msg i 0
    stored_out i l b ne =
        let before = waits.stored i l (sym (old (i / 32) ne) ∙ b) in
        elim (sides i ne) [
          | inl q ↦ get_or-written_before se.buf (32 * k) (block msg k) fits i q ∙ before
          | inr q ↦
              get_or-written_after se.buf (32 * k) (block msg k) fits i
                (omega (arith, length-block k))
              ∙ before
        ]
      where
        sides : (i : ℕ) → i / 32 ≢ k → (i < 32 * k) ⊎ (32 * k + 32 ≤ i)
        sides i ne = omega arith

    stores-Waits : Waits msg v (stores se v k (block msg k))
    stores-Waits = record {
      n_slices = waits.n_slices;
      msglen = waits.msglen;
      bitmap = refl;
      room = length-written se.buf (32 * k) (block msg k) fits ∙ waits.room;
      stored = λ i l b. elim (same i) [ inl q ↦ stored_in i l q | inr q ↦ stored_out i l b q ];
    }
      where
        same : (i : ℕ) → (i / 32 ≡ k) ⊎ (i / 32 ≢ k)
        same i = omega arith

  -- A genuine slice is stored, its bit is set, and nothing else changes.
  cp_genuine :
      (w k : ℕ) (se : Rse)
      → Waits msg w se
      → k < (length msg + 31) / 32
      → (v : ℕ) × (se' : Rse) × (cp_slice_to_rse se (fill_slice_k k (block msg k)) ≡ some se')
        × Waits msg v se'
        × (bit v k ≡ 1)
        × ((j : ℕ) → j ≢ k → bit v j ≡ bit w j)
  cp_genuine w k se waits h =
      let (v, run, new, old) = set_bit_lem w k (omega arith) in
      let run' =
        cp_stores se (fill_slice_k k (block msg k)) w v k (block msg k)
          (unfold fill_slice_k in refl) (unfold fill_slice_k in refl)
          (omega (arith, waits.n_slices)) waits.bitmap run
          (rw (copy_len_lem se k waits h) (payload_take k)) (fits w v k se waits h new old) in
      (v, stores se v k (block msg k), run', stores-Waits w v k se waits h new old, new, old)

-- A slice that its checksum rejects changes nothing.
cp_rejected : (se : Rse) (s : Slice) → s.csum ≢ slice_csum s → cp_slice_to_rse se s ≡ some se
unfolding cp_slice_to_rse
cp_rejected se s ne = rw (ne→==-false s.csum (slice_csum s) ne)

-- What may arrive: block `k` of the message as `fill_slices` has sent it, or a slice that fails its
-- checksum.
pub data Arrival (msg : List ℕ) : Type 0 where
  genuine : (k : ℕ) → k < (length msg + 31) / 32 → Arrival msg
  damaged : (s : Slice) → s.csum ≢ slice_csum s → Arrival msg

abbrev pub arrived : {msg : List ℕ} → Arrival msg → Slice
arrived {msg} (genuine k h) = fill_slice_k k (block msg k)
arrived {msg} (damaged s ne) = s

abbrev pub brings : {msg : List ℕ} → ℕ → Arrival msg → Bool
brings j (genuine k h) = j == k
brings j (damaged s ne) = false

abbrev pub any_brings : {msg : List ℕ} → ℕ → List (Arrival msg) → Bool
any_brings j [] = false
any_brings j (a ∷ rest) = brings j a || any_brings j rest

abbrev pub arrivals : {msg : List ℕ} → List (Arrival msg) → List Slice
arrivals [] = []
arrivals (a ∷ rest) = arrived a ∷ arrivals rest

-- Any sequence of such slices is taken without a fault, and the bits are those of the blocks that
-- came.
pub patch_rse_lem :
    (msg : List ℕ) (rest : List (Arrival msg)) (w : ℕ) (se : Rse)
    → length msg ≤ 27 * 32
    → Waits msg w se
    → (v : ℕ) × (se' : Rse) × (patch_rse se (arrivals rest) ≡ some se')
      × Waits msg v se'
      × ((j : ℕ) → bit v j ≡ (if any_brings j rest then 1 else bit w j))
unfolding patch_rse
patch_rse_lem msg [] w se small waits = (w, se, refl, waits, λ j. refl)
patch_rse_lem msg (genuine k h ∷ rest) w se small waits =
    let (v, se', run, waits', new, old) = cp_genuine msg small w k se waits h in
    let (u, se'', run', waits'', bits) = patch_rse_lem msg rest v se' small waits' in
    (u, se'', rw run run', waits'', λ j. ground (arith, bits j, new, old j))
patch_rse_lem msg (damaged s ne ∷ rest) w se small waits =
    let (u, se'', run', waits'', bits) = patch_rse_lem msg rest w se small waits in
    (u, se'', rw (cp_rejected se s ne) run', waits'', λ j. bits j)
