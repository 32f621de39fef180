-- ===== src/Split/Slice/Reassemble.antt =====
-- When a receive session has its whole message.
use ipcf.Common.{
  ℕ, ◌+◌, ◌-◌, ◌*◌, ◌/◌, ◌≤◌, ◌<◌, ◌^◌, ◌≡◌, ◌⊎◌, refl, ◌∙◌, ap, true, false, some, List, [], ◌∷◌,
  arith, length, take, Bool-cases, inl, inr, length-take, get_or-take, get_or_ext, ◌==◌,
  if◌then◌else◌,
}
use ipcf.Common.Bits.{bit, lt_of_bits}
use ipcf.Split.Types.{Rse, link_mtu}
use ipcf.Split.Bitmap.{test_all_bits_set}
use ipcf.Split.Bitmap.Laws.{test_all_bits_set_lem, test_all_bits_set_iff}
use ipcf.Split.Slice.{patch_rse}
use ipcf.Split.Slice.Patch.{Waits, Arrival, genuine, damaged, any_brings, arrivals, patch_rse_lem}

-- No slice of the message brings a block that it does not have.
not-brings :
    {msg : List ℕ} (j : ℕ) (rest : List (Arrival msg))
    → (length msg + 31) / 32 ≤ j
    → any_brings j rest ≡ false
not-brings j [] h = refl
not-brings j (genuine k l ∷ rest) h = ground (arith, not-brings j rest)
not-brings j (damaged s ne ∷ rest) h = not-brings j rest h

-- What a session holds that has all bits set.
Waits-all :
    (msg : List ℕ) (w : ℕ) (se : Rse)
    → Waits msg w se
    → length msg ≤ 27 * 32
    → ((k : ℕ) → k < (length msg + 31) / 32 → bit w k ≡ 1)
    → take (length msg) se.buf ≡ msg
Waits-all msg w se waits small all =
    get_or_ext 0 (take (length msg) se.buf) msg
      (omega (arith, length-take (length msg) se.buf, waits.room))
      (λ i l.
        let l' : i < length msg = omega (arith, length-take (length msg) se.buf) in
        get_or-take 0 (length msg) se.buf i l' ∙ waits.stored i l' (all (i / 32) (omega arith)))

module _ (msg : List ℕ) (arr : List (Arrival msg)) (w : ℕ) (se : Rse) (some_bytes : 0 < length msg)
    (small : length msg ≤ 27 * 32) (waits : Waits msg w se)
    (clear : (j : ℕ) → (length msg + 31) / 32 ≤ j → bit w j ≡ 0) where
  patch_rse_all :
      ((k : ℕ) → k < (length msg + 31) / 32 → (any_brings k arr ≡ true) ⊎ (bit w k ≡ 1))
      → (v : ℕ) × (se' : Rse) × (patch_rse se (arrivals arr) ≡ some se')
        × Waits msg v se'
        × (test_all_bits_set (v ∷ []) ((length msg + 31) / 32) ≡ some true)
        × (take (length msg) se'.buf ≡ msg)
  patch_rse_all all =
      let (v, se', run, waits', bits) = patch_rse_lem msg arr w se small waits in
      let n = (length msg + 31) / 32 in
      let full : (k : ℕ) → k < n → bit v k ≡ 1 =
        λ k l. elim (all k l) [ inl e ↦ bits k ∙ rw e refl | inr e ↦ bits k ∙ ground (arith, e) ] in
      let below = lt_of_bits n v (λ j l. bits j ∙ rw (not-brings j arr l) (clear j l)) in
      (
        v,
        se',
        run,
        waits',
        (test_all_bits_set_iff v n (omega arith) (omega arith)).1 (full, below),
        Waits-all msg v se' waits' small full,
      )

  -- If every block comes or has come before, among any slices that fail their checksum, `patch_rse`
  -- is no fault and leaves the whole message in the buffer, and `test_all_bits_set` says so. The
  -- session waits for a message of 1 to 864 bytes.
  pub patch_rse_complete :
      ((k : ℕ) → k < (length msg + 31) / 32 → (any_brings k arr ≡ true) ⊎ (bit w k ≡ 1))
      → (se' : Rse) × (patch_rse se (arrivals arr) ≡ some se')
        × (test_all_bits_set se'.bitmap se'.n_slices ≡ some true)
        × (take se'.msglen se'.buf ≡ msg)
        × (length se'.buf ≡ link_mtu)
  patch_rse_complete all =
      let (v, se', run, waits', test, whole) = patch_rse_all all in
      (se', run, rw (waits'.bitmap, waits'.n_slices) test, rw waits'.msglen whole, waits'.room)

  -- If a block has not come before and does not come, `patch_rse` is no fault, and
  -- `test_all_bits_set` says no. The session waits for a message of 1 to 864 bytes.
  pub patch_rse_incomplete :
      (k : ℕ)
      → k < (length msg + 31) / 32
      → any_brings k arr ≡ false
      → bit w k ≡ 0
      → (se' : Rse) × (patch_rse se (arrivals arr) ≡ some se')
        × (test_all_bits_set se'.bitmap se'.n_slices ≡ some false)
  patch_rse_incomplete k l none_came not_before =
      let (v, se', run, waits', bits) = patch_rse_lem msg arr w se small waits in
      let missing : bit v k ≡ 0 = bits k ∙ rw none_came not_before in
      let n = (length msg + 31) / 32 in
      let test = test_all_bits_set_lem v n (omega arith) in
      let answer = (if n == 0 then true else v == 2 ^ n - 1) in
      (
        se',
        run,
        rw (waits'.bitmap, waits'.n_slices)
            (elim (Bool-cases answer) [
              | inl e ↦ absurd (
                  cc (
                    missing,
                    ((test_all_bits_set_iff v n (omega arith) (omega arith)).0 (test ∙ ap some e)).0
                        k l,
                  ))
              | inr e ↦ test ∙ ap some e
            ]),
      )
