-- ===== src/Split/Slice/Tests.antt =====
-- The theorems on slices at a message of two blocks.
use ipcf.Common.{
  ℕ, ◌/◌, ◌≡◌, ◌≢◌, refl, true, false, some, List, [], ◌∷◌, ◌++◌, arith, length, take, replicate,
  inl,
}
use ipcf.Common.Bits.{bit-zero}
use ipcf.Split.Types.{link_data_max, Slice, Rse, csum16}
use ipcf.Crc.{crc16}
use ipcf.Split.Bitmap.{test_all_bits_set}
use ipcf.Split.Slice.{slice_csum, fill_slices, patch_rse}
use ipcf.Split.Slice.Fill.{genuine_from, fill_slices_lem}
use ipcf.Split.Slice.Patch.{Waits, Arrival, genuine, damaged, arrivals}
use ipcf.Split.Slice.Reassemble.{patch_rse_complete, patch_rse_incomplete}

abbrev msg : List ℕ
msg = replicate 39 7 ++ (9 ∷ [])

-- A session that has taken over the header of the message.
abbrev started : Rse
started = record {
  idle_timeout = 10000;
  bitmap = 0 ∷ [];
  seq_exp = 0;
  n_slices = 2;
  msglen = 40;
  d_csum = 0;
  buf = replicate 1000 0;
  completed = false;
  nak = false;
}

started-Waits : Waits msg 0 started
started-Waits = record {
  n_slices = refl;
  msglen = refl;
  bitmap = refl;
  room = refl;
  stored = λ i l e. absurd (ground (arith, e, bit-zero (i / 32)));
}

abbrev noise : Slice
noise = record { sep = 0x7e; seq = 1; payload = replicate 32 7; csum = 5 }

noise-damaged : noise.csum ≢ slice_csum noise
unfolding csum16 crc16
noise-damaged = λ e. absurd (omega (arith, e))

abbrev both : List (Arrival msg)
both =
    genuine 1 (omega arith)
    ∷ damaged noise noise-damaged
    ∷ genuine 0 (omega arith)
    ∷ genuine 1 (omega arith)
    ∷ []

abbrev one : List (Arrival msg)
one = damaged noise noise-damaged ∷ genuine 0 (omega arith) ∷ []

patch_rse_complete_example :
    (se : Rse) × (patch_rse started (arrivals both) ≡ some se)
    × (test_all_bits_set se.bitmap se.n_slices ≡ some true)
    × (take se.msglen se.buf ≡ msg)
    × (length se.buf ≡ 1000)
patch_rse_complete_example =
    patch_rse_complete msg both 0 started (omega arith) (omega arith) started-Waits
      (λ j l. bit-zero j) (λ k l. inl (ground arith))

patch_rse_incomplete_example :
    (se : Rse) × (patch_rse started (arrivals one) ≡ some se)
    × (test_all_bits_set se.bitmap se.n_slices ≡ some false)
patch_rse_incomplete_example =
    patch_rse_incomplete msg one 0 started (omega arith) (omega arith) started-Waits
      (λ j l. bit-zero j) 1 (omega arith) refl (bit-zero 1)

fill_slices_lem_example :
    fill_slices link_data_max msg
    ≡ record { slices = genuine_from msg 0 2; n_slices = 2; remain = 0 }
fill_slices_lem_example = fill_slices_lem msg
