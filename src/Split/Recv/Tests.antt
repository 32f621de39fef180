-- ===== src/Split/Recv/Tests.antt =====
-- The deliveries at a message of two blocks, of which one has come before.
use ipcf.Common.{
  ℕ, zero, suc, ◌/◌, ◌≤◌, ◌≡◌, refl, true, false, none, some, List, [], ◌∷◌, ◌++◌, arith, replicate,
  inl, inr, ◌⊎◌, Bool-cases, ltb, ltb→lt, ltb-false→le, get_or-append_left, sym, ◌∙◌, ◌<◌,
}
use ipcf.Common.Fault.{◌>>=◌}
use ipcf.Common.Bits.{bit, bit-zero}
use ipcf.Split.Types.{Rse, Node, Env, FrmHdr, csum32}
use ipcf.Split.Slice.{patch_rse}
use ipcf.Split.Slice.Patch.{Waits, Arrival, genuine, arrivals, any_brings}
use ipcf.Split.Recv.{patch_done, data_done}
use ipcf.Split.Recv.Deliver.{Delivers, patch_done-Delivers, data_done-Delivers}

abbrev msg : List ℕ
msg = replicate 39 7 ++ (9 ∷ [])

-- A session that has the first block of the message.
abbrev half : Rse
half = record {
  idle_timeout = 10000;
  bitmap = 1 ∷ [];
  seq_exp = 3;
  n_slices = 2;
  msglen = 40;
  d_csum = csum32 msg;
  buf = replicate 32 7 ++ replicate 968 0;
  completed = false;
  nak = false;
}

low : (j : ℕ) → 1 ≤ j → bit 1 j ≡ 0
unfolding bit
low zero h = absurd (omega arith)
low (suc j) h = bit-zero j

half-Waits : Waits msg 1 half
half-Waits = record {
  n_slices = refl;
  msglen = refl;
  bitmap = refl;
  room = refl;
  stored = λ i l e. elim (Bool-cases (ltb i 32)) [
    | inl q ↦
        let h : i < 32 = ltb→lt i 32 q in
        get_or-append_left 0 (replicate 32 7) (replicate 968 0) i h
        ∙ sym (get_or-append_left 0 (replicate 32 7) (replicate 7 7 ++ (9 ∷ [])) i h)
    | inr q ↦
        let h : 1 ≤ i / 32 = omega (arith, ltb-false→le i 32 q) in
        absurd (ground (arith, e, low (i / 32) h))
  ];
}

abbrev last_block : List (Arrival msg)
last_block = genuine 1 (omega arith) ∷ []

comes_or_came : (k : ℕ) → k < 2 → (any_brings k last_block ≡ true) ⊎ (bit 1 k ≡ 1)
unfolding bit
comes_or_came zero h = inr refl
comes_or_came (suc zero) h = inl refl
comes_or_came (suc (suc k)) h = absurd (omega arith)

abbrev env : Env
env = record { now = 5; stale = replicate 1000 0; info_level = 1 }

abbrev hdr : FrmHdr
hdr = record { src = 1; dst = 2; type = 5; reserved = 0; len = 54; csum = 0 }

-- A node with that session, and with an older message to hand up.
abbrev node : Node
node = record {
  sse = λ i. none;
  rse = λ i. some half;
  upper_recv_list = (1 ∷ []) ∷ [];
  lower_send_list = [];
}

patch_done-Delivers_example :
    (n : Node) × ((do se ← patch_rse half (arrivals last_block); patch_done env hdr se node)
      ≡ some n)
    × Delivers env hdr 3 msg node n
patch_done-Delivers_example =
    patch_done-Delivers msg last_block 1 half (omega arith) (omega arith) half-Waits
      (λ j h. low j (omega arith)) comes_or_came refl refl env hdr node

data_done-Delivers_example :
    (n : Node) × ((do se ← patch_rse half (arrivals last_block); data_done env hdr se node)
      ≡ some n)
    × Delivers env hdr 3 msg node n
data_done-Delivers_example =
    data_done-Delivers msg last_block 1 half (omega arith) (omega arith) half-Waits
      (λ j h. low j (omega arith)) comes_or_came refl refl env hdr node refl
