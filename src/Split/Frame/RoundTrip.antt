-- ===== src/Split/Frame/RoundTrip.antt =====
-- `de_frame` after `en_frame`, with whatever surrounds the frame on the link.
use ipcf.Common.{
  ℕ, zero, suc, ◌+◌, ◌≤◌, ◌≡◌, ◌≢◌, inl, inr, refl, true, List, [], ◌∷◌, ◌++◌, arith, ◌∙◌, length,
  All, take, ltb, if◌then◌else◌, Bool-cases, ltb→lt, ltb-false→le,
}
use ipcf.Split.Frame.{
  break_char, stuff, done, short, DeFrame, seek, plain, en_frame, de_loop, de_frame,
}
use ipcf.Split.Frame.Encode.{stuffed, framed, en_frame-framed, en_frame_over}
use mathlib.Core.List.{append_assoc}

-- One stuffed byte is read back as that byte.
de_loop-stuff :
    (c : ℕ) (ys : List ℕ) (cap n : ℕ)
    → de_loop plain (stuff c ++ ys) cap n ≡ (
        if ltb cap (n + 1)
        then record { ret = short; buf = [] }
        else record (de_loop plain ys cap (n + 1)) { buf = c ∷ (de_loop plain ys cap (n + 1)).buf })
unfolding de_loop stuff
de_loop-stuff c ys cap n = ground arith

-- What `de_frame` makes of a whole frame: all of the data if it fits, or else as much as fits.
abbrev pub received : List ℕ → ℕ → DeFrame
received msg cap =
    if ltb cap (length msg)
    then record { ret = short; buf = take cap msg }
    else record { ret = done; buf = msg }

de_loop-stuffed :
    (msg rest : List ℕ) (cap n k : ℕ)
    → n + k ≡ cap
    → de_loop plain (stuffed msg ++ (break_char ∷ rest)) cap n ≡ received msg k
unfolding stuffed
de_loop-stuffed [] rest cap n k h = unfold de_loop in ground arith
de_loop-stuffed (c ∷ cs) rest cap n zero h =
    rw append_assoc (de_loop-stuff c _ cap n ∙ ground arith)
de_loop-stuffed (c ∷ cs) rest cap n (suc k) h =
    rw append_assoc
      (de_loop-stuff c _ cap n ∙ ground (arith, de_loop-stuffed cs rest cap (n + 1) k))

de_loop-junk :
    (junk ys : List ℕ) (cap n : ℕ)
    → All (λ c. c ≢ break_char) junk
    → de_loop seek (junk ++ (break_char ∷ ys)) cap n ≡ de_loop plain ys cap n
unfolding de_loop
de_loop-junk [] ys cap n h = refl
de_loop-junk (j ∷ junk) ys cap n h = ground (arith, de_loop-junk junk ys cap n)

-- Bytes without a break, a frame, and any bytes behind it: `de_frame` stores the frame's data and
-- returns 0 if `*len` is large enough, and otherwise stores the first `*len` bytes and returns -1.
pub de_frame-framed :
    (junk msg rest : List ℕ) (cap : ℕ)
    → All (λ c. c ≢ break_char) junk
    → de_frame (junk ++ (framed msg ++ rest)) cap ≡ received msg cap
unfolding de_frame framed
de_frame-framed junk msg rest cap h =
    rw (append_assoc (stuffed msg) (break_char ∷ []) rest, de_loop-junk junk _ cap 0 h)
      (de_loop-stuffed msg rest cap 0 cap (omega arith))

-- Whenever `en_frame` returns a length, `de_frame` gives back the data from a buffer of that size.
pub de_frame-en_frame :
    (junk msg rest : List ℕ) (size cap : ℕ)
    → All (λ c. c ≢ break_char) junk
    → (en_frame msg size).fits ≡ true
    → length msg ≤ cap
    → (de_frame (junk ++ ((en_frame msg size).bytes ++ rest)) cap
        ≡ record { ret = done; buf = msg })
      × (length (en_frame msg size).bytes ≤ size)
de_frame-en_frame junk msg rest size cap hj hf hc =
    elim (Bool-cases (ltb size (length (framed msg)))) [
      | inl over ↦
          absurd (cc (hf, (en_frame_over msg size (ltb→lt size (length (framed msg)) over))))
      | inr fit ↦
          let le = ltb-false→le size (length (framed msg)) fit in
          rw (en_frame-framed msg size le) (de_frame-framed junk msg rest cap hj ∙ ground arith, le)
    ]
