-- ===== src/Split/Frame/Encode.antt =====
-- What `en_frame` writes, when it fits and when it does not.
use ipcf.Common.{
  ℕ, zero, suc, ◌+◌, ◌≤◌, ◌<◌, ◌≡◌, true, false, List, [], ◌∷◌, ◌++◌, arith, length, length-append,
  take, ◌⊎◌, inl, inr, Bool-cases, ltb, ltb→lt,
}
use ipcf.Split.Frame.{break_char, stuff, EnFrame, en_loop, en_frame}
use mathlib.Core.List.{append_assoc}

-- The stuffed data, and the whole frame, as a reference.
unfoldable pub stuffed : List ℕ → List ℕ
stuffed [] = []
stuffed (c ∷ cs) = stuff c ++ stuffed cs

unfoldable pub framed : List ℕ → List ℕ
framed msg = break_char ∷ stuffed msg ++ (break_char ∷ [])

pub length-stuff : (c : ℕ) → (1 ≤ length (stuff c)) × (length (stuff c) ≤ 2)
unfolding stuff
length-stuff c = ground arith

-- Stuffing takes between one and two bytes for each byte of data.
pub length-stuffed :
    (msg : List ℕ)
    → (length msg ≤ length (stuffed msg)) × (length (stuffed msg) ≤ length msg + length msg)
unfolding stuffed
length-stuffed [] = omega arith
length-stuffed (c ∷ cs) =
    omega (arith, length-append (stuff c) (stuffed cs), length-stuff c, length-stuffed cs)

pub length-framed : (msg : List ℕ) → length (framed msg) ≡ length (stuffed msg) + 2
unfolding framed
length-framed msg = omega (arith, length-append (stuffed msg) (break_char ∷ []))

-- A run of the loop that fits stores the stuffed data and the break.
record Fits (msg : List ℕ) (r : EnFrame) : Type 0 where
  fits : r.fits ≡ true
  used : r.used ≡ length msg
  bytes : r.bytes ≡ stuffed msg ++ (break_char ∷ [])

en_loop-Fits :
    (msg : List ℕ) (size n : ℕ)
    → n + length (stuffed msg) + 1 ≤ size
    → Fits msg (en_loop msg size n)
unfolding en_loop stuffed
en_loop-Fits [] size n h = ground arith
en_loop-Fits (c ∷ cs) size n h = ground (
  arith,
  length-append (stuff c) (stuffed cs),
  en_loop-Fits cs size (n + length (stuff c)),
  append_assoc (stuff c) (stuffed cs) (break_char ∷ []),
)

-- A run that does not fit has stored what precedes the first byte without room.
record Stops (msg : List ℕ) (size n : ℕ) (r : EnFrame) : Type 0 where
  fits : r.fits ≡ false
  used : r.used ≤ length msg
  bytes : r.bytes ≡ stuffed (take r.used msg)
  room : n + length r.bytes ≤ size
  full : r.used < length msg → size < n + length (stuffed (take (suc r.used) msg))

en_loop-Stops :
    (msg : List ℕ) (size n : ℕ)
    → n ≤ size
    → size < n + length (stuffed msg) + 1
    → Stops msg size n (en_loop msg size n)
unfolding en_loop stuffed
en_loop-Stops [] size n hn h = ground arith
en_loop-Stops (c ∷ cs) size n hn h = ground (
  arith,
  length-append (stuff c) (stuffed cs),
  length-append (stuff c) (stuffed (take 0 cs)),
  length-append (stuff c) (stuffed (take (suc ih.used) cs)),
  length-append (stuff c) ih.bytes,
  en_loop-Stops cs size (n + length (stuff c)),
)
  where
    ih : EnFrame
    ih = en_loop cs size (n + length (stuff c))

-- Where the stuffed data and the two breaks fit in `size`, `en_frame` returns their length, and
-- then it has stored that frame and taken all of the data.
pub en_frame-framed :
    (msg : List ℕ) (size : ℕ)
    → length (framed msg) ≤ size
    → en_frame msg size ≡ record { fits = true; used = length msg; bytes = framed msg }
unfolding en_frame framed
en_frame-framed msg size h = ground (arith, length-framed msg, en_loop-Fits msg size 1)

pub en_frame_over :
    (msg : List ℕ) (size : ℕ) → size < length (framed msg) → (en_frame msg size).fits ≡ false
unfolding en_frame framed
en_frame_over msg zero h = ground arith
en_frame_over msg (suc size) h = ground (arith, length-framed msg, en_loop-Stops msg (suc size) 1)

-- A run stops at the end of the data or before it.
stops_at {ℓ} : (i n : ℕ) (P : Type ℓ) → i ≤ n → (i < n → P) → (i ≡ n) ⊎ P
stops_at i n P h f = elim (Bool-cases (ltb i n)) [
  | inl q ↦ inr (f (ltb→lt i n q))
  | inr q ↦ inl (ground (arith, q, h))
]

-- Where the frame does not fit in `size`, at least 1, `en_frame` returns -1, stores at most `size`
-- bytes, namely the break and the stuffing of the first `used` bytes of the data, and stops there
-- because the next byte's stuffing does not fit.
pub en_frame_short :
    (msg : List ℕ) (size : ℕ)
    → 1 ≤ size
    → size < length (framed msg)
    → let r = en_frame msg size in
      (r.fits ≡ false)
      × (r.used ≤ length msg)
      × (length r.bytes ≤ size)
      × (r.bytes ≡ break_char ∷ stuffed (take r.used msg))
      × ((r.used ≡ length msg) ⊎ (size < 1 + length (stuffed (take (suc r.used) msg))))
unfolding en_frame framed
en_frame_short msg zero p h = absurd (omega arith)
en_frame_short msg (suc size) p h = ground (
  arith,
  length-framed msg,
  en_loop-Stops msg (suc size) 1,
  stops_at ((en_loop msg (suc size) 1).used) (length msg)
      (suc size < 1 + length (stuffed (take (suc (en_loop msg (suc size) 1).used) msg))),
)
