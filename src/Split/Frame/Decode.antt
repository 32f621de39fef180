-- ===== src/Split/Frame/Decode.antt =====
-- `de_frame` on any input: what it stores, and which inputs it accepts.
use ipcf.Common.{
  ℕ, ◌+◌, ◌≤◌, ◌≡◌, ◌≢◌, refl, List, [], ◌∷◌, ◌++◌, arith, length, All, ◌==◌, if◌then◌else◌,
}
use ipcf.Split.Frame.{
  break_char, escape_char, stuff, done, Mode, seek, plain, escaped, stop, store, go, de_action,
  de_loop, de_frame,
}
use ipcf.Split.Frame.Encode.{stuffed, framed}
use mathlib.Core.List.{append_assoc}

-- No store passes the end of `buf`, and no byte is stored that was not read.
de_loop_bounds :
    (m : Mode) (cs : List ℕ) (cap n : ℕ)
    → n ≤ cap
    → (n + length (de_loop m cs cap n).buf ≤ cap) × (length (de_loop m cs cap n).buf ≤ length cs)
unfolding de_loop
de_loop_bounds m [] cap n h = ground arith
de_loop_bounds m (c ∷ cs) cap n h = ground (
  arith,
  de_loop_bounds seek cs cap n,
  de_loop_bounds plain cs cap n,
  de_loop_bounds escaped cs cap n,
  de_loop_bounds plain cs cap (n + 1),
)

-- Whatever the input, `de_frame` stores at most `*len` bytes, and at most as many as it reads.
pub de_frame_bounds :
    (frm : List ℕ) (cap : ℕ)
    → (length (de_frame frm cap).buf ≤ cap) × (length (de_frame frm cap).buf ≤ length frm)
unfolding de_frame
de_frame_bounds frm cap = omega (arith, de_loop_bounds seek frm cap 0 (omega arith))

-- The bytes that a run leaves unread, and those before the first break.
unfoldable pub unread : Mode → List ℕ → List ℕ
unread m [] = []
unread m (c ∷ cs) = elim (de_action m c) [
  | stop r ↦ cs
  | store b ↦ unread plain cs
  | go m' ↦ unread m' cs
]

unfoldable pub noise : List ℕ → List ℕ
noise [] = []
noise (c ∷ cs) = if c == break_char then [] else c ∷ noise cs

unfoldable pub after_break : List ℕ → List ℕ
after_break [] = []
after_break (c ∷ cs) = if c == break_char then cs else after_break cs

-- The bytes read since the last whole byte of data.
abbrev pending : Mode → List ℕ
pending escaped = escape_char ∷ []
pending plain = []
pending seek = []

-- After the first break a run that succeeds has read the stuffing of what it stores, and a break.
de_loop_inv :
    (m : Mode) (cs : List ℕ) (cap n : ℕ)
    → m ≢ seek
    → (de_loop m cs cap n).ret ≡ done
    → pending m ++ cs ≡ stuffed (de_loop m cs cap n).buf ++ (break_char ∷ unread m cs)
unfolding de_loop stuffed stuff unread
de_loop_inv seek cs cap n hm h = absurd (hm refl)
de_loop_inv plain [] cap n hm h = cc
de_loop_inv escaped [] cap n hm h = cc
de_loop_inv plain (c ∷ cs) cap n hm h =
    ground (arith, de_loop_inv plain cs cap (n + 1), de_loop_inv escaped cs cap n)
de_loop_inv escaped (c ∷ cs) cap n hm h = ground (arith, de_loop_inv plain cs cap (n + 1))

seek_inv :
    (cs : List ℕ) (cap n : ℕ)
    → (de_loop seek cs cap n).ret ≡ done
    → (cs ≡ noise cs ++ (break_char ∷ after_break cs))
      × (de_loop seek cs cap n ≡ de_loop plain (after_break cs) cap n)
unfolding de_loop noise after_break
seek_inv [] cap n h = cc
seek_inv (c ∷ cs) cap n h = ground (arith, seek_inv cs cap n)

noise-All : (cs : List ℕ) → All (λ c. c ≢ break_char) (noise cs)
unfolding noise
noise-All [] = tt
noise-All (c ∷ cs) = ground (arith, noise-All cs)

-- What `de_frame` accepts is noise without a break, then the frame of what it stores, then more
-- bytes.
pub de_frame-framed_inv :
    (frm : List ℕ) (cap : ℕ)
    → (de_frame frm cap).ret ≡ done
    → (junk rest : List ℕ) × All (λ c. c ≢ break_char) junk
      × (frm ≡ junk ++ (framed (de_frame frm cap).buf ++ rest))
unfolding de_frame framed
de_frame-framed_inv frm cap h =
    let (e, k) = seek_inv frm cap 0 h in
    let d = de_loop_inv plain (after_break frm) cap 0 (λ q. cc) (rw k at h) in
    let shift =
      append_assoc (stuffed (de_loop plain (after_break frm) cap 0).buf) (break_char ∷ [])
        (unread plain (after_break frm)) in
    (noise frm, unread plain (after_break frm), noise-All frm, ground (arith, e, k, d, shift))
