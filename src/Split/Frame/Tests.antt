-- ===== src/Split/Frame/Tests.antt =====
-- Runs of `en_frame` and `de_frame`, and the theorems at concrete frames.
use ipcf.Common.{
  ℕ, ◌+◌, ◌≤◌, ◌<◌, ◌≡◌, ◌≢◌, refl, true, false, List, [], ◌∷◌, ◌++◌, arith, length, All, take, ◌⊎◌,
}
use ipcf.Split.Frame.{break_char, done, short, cut, unknown, en_frame, de_frame}
use ipcf.Split.Frame.Encode.{stuffed, framed, en_frame-framed, en_frame_short}
use ipcf.Split.Frame.Decode.{de_frame_bounds, de_frame-framed_inv}
use ipcf.Split.Frame.RoundTrip.{received, de_frame-framed, de_frame-en_frame}

-- Both special bytes, and a plain one.
abbrev msg : List ℕ
msg = 0xc0 ∷ 7 ∷ 0xdb ∷ []

abbrev frame : List ℕ
frame = 0xc0 ∷ 0xdb ∷ 0xdc ∷ 7 ∷ 0xdb ∷ 0xdb ∷ 0xc0 ∷ []

en_frame-msg : en_frame msg 7 ≡ record { fits = true; used = 3; bytes = frame }
unfolding en_frame
en_frame-msg = refl

-- One byte too small: the two data bytes that fit are stored, then the escape has no room.
en_frame-small :
    en_frame msg 5 ≡ record { fits = false; used = 2; bytes = 0xc0 ∷ 0xdb ∷ 0xdc ∷ 7 ∷ [] }
unfolding en_frame
en_frame-small = refl

de_frame-frame : de_frame (1 ∷ 0xdb ∷ frame ++ (9 ∷ [])) 3 ≡ record { ret = done; buf = msg }
unfolding de_frame
de_frame-frame = refl

de_frame-no_room : de_frame frame 2 ≡ record { ret = short; buf = 0xc0 ∷ 7 ∷ [] }
unfolding de_frame
de_frame-no_room = refl

de_frame-cut : de_frame (0xc0 ∷ 5 ∷ 0xdb ∷ []) 9 ≡ record { ret = cut; buf = 5 ∷ [] }
unfolding de_frame
de_frame-cut = refl

de_frame-unknown : de_frame (0xc0 ∷ 0xdb ∷ 0xdd ∷ []) 9 ≡ record { ret = unknown; buf = [] }
unfolding de_frame
de_frame-unknown = refl

de_frame-en_frame_example :
    (de_frame (1 ∷ 0xdb ∷ (en_frame msg 7).bytes ++ (9 ∷ [])) 3 ≡ record { ret = done; buf = msg })
    × (length (en_frame msg 7).bytes ≤ 7)
unfolding en_frame
de_frame-en_frame_example =
    de_frame-en_frame (1 ∷ 0xdb ∷ []) msg (9 ∷ []) 7 3 (omega arith) refl (omega arith)

de_frame-framed_example : de_frame (5 ∷ framed msg ++ (9 ∷ [])) 2 ≡ received msg 2
de_frame-framed_example = de_frame-framed (5 ∷ []) msg (9 ∷ []) 2 (omega arith)

de_frame-framed_inv_example :
    (junk rest : List ℕ) × All (λ c. c ≢ break_char) junk
    × (frame ≡ junk ++ (framed (de_frame frame 3).buf ++ rest))
unfolding de_frame
de_frame-framed_inv_example = de_frame-framed_inv frame 3 refl

de_frame_bounds_example :
    (length (de_frame frame 2).buf ≤ 2) × (length (de_frame frame 2).buf ≤ length frame)
de_frame_bounds_example = de_frame_bounds frame 2

en_frame-framed_example : en_frame msg 7 ≡ record { fits = true; used = 3; bytes = framed msg }
unfolding framed stuffed en_frame
en_frame-framed_example = en_frame-framed msg 7 (omega arith)

en_frame_short_example :
    let r = en_frame msg 5 in
    (r.fits ≡ false)
    × (r.used ≤ 3)
    × (length r.bytes ≤ 5)
    × (r.bytes ≡ break_char ∷ stuffed (take r.used msg))
    × ((r.used ≡ 3) ⊎ (5 < 1 + length (stuffed (take (r.used + 1) msg))))
unfolding framed stuffed en_frame
en_frame_short_example = en_frame_short msg 5 (omega arith) (omega arith)
