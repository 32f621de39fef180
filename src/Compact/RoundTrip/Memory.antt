-- ===== src/Compact/RoundTrip/Memory.antt =====
-- Copies between buffers that stay in bounds.
use ipcf.Common.{
  ℕ, zero, suc, ◌+◌, ◌-◌, ◌^◌, ◌≤◌, ◌<◌, ◌≡◌, refl, ap, ◌∙◌, some, List, [], ◌∷◌, ◌++◌, arith,
  length, take, drop, le→ltb-false, length-append, take-append, drop-append,
}
use ipcf.Split.Types.{size_sub}
use ipcf.Compact.Types.{max_data_length, copy, fill_pkt}

pub copy-some :
    (buf : List ℕ) (off n : ℕ)
    → off + n ≤ length buf
    → copy buf off n ≡ some (take n (drop off buf))
unfolding copy
copy-some buf off n h = rw (le→ltb-false (length buf) (off + n) h) refl

pub fill_pkt-some : (bytes : List ℕ) → length bytes ≤ max_data_length → fill_pkt bytes ≡ some bytes
unfolding fill_pkt
fill_pkt-some bytes h = rw (le→ltb-false max_data_length (length bytes) h) refl

-- A copy of what stands between two parts.
pub copy-middle :
    (xs ys zs : List ℕ) (off n : ℕ)
    → length xs ≡ off
    → length ys ≡ n
    → copy (xs ++ (ys ++ zs)) off n ≡ some ys
copy-middle xs ys zs off n hx hy =
    copy-some (xs ++ (ys ++ zs)) off n
      (omega (arith, length-append xs (ys ++ zs), length-append ys zs))
    ∙ ap some (rw (drop-append off xs (ys ++ zs) hx) (take-append n ys zs hy))

pub size_sub_lem : (a b : ℕ) → b ≤ a → a < 2 ^ 64 → size_sub a b ≡ a - b
size_sub_lem a b h l = omega arith

-- Two neighbouring pieces of a buffer.
pub take-append-take :
    (m n k : ℕ) (xs : List ℕ) → m + n ≡ k → take m xs ++ take n (drop m xs) ≡ take k xs
take-append-take zero n k xs e = ap (λ j. take j xs) (omega arith)
take-append-take (suc m) zero (suc k) [] e = refl
take-append-take (suc m) (suc n) (suc k) [] e = refl
take-append-take (suc m) n zero xs e = absurd (omega arith)
take-append-take (suc m) n (suc k) (x ∷ xs) e =
    ap (λ l. x ∷ l) (take-append-take m n k xs (omega arith))
