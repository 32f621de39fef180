-- ===== src/Csum/Check.antt =====
-- A packet that carries its own checksum: `csum` of lib/csum.c.
use ipcf.Common.{
  ℕ, zero, suc, ◌+◌, ◌-◌, ◌*◌, ◌/◌, ◌%◌, ◌^◌, ◌<◌, ◌≡◌, ap, ◌∙◌, List, [], ◌∷◌, ◌++◌, length, arith,
}
use ipcf.Common.Word.{le16}
use ipcf.Csum.{csum_continue, csum_finish, csum}

-- The sum of the 16-bit words.
abbrev pub word_sum : List ℕ → ℕ
word_sum [] = 0
word_sum (b ∷ []) = b
word_sum (a ∷ b ∷ rest) = a + 256 * b + word_sum rest

csum_continue_lem :
    (p : ℕ) (bytes : List ℕ) → csum_continue p bytes % 2 ^ 32 ≡ (p + word_sum bytes) % 2 ^ 32
unfolding csum_continue
csum_continue_lem p [] = omega arith
csum_continue_lem p (b ∷ []) = omega arith
csum_continue_lem p (a ∷ b ∷ rest) =
    csum_continue_lem ((p + (a + 256 * b)) % 2 ^ 32) rest ∙ omega arith

csum_continue-lt : (p : ℕ) (bytes : List ℕ) → p < 2 ^ 32 → csum_continue p bytes < 2 ^ 32
unfolding csum_continue
csum_continue-lt p [] h = h
csum_continue-lt p (b ∷ []) h = omega arith
csum_continue-lt p (a ∷ b ∷ rest) h =
    csum_continue-lt ((p + (a + 256 * b)) % 2 ^ 32) rest (omega arith)

csum-word_sum :
    (bytes : List ℕ) → word_sum bytes < 2 ^ 32 → csum bytes ≡ csum_finish (word_sum bytes)
unfolding csum
csum-word_sum bytes h =
    ap csum_finish
      (omega (arith, csum_continue_lem 0 bytes, csum_continue-lt 0 bytes (omega arith)))

-- A word in the middle.
word_sum-middle :
    (k : ℕ) (front back : List ℕ) (x y : ℕ)
    → length front ≡ 2 * k
    → word_sum (front ++ (x ∷ y ∷ back)) ≡ word_sum (front ++ (0 ∷ 0 ∷ back)) + (x + 256 * y)
word_sum-middle k [] back x y h = omega arith
word_sum-middle k (a ∷ []) back x y h = absurd (omega arith)
word_sum-middle zero (a ∷ b ∷ front) back x y h = absurd (omega arith)
word_sum-middle (suc k) (a ∷ b ∷ front) back x y h =
    omega (arith, word_sum-middle k front back x y (omega arith))

-- The checksum that is computed with 0 in its place makes the checksum of the whole 0, if adding
-- the carries of the sum to its low 16 bits has no carry again.
pub csum-verifies :
    (k : ℕ) (front back : List ℕ)
    → length front ≡ 2 * k
    → word_sum (front ++ (0 ∷ 0 ∷ back)) % 2 ^ 16 + word_sum (front ++ (0 ∷ 0 ∷ back)) / 2 ^ 16
      < 2 ^ 16
    → csum (front ++ (le16 (csum (front ++ (0 ∷ 0 ∷ back))) ++ back)) ≡ 0
unfolding csum_finish
csum-verifies k front back h carry =
    let total = word_sum (front ++ (0 ∷ 0 ∷ back)) in
    let small : total < 2 ^ 32 = omega (arith, carry) in
    let sum : csum (front ++ (0 ∷ 0 ∷ back)) ≡ 65535 - (total % 2 ^ 16 + total / 2 ^ 16) =
      csum-word_sum (front ++ (0 ∷ 0 ∷ back)) small ∙ omega (arith, carry) in
    let c = csum (front ++ (0 ∷ 0 ∷ back)) in
    let all : word_sum (front ++ (le16 c ++ back)) ≡ total + c =
      word_sum-middle k front back (c % 256) (c / 256 % 256) h ∙ omega (arith, sum) in
    csum-word_sum (front ++ (le16 c ++ back)) (omega (arith, all, sum, small, carry))
    ∙ ap csum_finish all
    ∙ omega (arith, sum, carry)
