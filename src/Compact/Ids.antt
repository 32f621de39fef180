-- ===== src/Compact/Ids.antt =====
-- Lists of identifiers without repetition: membership, and how many there can be.
use ipcf.Common.{
  ℕ, zero, suc, ◌+◌, ◌≤◌, ◌<◌, ◌≡◌, refl, ◌∙◌, false, ◌||◌, List, [], ◌∷◌, ◌++◌, arith, length, All,
  if◌then◌else◌,
}
use ipcf.Compact.Table.{has, Distinct}

pub has-append : (x : ℕ) (xs ys : List ℕ) → has x (xs ++ ys) ≡ (has x xs || has x ys)
has-append x [] ys = refl
has-append x (y ∷ xs) ys = ground (arith, has-append x xs ys)

pub append-Distinct :
    (xs : List ℕ) (x : ℕ) → Distinct xs → has x xs ≡ false → Distinct (xs ++ (x ∷ []))
append-Distinct [] x d h = (refl, tt)
append-Distinct (y ∷ xs) x d h = (
  has-append y xs (x ∷ []) ∙ ground (arith, d.0, h),
  append-Distinct xs x d.1 (ground (arith, h)),
)

-- The numbers below `n` that are in a list.
unfoldable count : ℕ → List ℕ → ℕ
count zero xs = 0
count (suc n) xs = (if has n xs then 1 else 0) + count n xs

count-above : (n x : ℕ) (xs : List ℕ) → n ≤ x → count n (x ∷ xs) ≡ count n xs
unfolding count
count-above zero x xs h = refl
count-above (suc n) x xs h = ground (arith, count-above n x xs)

count-cons :
    (n x : ℕ) (xs : List ℕ) → x < n → has x xs ≡ false → count n (x ∷ xs) ≡ suc (count n xs)
unfolding count
count-cons zero x xs h e = absurd (omega arith)
count-cons (suc n) x xs h e = ground (arith, e, count-cons n x xs, count-above n x xs)

count-nil : (m : ℕ) → 0 ≡ count m []
unfolding count
count-nil zero = refl
count-nil (suc m) = count-nil m ∙ omega arith

length-count : (n : ℕ) (xs : List ℕ) → Distinct xs → All (λ x. x < n) xs → length xs ≡ count n xs
length-count n [] d b = count-nil n
length-count n (x ∷ xs) d b = omega (arith, length-count n xs d.1 b.1, count-cons n x xs b.0 d.0)

count-le : (n : ℕ) (xs : List ℕ) → count n xs ≤ n
unfolding count
count-le zero xs = omega arith
count-le (suc n) xs = ground (arith, count-le n xs)

count-lt : (n x : ℕ) (xs : List ℕ) → x < n → has x xs ≡ false → count n xs < n
unfolding count
count-lt zero x xs h e = absurd (omega arith)
count-lt (suc n) x xs h e = ground (arith, e, count-le n xs, count-lt n x xs)

-- A list of different numbers below `n` that lacks one of them is shorter than `n`.
pub length-lt :
    (n x : ℕ) (xs : List ℕ)
    → Distinct xs
    → All (λ y. y < n) xs
    → x < n
    → has x xs ≡ false
    → length xs < n
length-lt n x xs d b h e = omega (arith, length-count n xs d b, count-lt n x xs h e)
