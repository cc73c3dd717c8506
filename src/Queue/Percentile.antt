-- ===== src/Queue/Percentile.antt =====
-- The percentiles of the queue monitor's samples.
use somethingtrade.Prelude.{
  ℕ, zero, suc, ◌*◌, ◌≤◌, ◌<◌, ◌≡◌, min, true, List, [], ◌∷◌, arith, length, All,
}
use somethingtrade.Prelude.Sorted.{IsAscending, contains}
use somethingtrade.Queue.{percentile, round_hundredths, nth_or}

round_mono : (x y : ℕ) → x ≤ y → round_hundredths x ≤ round_hundredths y
unfolding round_hundredths
round_mono x y h = ground arith

nth_or-contains : (l : List ℕ) (i : ℕ) → i < length l → contains l (nth_or l i) ≡ true
nth_or-contains [] i h = absurd (omega arith)
nth_or-contains (x ∷ l) zero h = ground arith
nth_or-contains (x ∷ l) (suc i) h = ground (arith, nth_or-contains l i)

first-le : (x : ℕ) (l : List ℕ) (i : ℕ) → All (λ y. x ≤ y) l → i < length l → x ≤ nth_or l i
first-le x [] i a h = absurd (omega arith)
first-le x (y ∷ l) zero a h = a.0
first-le x (y ∷ l) (suc i) a h = first-le x l i a.1 (omega arith)

nth_or_mono :
    (l : List ℕ) (i j : ℕ) → IsAscending l → i ≤ j → j < length l → nth_or l i ≤ nth_or l j
nth_or_mono [] i j a h k = absurd (omega arith)
nth_or_mono (x ∷ l) zero zero a h k = omega arith
nth_or_mono (x ∷ l) zero (suc j) a h k = first-le x l j a.0 (omega arith)
nth_or_mono (x ∷ l) (suc i) zero a h k = absurd (omega arith)
nth_or_mono (x ∷ l) (suc i) (suc j) a h k = nth_or_mono l i j a.1 (omega arith) (omega arith)

abbrev index_of : List ℕ → ℕ → ℕ
index_of l percent = min (length l) (round_hundredths (length l * percent))

index_mono :
    (n p q : ℕ) → p ≤ q → min n (round_hundredths (n * p)) ≤ min n (round_hundredths (n * q))
index_mono n p q h =
    let m : n * p ≤ n * q = grind arith in omega (arith, round_mono (n * p) (n * q) m)

-- The percentile of samples in ascending order is one of them, if there are any, and it does not
-- fall when the percentage grows.
pub percentile_lem :
    (l : List ℕ) (p q : ℕ)
    → IsAscending l
    → p ≤ q
    → (0 < length l → contains l (percentile l p) ≡ true) × (percentile l p ≤ percentile l q)
unfolding percentile
percentile_lem [] p q a h = (λ k. absurd (omega arith), omega arith)
percentile_lem (x ∷ []) p q a h = (λ k. ground arith, omega arith)
percentile_lem (x ∷ y ∷ l) p q a h = (
  λ k. nth_or-contains (x ∷ y ∷ l) (index_of (y ∷ l) p) (omega arith),
  nth_or_mono (x ∷ y ∷ l) (index_of (y ∷ l) p) (index_of (y ∷ l) q) a
      (index_mono (length (y ∷ l)) p q h) (omega arith),
)
