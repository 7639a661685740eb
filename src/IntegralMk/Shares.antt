-- ===== src/IntegralMk/Shares.antt =====
-- How `Send` splits the points among the threads.
use sem.Common.{
  ℕ, zero, suc, ◌+◌, ◌-◌, ◌*◌, ◌/◌, ◌≤◌, ◌<◌, ◌≡◌, refl, ◌∙◌, true, false, ◌==◌, arith,
}
use native.Mathlib.Omega.{div_any}
use sem.IntegralMk.Main.{points_of, total_from}

-- The quotient times the number of the threads is no more than the points.
pub share-bound : (points threads : ℕ) → threads * (points / threads) ≤ points
share-bound points threads = omega (arith, div_any points threads)

next_share : (i k : ℕ) → (i + 1) * k ≡ i * k + k
next_share i k = grind arith

last_share :
    (points threads i : ℕ)
    → i + 1 ≡ threads
    → points_of points threads i ≡ points - i * (points / threads)
unfolding points_of
last_share points threads i e = let a : (i + 1 == threads) ≡ true = ground arith in rw a refl

other_share :
    (points threads i : ℕ) → i + 1 < threads → points_of points threads i ≡ points / threads
unfolding points_of
other_share points threads i e = let a : (i + 1 == threads) ≡ false = ground arith in rw a refl

share_le : (i threads k : ℕ) → i ≤ threads → i * k ≤ threads * k
share_le i threads k h = grind arith

total_from-rest :
    (points threads i n : ℕ)
    → i + suc n ≡ threads
    → total_from points threads i (suc n) ≡ points - i * (points / threads)
unfolding total_from
total_from-rest points threads i zero e = omega (arith, last_share points threads i e)
total_from-rest points threads i (suc n) e =
    let a = other_share points threads i (omega (arith, e)) in
    let b = total_from-rest points threads (i + 1) n (omega (arith, e)) in
    let c = next_share i (points / threads) in
    let d = share-bound points threads in
    let f = share_le (i + 1) threads (points / threads) (omega (arith, e)) in
    omega (arith, a, b, c, d, f)

-- The threads make as many points as there are to make, if there is a thread.
pub total_from-all :
    (points threads : ℕ) → 0 < threads → total_from points threads 0 threads ≡ points
total_from-all points zero h = absurd (omega arith)
total_from-all points (suc n) h = total_from-rest points (suc n) 0 n (omega arith) ∙ omega arith
