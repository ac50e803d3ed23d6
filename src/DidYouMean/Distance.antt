-- ===== src/DidYouMean/Distance.antt =====
-- The edit distance that the table is meant to hold: that of the names without their first
-- characters, since row and column 0 stand for the first characters themselves.
use gwion.Prelude.{ℕ, zero, suc, ◌+◌, ◌≤◌, List, arith, ◌==◌, if◌then◌else◌, get_or}
use gwion.DidYouMean.{min}

module _ (s t : List ℕ) where
  unfoldable pub distance : (i j : ℕ) → ℕ
  distance zero j = j
  distance (suc i) zero = suc i
  distance (suc i) (suc j) =
      if get_or s (suc i) 0 == get_or t (suc j) 0
      then distance i j
      else min (distance i (suc j) + 1) (distance (suc i) j + 1) (distance i j + 1)

  -- Each step changes a length by one at most.
  pub distance-ge : (i j : ℕ) → (i ≤ j + distance i j) × (j ≤ i + distance i j)
  unfolding distance
  distance-ge zero j = omega arith
  distance-ge (suc i) zero = omega arith
  distance-ge (suc i) (suc j) =
      ground (arith, distance-ge i j, distance-ge i (suc j), distance-ge (suc i) j)

  pub distance-le : (i j : ℕ) → distance i j ≤ i + j
  unfolding distance
  distance-le zero j = omega arith
  distance-le (suc i) zero = omega arith
  distance-le (suc i) (suc j) =
      ground (arith, distance-le i j, distance-le i (suc j), distance-le (suc i) j)
