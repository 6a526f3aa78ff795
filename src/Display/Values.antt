-- ===== src/Display/Values.antt =====
-- What sorting keeps of the values that a report is about.
use mathlib.Core.List.{Perm}
use network_lab.Common.{
  ℕ, ◌-◌, ◌*◌, ◌/◌, ◌^◌, ◌≤◌, ◌<◌, ◌≡◌, true, List, [], ◌∷◌, map, some, ok, Returns, Returns-mono,
  arith, length, sum, get_elem?, get_elem?-lt, All, All-of_get_elem?,
}
use network_lab.Sorting.{Sorter, compare_ull}
use network_lab.Sorting.Order.{
  IsSorted, IsWithin, IsWithin-perm, length-perm, sum-perm, get_elem?-mono,
}
use network_lab.Stats.{mad, average}
use network_lab.Stats.Percentile.{Rank}
use network_lab.Stats.Mad.{distance, mad-Rank}
use network_lab.Stats.Average.{average-eq-quotient}

pub sorted-IsWithin :
    (xs : List ℕ) (n : ℕ) {lo hi : ℕ}
    → IsSorted xs
    → length xs ≡ n
    → get_elem? xs 0 ≡ some lo
    → get_elem? xs (n - 1) ≡ some hi
    → IsWithin lo hi xs
sorted-IsWithin xs n s same p q = All-of_get_elem? _ xs λ i x e. (
  get_elem?-mono xs 0 i s (omega arith) p e,
  get_elem?-mono xs i (n - 1) s (omega (arith, get_elem?-lt xs i e)) e q,
)

All-of_IsWithin : (xs : List ℕ) → IsWithin 0 (2 ^ 63 - 1) xs → All (λ x. x ≤ 2 ^ 64 - 1) xs
All-of_IsWithin [] w = tt
All-of_IsWithin (x ∷ xs) w = (omega (arith, w.0.1), All-of_IsWithin xs w.1)

pub average_of_perm :
    (xs ys : List ℕ)
    → Perm ys xs
    → 0 < length xs
    → IsWithin 0 (2 ^ 63 - 1) xs
    → average ys (length xs) ≡ ok (sum xs / length xs)
average_of_perm xs ys p h w =
    let inside = All-of_IsWithin ys (IsWithin-perm 0 (2 ^ 63 - 1) p w) in
    let same = length-perm p in
    rw (same, sum-perm p) at (average-eq-quotient ys (omega arith) inside)

pub mad_bound :
    (sorter : Sorter) (low high m n : ℕ) (xs : List ℕ)
    → length xs ≡ n
    → 2 ≤ n
    → 50 * n < 2 ^ 32
    → IsWithin low high xs
    → high < 2 ^ 63
    → low ≤ m
    → m ≤ high
    → Returns (λ r. r ≤ high - low) (mad sorter true xs m n)
mad_bound sorter low high m n xs e many few w fits above below = rw (← e) (
    Returns-mono
      (λ r.
        Rank (sorter.sort compare_ull (map (distance m) xs)) (50 * length xs) r × (r ≤ high - low))
      (λ r. r ≤ high - low) (mad sorter true xs m (length xs))
      (mad-Rank sorter low high m xs (omega arith) (omega arith) w fits above below) (λ r p. p.1))
