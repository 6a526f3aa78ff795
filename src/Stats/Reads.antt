-- ===== src/Stats/Reads.antt =====
-- The statistics of kbench_mod.c over any values: whether they read within the array.
use network_lab.Common.{
  ℕ, zero, suc, ◌+◌, ◌*◌, ◌/◌, ◌%◌, ◌^◌, ◌≤◌, ◌<◌, ◌≡◌, ◌∙◌, true, List, map, ok, Returns,
  Returns-bind, arith, ◌==◌, Bool-cases, inl, inr, length, length-map, get_elem?-some, ◌≢◌,
}
use network_lab.Sorting.{Sorter, compare_ull}
use network_lab.Sorting.Order.{length-perm}
use network_lab.Stats.{Running, percentile, mad, average_step, average_loop, average}
use network_lab.Stats.Percentile.{read-some, IsCovered}
use network_lab.Stats.Mad.{distance, deviations-distance}

module _ (p count : ℕ) (sorted : List ℕ) (small : p * count < 2 ^ 32) where
  module _ (inside : p < 100) (filled : length sorted ≡ count) (nonempty : 0 < count) where
    -- Of a filled array, and where every rank that is read stands in it, `percentile` is a number.
    pub percentile-Returns :
        IsCovered (p * count) count → Returns (λ r. Unit {0}) (percentile p sorted count)
    unfolding percentile
    percentile-Returns c =
        let few : p * count ≤ 99 * count = grind arith in
        let product : p * count % 2 ^ 32 ≡ p * count = omega arith in
        let (a, low) = get_elem?-some sorted (p * count / 100) (omega (arith, few)) in
        rw product (elim (Bool-cases (p * count % 100 == 0)) [
          | inl e ↦ rw (e, read-some sorted _ low) tt
          | inr n ↦
              let n' : p * count % 100 ≢ 0 = ground arith in
              let (b, high) = get_elem?-some sorted (p * count / 100 + 1) (omega (arith, c n')) in
              rw (n, read-some sorted _ low, read-some sorted _ high) tt
        ])

-- Of two values or more, where the allocation succeeds, `mad` is a number.
pub mad-Returns :
    (k : Sorter) (m n : ℕ) (xs : List ℕ)
    → length xs ≡ n
    → 2 ≤ n
    → 50 * n < 2 ^ 32
    → Returns (λ r. Unit {0}) (mad k true xs m n)
unfolding mad
mad-Returns k m n xs e many few =
    let distances = map (distance m) xs in
    let same : length (k.sort compare_ull distances) ≡ length xs =
      length-perm (k.sort-perm compare_ull distances) ∙ length-map (distance m) xs in
    rw (← e, deviations-distance xs m)
      (percentile-Returns 50 (length xs) (k.sort compare_ull distances) (omega arith) (omega arith)
        same (omega arith) (λ u. omega arith))

average_loop-Returns :
    (rounds i : ℕ) (xs : List ℕ) (count : ℕ) (s : Running)
    → i + rounds ≤ length xs
    → Returns (λ r. Unit {0}) (average_loop rounds i xs count s)
unfolding average_loop
average_loop-Returns zero i xs count s h = tt
average_loop-Returns (suc rounds) i xs count s h =
    let (x, e) = get_elem?-some xs i (omega arith) in
    rw (read-some xs i e, average_loop)
      (average_loop-Returns rounds (i + 1) xs count (average_step count x s) (omega arith))

-- Of a filled array, `average` is a number.
pub average-Returns : (xs : List ℕ) (n : ℕ) → length xs ≡ n → Returns (λ r. Unit {0}) (average xs n)
unfolding average
average-Returns xs n e =
    Returns-bind (λ s. Unit {0}) (λ r. Unit {0})
      (average_loop n 0 xs n (record { avg = 0; remainder = 0 })) (λ s. ok s.avg)
      (average_loop-Returns n 0 xs n (record { avg = 0; remainder = 0 }) (omega (arith, e)))
      (λ s t. tt)
