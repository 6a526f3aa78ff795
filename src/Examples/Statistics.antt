-- ===== src/Examples/Statistics.antt =====
-- The statistics at concrete arrays.
use network_lab.Common.{◌≡◌, refl, true, [], ◌∷◌, ok, fault, bad_read, Returns, arith}
use network_lab.Sorting.Insertion.{insertion_sorter}
use network_lab.Stats.{percentile, mad, average}
use network_lab.Stats.Percentile.{Rank, percentile-Rank}
use network_lab.Stats.Mad.{mad-bad_read}
use network_lab.Stats.Average.{average-eq-quotient}

average-eq-quotient_example : average (7 ∷ 9 ∷ 13 ∷ []) 3 ≡ ok 9
average-eq-quotient_example = average-eq-quotient (7 ∷ 9 ∷ 13 ∷ []) (omega arith) (ground arith)

percentile-Rank_example : Returns (Rank (2 ∷ 4 ∷ 8 ∷ []) 150) (percentile 50 (2 ∷ 4 ∷ 8 ∷ []) 3)
percentile-Rank_example =
    percentile-Rank 50 3 (2 ∷ 4 ∷ 8 ∷ []) (omega arith) (omega arith) refl (omega arith)
      (ground arith) (λ n. omega arith)

mad-bad_read_example : mad insertion_sorter true (2 ∷ []) 2 1 ≡ fault bad_read
mad-bad_read_example = mad-bad_read insertion_sorter 2 (2 ∷ []) refl
