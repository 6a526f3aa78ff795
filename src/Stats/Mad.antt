-- ===== src/Stats/Mad.antt =====
-- The `mad` of kbench_mod.c, against the distances to the median.
use network_lab.Common.{
  ℕ, ◌+◌, ◌-◌, ◌*◌, ◌^◌, ◌≤◌, ◌<◌, ◌≡◌, refl, true, List, [], ◌∷◌, ◌++◌, map, append_assoc, ◌∙◌,
  fault, ok, bad_read, Returns, Returns-mono, arith, ltb, if◌then◌else◌, length, length-append,
  length-map, get_elem?-append,
}
use network_lab.Sorting.{Sorter, compare_ull}
use network_lab.Sorting.Order.{IsWithin, IsWithin-weaken, IsWithin-perm, length-perm}
use network_lab.Stats.{deviations, mad}
use network_lab.Stats.Percentile.{
  read-some, Rank, percentile-Rank, percentile-bad_read, Rank-IsWithin,
}

-- The distance of two numbers.
abbrev pub distance : ℕ → ℕ → ℕ
distance a b = (a - b) + (b - a)

deviation-distance : (m x : ℕ) → (if ltb m x then x - m else m - x) ≡ distance m x
deviation-distance m x = ground arith

deviations-append :
    (ys xs : List ℕ) (m : ℕ)
    → deviations (length xs) (length ys) (ys ++ xs) m ≡ ok (map (distance m) xs)
unfolding deviations
deviations-append ys [] m = refl
deviations-append ys (x ∷ xs) m =
    let e : length (ys ++ x ∷ []) ≡ length ys + 1 = omega (arith, length-append ys (x ∷ [])) in
    let next = rw (append_assoc, e) at (deviations-append (ys ++ x ∷ []) xs m) in
    rw (read-some (ys ++ x ∷ xs) (length ys) (get_elem?-append ys xs x (length ys) refl), next)
      (rw (deviation-distance m x))

-- The loop of `mad` computes the distance of each value to the median, in order.
pub deviations-distance :
    (xs : List ℕ) (m : ℕ) → deviations (length xs) 0 xs m ≡ ok (map (distance m) xs)
deviations-distance xs m = deviations-append [] xs m

IsWithin-distance :
    (m lo hi : ℕ) (xs : List ℕ)
    → lo ≤ m
    → m ≤ hi
    → IsWithin lo hi xs
    → IsWithin 0 (hi - lo) (map (distance m) xs)
IsWithin-distance m lo hi [] h k w = tt
IsWithin-distance m lo hi (x ∷ xs) h k w =
    (omega (arith, w.0), IsWithin-distance m lo hi xs h k w.1)

module _ (k : Sorter) (lo hi m : ℕ) (xs : List ℕ) (many : 2 ≤ length xs) where
  module _ (few : 50 * length xs < 2 ^ 32) (w : IsWithin lo hi xs) (fits : hi < 2 ^ 63) where
    -- Of at least two values between `lo` and `hi`, with `hi` below 2 ^ 63 and 50 times their
    -- number below 2 ^ 32, around a median between the same bounds, and where the allocation
    -- succeeds, `mad` returns the 50th percentile of the sorted distances to the median, and it is
    -- at most `hi - lo`.
    pub mad-Rank :
        lo ≤ m
        → m ≤ hi
        → Returns
            (λ r.
              Rank (k.sort compare_ull (map (distance m) xs)) (50 * length xs) r × (r ≤ hi - lo))
            (mad k true xs m (length xs))
    unfolding mad
    mad-Rank above below =
        let distances = map (distance m) xs in
        let sorted = k.sort compare_ull distances in
        let same : length sorted ≡ length xs =
          length-perm (k.sort-perm compare_ull distances) ∙ length-map (distance m) xs in
        let near : IsWithin 0 (hi - lo) sorted =
          IsWithin-perm 0 (hi - lo) (k.sort-perm compare_ull distances)
            (IsWithin-distance m lo hi xs above below w) in
        rw (deviations-distance xs m) (
          Returns-mono (Rank sorted (50 * length xs)) _ _
            (percentile-Rank 50 (length xs) sorted few (omega arith) same (omega arith)
              (IsWithin-weaken 0 (hi - lo) (2 ^ 63 - 1) sorted (omega arith) near)
              (λ n. omega arith))
            (λ r rank. (rank, (Rank-IsWithin 0 (hi - lo) _ r sorted near rank).1)))

-- Of a single value `mad` reads behind the array that it allocated.
pub mad-bad_read :
    (k : Sorter) (m : ℕ) (xs : List ℕ)
    → length xs ≡ 1
    → mad k true xs m (length xs) ≡ fault bad_read
unfolding mad
mad-bad_read k m xs one =
    let distances = map (distance m) xs in
    let same : length (k.sort compare_ull distances) ≡ length xs =
      length-perm (k.sort-perm compare_ull distances) ∙ length-map (distance m) xs in
    rw (deviations-distance xs m) (
      percentile-bad_read 50 (length xs) (k.sort compare_ull distances) (omega arith) (omega arith)
        same (omega arith) (λ c. absurd (omega (arith, c (omega arith)))))
