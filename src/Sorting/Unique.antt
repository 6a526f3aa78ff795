-- ===== src/Sorting/Unique.antt =====
-- Only one ascending list holds given values: what a sort returns does not depend on how it sorts,
-- nor on the order in which it is given the values.
use mathlib.Core.Logic.{∥∥₁_elim}
use mathlib.Core.List.{Perm, Permᴰ}
use mathlib.Core.List.Perm
use native.Mathlib.Nat.{ℕ_set}
use network_lab.Common.{
  ℕ, ◌+◌, ◌≤◌, ◌<◌, ◌≡◌, refl, sym, List, [], ◌∷◌, All, arith, ◌==◌, if◌then◌else◌,
}
use network_lab.Sorting.{Sorter, compare_ull}
use network_lab.Sorting.Order.{IsSorted, sort-compare_ull-IsSorted}

unfoldable same : ℕ → ℕ → ℕ
same a x = if x == a then 1 else 0

unfoldable count : ℕ → List ℕ → ℕ
unfolding same
count a [] = 0
count a (x ∷ xs) = same a x + count a xs

count-Permᴰ : (a : ℕ) {xs ys : List ℕ} → Permᴰ xs ys → count a xs ≡ count a ys
unfolding count
count-Permᴰ a Permᴰ.nil = refl
count-Permᴰ a (Permᴰ.cons e p) = rw e (omega (arith, count-Permᴰ a p))
count-Permᴰ a (Permᴰ.swap d e) = rw (d, e) (omega arith)
count-Permᴰ a (Permᴰ.trans p q) = omega (arith, count-Permᴰ a p, count-Permᴰ a q)

count-perm : (a : ℕ) {xs ys : List ℕ} → Perm xs ys → count a xs ≡ count a ys
count-perm a p = ∥∥₁_elim p (ℕ_set _ _) (count-Permᴰ a)

-- What bounds a list from below bounds every value that stands in it.
bound_le : (d a : ℕ) (xs : List ℕ) → All (λ x. d ≤ x) xs → 0 < count a xs → d ≤ a
unfolding count same
bound_le d a [] h c = absurd (omega arith)
bound_le d a (x ∷ xs) h c = ground (arith, h.0, bound_le d a xs h.1)

count_head : (x : ℕ) (xs : List ℕ) → 0 < count x (x ∷ xs)
unfolding count same
count_head x xs = ground arith

head_le :
    (x y : ℕ) (xs ys : List ℕ) → IsSorted (x ∷ xs) → count y (x ∷ xs) ≡ count y (y ∷ ys) → x ≤ y
head_le x y xs ys s e = bound_le x y (x ∷ xs) (omega arith, s.0) (omega (arith, count_head y ys))

sorted_unique :
    (xs ys : List ℕ) → IsSorted xs → IsSorted ys → ((a : ℕ) → count a xs ≡ count a ys) → xs ≡ ys
unfolding count
sorted_unique [] [] s t e = refl
sorted_unique [] (y ∷ ys) s t e = absurd (omega (arith, e y, count_head y ys))
sorted_unique (x ∷ xs) [] s t e = absurd (omega (arith, e x, count_head x xs))
sorted_unique (x ∷ xs) (y ∷ ys) s t e =
    let below = head_le x y xs ys s (e y) in
    let above = head_le y x ys xs t (sym (e x)) in
    let heads : x ≡ y = omega arith in
    let tails : (a : ℕ) → count a xs ≡ count a ys = λ a. omega (arith, rw heads at (e a)) in
    rw (heads, sorted_unique xs ys s.1 t.1 tails) refl

-- Two arrays that hold the same values in any order are sorted to one array, by any two sorts.
pub sort-of_perm :
    (j k : Sorter) {xs ys : List ℕ} → Perm xs ys → j.sort compare_ull xs ≡ k.sort compare_ull ys
sort-of_perm j k {xs} {ys} p =
    let one =
      Perm.trans (j.sort-perm compare_ull xs)
        (Perm.trans p (Perm.symm (k.sort-perm compare_ull ys))) in
    sorted_unique _ _ (sort-compare_ull-IsSorted j xs) (sort-compare_ull-IsSorted k ys)
      (λ a. count-perm a one)
