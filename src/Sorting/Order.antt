-- ===== src/Sorting/Order.antt =====
-- Ascending lists of numbers, what a permutation keeps, and the comparators of kbench_mod.c.
use mathlib.Core.Logic.{∥∥₁_elim}
use mathlib.Core.List.{Perm, Permᴰ}
use native.Mathlib.Nat.{ℕ_set}
use native.Mathlib.Bridge.{le_prop}
use mathlib.Core.HLevel.{×_prop}
use mathlib.Core.Path.{fun_ext}
use network_lab.Common.{
  ℕ, zero, suc, ◌≤◌, ◌≡◌, false, List, [], ◌∷◌, All, arith, length, sum, get_elem?, some,
  All-get_elem?, All-mono,
}
use network_lab.Sorting.{compare_ull, compare, IsComparator, is_positive, IsOrdered, Sorter}

abbrev pub IsSorted : List ℕ → Type 0
IsSorted [] = Unit
IsSorted (x ∷ xs) = All (λ y. x ≤ y) xs × IsSorted xs

-- What bounds the first of some ascending values from below bounds them all.
pub bounds_all : (d x : ℕ) (xs : List ℕ) → d ≤ x → IsSorted (x ∷ xs) → All (λ y. d ≤ y) (x ∷ xs)
bounds_all d x xs h s = (h, All-mono (λ y. x ≤ y) (λ y. d ≤ y) xs (λ y g. omega arith) s.0)

pub get_elem?-mono :
    (xs : List ℕ) (i j : ℕ) {x y : ℕ}
    → IsSorted xs
    → i ≤ j
    → get_elem? xs i ≡ some x
    → get_elem? xs j ≡ some y
    → x ≤ y
get_elem?-mono [] i j s h p q = absurd (ground arith)
get_elem?-mono (a ∷ xs) zero zero s h p q = ground arith
get_elem?-mono (a ∷ xs) zero (suc j) s h p q = ground (arith, All-get_elem? (λ y. a ≤ y) xs j s.0 q)
get_elem?-mono (a ∷ xs) (suc i) zero s h p q = absurd (omega arith)
get_elem?-mono (a ∷ xs) (suc i) (suc j) s h p q = get_elem?-mono xs i j s.1 (omega arith) p q

length-Permᴰ : {xs ys : List ℕ} → Permᴰ xs ys → length xs ≡ length ys
length-Permᴰ Permᴰ.nil = omega arith
length-Permᴰ (Permᴰ.cons x p) = omega (arith, length-Permᴰ p)
length-Permᴰ (Permᴰ.swap x y) = omega arith
length-Permᴰ (Permᴰ.trans p q) = omega (arith, length-Permᴰ p, length-Permᴰ q)

pub length-perm : {xs ys : List ℕ} → Perm xs ys → length xs ≡ length ys
length-perm p = ∥∥₁_elim p (ℕ_set _ _) length-Permᴰ

sum-Permᴰ : {xs ys : List ℕ} → Permᴰ xs ys → sum xs ≡ sum ys
sum-Permᴰ Permᴰ.nil = omega arith
sum-Permᴰ (Permᴰ.cons x p) = omega (arith, sum-Permᴰ p)
sum-Permᴰ (Permᴰ.swap x y) = omega arith
sum-Permᴰ (Permᴰ.trans p q) = omega (arith, sum-Permᴰ p, sum-Permᴰ q)

pub sum-perm : {xs ys : List ℕ} → Perm xs ys → sum xs ≡ sum ys
sum-perm p = ∥∥₁_elim p (ℕ_set _ _) sum-Permᴰ

abbrev pub IsWithin : ℕ → ℕ → List ℕ → Type 0
IsWithin lo hi = All (λ x. (lo ≤ x) × (x ≤ hi))

IsWithin-prop : (lo hi : ℕ) (xs : List ℕ) → IsProp (IsWithin lo hi xs)
IsWithin-prop lo hi [] = hlevel
IsWithin-prop lo hi (x ∷ xs) = ×_prop (×_prop le_prop le_prop) (IsWithin-prop lo hi xs)

IsWithin-Permᴰ : (lo hi : ℕ) {xs ys : List ℕ} → Permᴰ xs ys → IsWithin lo hi ys → IsWithin lo hi xs
IsWithin-Permᴰ lo hi Permᴰ.nil h = h
IsWithin-Permᴰ lo hi (Permᴰ.cons e p) h = (rw e h.0, IsWithin-Permᴰ lo hi p h.1)
IsWithin-Permᴰ lo hi (Permᴰ.swap d e) h = (rw d h.1.0, (rw e h.0, h.1.1))
IsWithin-Permᴰ lo hi (Permᴰ.trans p q) h = IsWithin-Permᴰ lo hi p (IsWithin-Permᴰ lo hi q h)

pub IsWithin-perm :
    (lo hi : ℕ) {xs ys : List ℕ} → Perm xs ys → IsWithin lo hi ys → IsWithin lo hi xs
IsWithin-perm lo hi {xs} p h = ∥∥₁_elim p (IsWithin-prop lo hi xs) (λ d. IsWithin-Permᴰ lo hi d h)

pub IsWithin-weaken :
    (lo hi hi' : ℕ) (xs : List ℕ) → hi ≤ hi' → IsWithin lo hi xs → IsWithin lo hi' xs
IsWithin-weaken lo hi hi' [] h w = tt
IsWithin-weaken lo hi hi' (x ∷ xs) h w =
    (omega (arith, w.0.0, w.0.1), IsWithin-weaken lo hi hi' xs h w.1)

-- Two ranges meet.
pub IsWithin-both :
    (lo hi lo' hi' : ℕ) (xs : List ℕ) → IsWithin lo hi xs → IsWithin lo' hi' xs → IsWithin lo hi' xs
IsWithin-both lo hi lo' hi' [] v w = tt
IsWithin-both lo hi lo' hi' (x ∷ xs) v w = ((v.0.0, w.0.1), IsWithin-both lo hi lo' hi' xs v.1 w.1)

-- Both comparators call a pair greater exactly when it is.
greater_ull : (a b : ℕ) → is_positive (compare_ull a b) ≡ false → a ≤ b
unfolding compare_ull
greater_ull a b h = ground arith

-- The comparators of the IPv4 and of the IPv6 module agree on every pair.
pub compare-eq-compare_ull : (a b : ℕ) → compare a b ≡ compare_ull a b
unfolding compare compare_ull
compare-eq-compare_ull a b = ground arith

pub compare-is_compare_ull : compare ≡ compare_ull
compare-is_compare_ull = fun_ext (λ a. fun_ext (λ b. compare-eq-compare_ull a b))

pub compare_ull-IsComparator : IsComparator compare_ull
unfolding compare_ull
compare_ull-IsComparator = record {
  cmp_refl = λ a. ground arith;
  cmp_total = λ a b h. ground arith;
  cmp_trans = λ a b c h k. ground arith;
}

All-greater_ull :
    (x : ℕ) (xs : List ℕ)
    → All (λ y. is_positive (compare_ull x y) ≡ false) xs
    → All (λ y. x ≤ y) xs
All-greater_ull x [] h = tt
All-greater_ull x (y ∷ ys) h = (greater_ull x y h.0, All-greater_ull x ys h.1)

IsSorted-of_IsOrdered : (xs : List ℕ) → IsOrdered compare_ull xs → IsSorted xs
IsSorted-of_IsOrdered [] h = tt
IsSorted-of_IsOrdered (x ∷ xs) h = (All-greater_ull x xs h.0, IsSorted-of_IsOrdered xs h.1)

-- Under `compare_ull` a sort that honours every sound comparator puts every array of cycle counts
-- in ascending order.
pub sort-compare_ull-IsSorted : (k : Sorter) (l : List ℕ) → IsSorted (k.sort compare_ull l)
sort-compare_ull-IsSorted k l =
    IsSorted-of_IsOrdered _ (k.sort-IsOrdered compare_ull l compare_ull-IsComparator)
