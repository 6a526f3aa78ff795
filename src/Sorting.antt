-- ===== src/Sorting.antt =====
-- The comparator that kbench_mod.c hands to the kernel's `sort` (lib/sort.c, not part of the
-- repository), and `sort` itself as an interface: a permutation, ordered by any sound comparator.
pub mod Order
pub mod Unique
pub mod Insertion
use mathlib.Core.List.{Perm}
use network_lab.Common.{
  ℕ, ◌≡◌, Bool, true, false, List, [], ◌∷◌, All, ℤ, pos, negsuc, ltb, if◌then◌else◌,
}

abbrev pub is_positive : ℤ → Bool
is_positive (pos n) = ltb 0 n
is_positive (negsuc n) = false

abbrev pub Comparator : Type 0
Comparator = ℕ → ℕ → ℤ

-- `compare_ull`: the conditional with the test `lhs > rhs` as its last value
unfoldable pub compare_ull : Comparator
compare_ull lhs rhs = if ltb lhs rhs then negsuc 0 else pos (if ltb rhs lhs then 1 else 0)

-- `compare` of the IPv6 module: three returns
unfoldable pub compare : Comparator
compare lhs rhs = if ltb lhs rhs then negsuc 0 else if ltb rhs lhs then pos 1 else pos 0

-- What `sort` asks of a comparator: "greater" is a strict order whose failure is transitive.
pub record IsComparator (cmp : Comparator) : Type 0 where
  pub cmp_refl : (a : ℕ) → is_positive (cmp a a) ≡ false
  pub cmp_total : (a b : ℕ) → is_positive (cmp a b) ≡ true → is_positive (cmp b a) ≡ false
  pub cmp_trans :
      (a b c : ℕ)
      → is_positive (cmp a b) ≡ false
      → is_positive (cmp b c) ≡ false
      → is_positive (cmp a c) ≡ false

-- No element is greater than one behind it.
abbrev pub IsOrdered : Comparator → List ℕ → Type 0
IsOrdered cmp [] = Unit
IsOrdered cmp (x ∷ xs) = All (λ y. is_positive (cmp x y) ≡ false) xs × IsOrdered cmp xs

pub record Sorter : Type 0 where
  pub sort : Comparator → List ℕ → List ℕ
  pub sort-perm : (cmp : Comparator) (l : List ℕ) → Perm (sort cmp l) l
  pub sort-IsOrdered :
      (cmp : Comparator) (l : List ℕ) → IsComparator cmp → IsOrdered cmp (sort cmp l)
