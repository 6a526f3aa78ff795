-- ===== src/Sorting/Insertion.antt =====
-- A sorter, which shows that the interface can be met: insertion sort over any comparator.
use mathlib.Core.List.{Perm}
use mathlib.Core.List.Perm
use network_lab.Common.{ℕ, ◌≡◌, false, List, [], ◌∷◌, All, Bool-cases, inl, inr, if◌then◌else◌}
use network_lab.Sorting.{Comparator, IsComparator, is_positive, IsOrdered, Sorter}

unfoldable pub insert : Comparator → ℕ → List ℕ → List ℕ
insert cmp x [] = x ∷ []
insert cmp x (y ∷ ys) = if is_positive (cmp x y) then y ∷ insert cmp x ys else x ∷ y ∷ ys

unfoldable pub insertion_sort : Comparator → List ℕ → List ℕ
unfolding insert
insertion_sort cmp [] = []
insertion_sort cmp (x ∷ xs) = insert cmp x (insertion_sort cmp xs)

insert-perm : (cmp : Comparator) (x : ℕ) (l : List ℕ) → Perm (insert cmp x l) (x ∷ l)
unfolding insert
insert-perm cmp x [] = Perm.rfl
insert-perm cmp x (y ∷ ys) = elim (Bool-cases (is_positive (cmp x y))) [
  | inl e ↦ rw (e, insert) (Perm.trans (Perm.cons y (insert-perm cmp x ys)) (Perm.swap x y ys))
  | inr e ↦ rw (e, insert) Perm.rfl
]

pub insertion_sort-perm : (cmp : Comparator) (l : List ℕ) → Perm (insertion_sort cmp l) l
unfolding insertion_sort
insertion_sort-perm cmp [] = Perm.rfl
insertion_sort-perm cmp (x ∷ xs) =
    Perm.trans (insert-perm cmp x (insertion_sort cmp xs))
      (Perm.cons x (insertion_sort-perm cmp xs))

module _ {cmp : Comparator} (c : IsComparator cmp) where
  All-insert :
      (a x : ℕ) (l : List ℕ)
      → is_positive (cmp a x) ≡ false
      → All (λ y. is_positive (cmp a y) ≡ false) l
      → All (λ y. is_positive (cmp a y) ≡ false) (insert cmp x l)
  unfolding insert
  All-insert a x [] h k = (h, tt)
  All-insert a x (y ∷ ys) h k = elim (Bool-cases (is_positive (cmp x y))) [
    | inl e ↦ rw (e, insert) (k.0, All-insert a x ys h k.1)
    | inr e ↦ rw (e, insert) (h, k)
  ]

  All-trans :
      (x y : ℕ) (l : List ℕ)
      → is_positive (cmp x y) ≡ false
      → All (λ z. is_positive (cmp y z) ≡ false) l
      → All (λ z. is_positive (cmp x z) ≡ false) l
  All-trans x y [] h k = tt
  All-trans x y (z ∷ zs) h k = (c.cmp_trans x y z h k.0, All-trans x y zs h k.1)

  insert-IsOrdered : (x : ℕ) (l : List ℕ) → IsOrdered cmp l → IsOrdered cmp (insert cmp x l)
  unfolding insert
  insert-IsOrdered x [] h = (tt, tt)
  insert-IsOrdered x (y ∷ ys) h = elim (Bool-cases (is_positive (cmp x y))) [
    | inl e ↦ rw (e, insert) (All-insert y x ys (c.cmp_total x y e) h.0, insert-IsOrdered x ys h.1)
    | inr e ↦ rw (e, insert) ((e, All-trans x y ys e h.0), h)
  ]

  pub insertion_sort-IsOrdered : (l : List ℕ) → IsOrdered cmp (insertion_sort cmp l)
  unfolding insertion_sort
  insertion_sort-IsOrdered [] = tt
  insertion_sort-IsOrdered (x ∷ xs) = insert-IsOrdered x _ (insertion_sort-IsOrdered xs)

abbrev pub insertion_sorter : Sorter
insertion_sorter = record {
  sort = insertion_sort;
  sort-perm = insertion_sort-perm;
  sort-IsOrdered = λ cmp l c. insertion_sort-IsOrdered c l;
}
