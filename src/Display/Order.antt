-- ===== src/Display/Order.antt =====
-- The report does not depend on the order of the values, nor on how the kernel sorts them.
use mathlib.Core.List.{Perm}
use mathlib.Core.List.Perm
use network_lab.Common.{ℕ, ◌≡◌, Bool, List, refl}
use network_lab.Sorting.{Sorter, compare_ull}
use network_lab.Sorting.Unique.{sort-of_perm}
use network_lab.Stats.{mad}
use network_lab.Printk.{Printer}
use network_lab.Display.{Log, display_statistics}

mad_any :
    (j k : Sorter) (allocated : Bool) (sorted : List ℕ) (median count : ℕ)
    → mad j allocated sorted median count ≡ mad k allocated sorted median count
unfolding mad
mad_any j k allocated sorted median count =
    let one : (l : List ℕ) → j.sort compare_ull l ≡ k.sort compare_ull l =
      λ l. sort-of_perm j k Perm.rfl in
    simp one refl

-- Over two arrays that hold the same values in any order, and with any two sorts that order by
-- every sound comparator, `display_statistics` ends alike: with the same page, or with the same
-- fault.
pub display_statistics-of_perm :
    (printer : Printer) (log : Log) (j k : Sorter) (allocated : Bool) {xs ys : List ℕ}
    (total batch : ℕ) (verbose : Bool)
    → Perm xs ys
    → display_statistics printer log j allocated xs total batch verbose
      ≡ display_statistics printer log k allocated ys total batch verbose
unfolding display_statistics
display_statistics-of_perm printer log j k allocated total batch verbose p =
    simp (sort-of_perm j k p, mad_any j k) refl
