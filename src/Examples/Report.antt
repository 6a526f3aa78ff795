-- ===== src/Examples/Report.antt =====
-- The report at twenty values.
use network_lab.Common.{◌≡◌, refl, true, false, [], ◌∷◌, fault, bad_read, Returns, arith}
use network_lab.Printk.{blank}
use mathlib.Core.List.Perm
use network_lab.Sorting.{Sorter}
use network_lab.Sorting.Insertion.{
  insertion_sorter, insertion_sort, insertion_sort-perm, insertion_sort-IsOrdered,
}
use network_lab.Display.{hist_loop, display_statistics}
use network_lab.Display.Row.{rows_total}
use network_lab.Display.Loop.{Finished, hist_loop-Finished}
use network_lab.Display.Statistics.{display_statistics-bad_read}
use network_lab.Display.Outcome.{IsReport, display_statistics-IsReport}
use network_lab.Display.Order.{display_statistics-of_perm}
use network_lab.Examples.Values.{ten, twenty, sample_printer, sample_log}

hist_loop-Finished_example : Returns (Finished sample_printer 3 2) (
    hist_loop sample_printer
      (2 ∷ 4 ∷ 8 ∷ [])
      3
      2
      8
      2
      5000
      (record { i = 0; count = 0; count2 = 0; start = 2; page = blank }))
unfolding rows_total
hist_loop-Finished_example =
    hist_loop-Finished sample_printer (2 ∷ 4 ∷ 8 ∷ []) 3 2 8 2 refl (omega arith) 5000
      (record { i = 0; count = 0; count2 = 0; start = 2; page = blank }) (omega arith) (omega arith)
      (record {
        fits = omega arith;
        seen_le = omega arith;
        all = refl;
        part = omega arith;
        rows = refl;
      })

display_statistics-bad_read_example :
    display_statistics sample_printer sample_log insertion_sorter true ten 10 1 false
    ≡ fault bad_read
display_statistics-bad_read_example =
    display_statistics-bad_read sample_printer sample_log insertion_sorter ten 1 (omega arith) true
      false (omega arith) (omega arith)

display_statistics-IsReport_example :
    Returns
      (IsReport sample_printer sample_log twenty 4 true)
      (display_statistics sample_printer sample_log insertion_sorter true twenty 20 4 true)
display_statistics-IsReport_example =
    display_statistics-IsReport sample_printer sample_log insertion_sorter twenty 4 (omega arith)
      (ground arith) (omega arith) true (omega arith)

-- A sort that sorts twice.
abbrev twice_sorter : Sorter
twice_sorter = record {
  sort = λ cmp l. insertion_sort cmp (insertion_sort cmp l);
  sort-perm = λ cmp l.
      Perm.trans (insertion_sort-perm cmp (insertion_sort cmp l)) (insertion_sort-perm cmp l);
  sort-IsOrdered = λ cmp l c. insertion_sort-IsOrdered c (insertion_sort cmp l);
}

display_statistics-of_perm_example :
    display_statistics sample_printer sample_log insertion_sorter true (3 ∷ 1 ∷ 2 ∷ []) 3 1 false
    ≡ display_statistics sample_printer sample_log twice_sorter true (1 ∷ 3 ∷ 2 ∷ []) 3 1 false
display_statistics-of_perm_example =
    display_statistics-of_perm sample_printer sample_log insertion_sorter twice_sorter true 3 1
      false (Perm.swap 1 3 (2 ∷ []))
