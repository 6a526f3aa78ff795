-- ===== src/Display/Report.antt =====
-- What `display_statistics` leaves on the page, without and with the histogram.
use network_lab.Common.{
  ℕ, ◌-◌, ◌*◌, ◌^◌, ◌≤◌, ◌<◌, ◌≡◌, refl, true, List, Exec, ok, fault, ◌>>=◌, Returns, arith, length,
}
use network_lab.Sorting.{Sorter, compare_ull}
use network_lab.Sorting.Order.{IsWithin, length-perm}
use network_lab.Printk.{Printer, Page, Summary, Fits, print, blank, print-Fits}
use network_lab.Printk
use network_lab.Display.{Log, Hist, histogram, show_histogram, display_statistics}
use network_lab.Display.Row.{rows_total, shown, print-Grows}
use network_lab.Display.Loop.{Finished, hist_loop-Finished}
use network_lab.Display.Statistics.{display_statistics-line}

-- A report with a histogram: it fits the page, and its rows show the first `seen` values.
pub record Reported (k : Printer) (total batch : ℕ) (page : Page) : Type 0 where
  pub seen : ℕ
  pub seen_le : seen ≤ total
  pub rows : rows_total page.pieces ≡ seen * batch
  pub fits : Fits k page

module _ (k : Printer) (log : Log) (results : List ℕ) (total batch low p95 : ℕ) where
  histogram-Finished :
      (page : Page)
      → 0 < total
      → length results ≡ total
      → total * batch < 2 ^ 64
      → Fits k page
      → rows_total page.pieces ≡ 0
      → Returns (Finished k total batch) (histogram k log results total batch low p95 page)
  unfolding histogram shown
  histogram-Finished page pos same small h e =
      let a = print-Grows k Printk.value_head page h in
      let b = print-Grows k Printk.axis_head (print k Printk.value_head page) a.fits in
      let c =
        print-Grows k Printk.count_head (print k Printk.axis_head (print k Printk.value_head page))
          b.fits in
      hist_loop-Finished k results total batch p95 _ same small _ _ pos (omega (arith, c.fits))
        (record {
          fits = c.fits;
          seen_le = omega arith;
          all = refl;
          part = omega arith;
          rows = omega (arith, a.rows, b.rows, c.rows);
        })

  pub show_histogram-Reported :
      (page : Page)
      → 0 < total
      → length results ≡ total
      → total * batch < 2 ^ 64
      → Fits k page
      → rows_total page.pieces ≡ 0
      → Returns (Reported k total batch) (show_histogram k log results total batch low p95 page)
  unfolding show_histogram
  show_histogram-Reported page pos same small h e =
      finish (histogram k log results total batch low p95 page)
        (histogram-Finished page pos same small h e)
    where
      finish :
          (m : Exec Hist)
          → Returns (Finished k total batch) m
          → Returns (Reported k total batch) (m >>= λ s. ok s.page)
      finish (ok s) f = record { seen = s.i; seen_le = f.seen_le; rows = f.rows; fits = f.fits }
      finish (fault f) p = absurd p

module _ (k : Printer) (log : Log) (sorter : Sorter) (values : List ℕ) (batch : ℕ) where
  module _ (many : 20 ≤ length values) (few : 95 * length values < 2 ^ 32)
      (w : IsWithin 0 (2 ^ 63 - 1) values) (small : length values * batch < 2 ^ 64) where
    -- Of at least twenty values below 2 ^ 63, so few that 95 times their number is below 2 ^ 32 and
    -- that their number times the batch is below 2 ^ 64, where the allocation in `mad` succeeds,
    -- the report with a histogram ends without a fault and within the page, and the counts of its
    -- rows add up to the number of some first values of the sorted array, times the batch.
    display_statistics-Reported :
        Returns
          (Reported k (length values) batch)
          (display_statistics k log sorter true values (length values) batch true)
    display_statistics-Reported =
        let (s, right, e) =
          display_statistics-line k log sorter values batch few many w true small in
        let same = length-perm (sorter.sort-perm compare_ull values) in
        let first = print-Grows k (Printk.summary s) blank (omega (arith, k.page_size_min)) in
        rw e (
          show_histogram-Reported k log (sorter.sort compare_ull values) (length values) batch s.low
            s.p95 _ (omega arith) same small first.fits (unfold shown rows_total in first.rows))
