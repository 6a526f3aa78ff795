-- ===== src/Display/Safety.antt =====
-- The report of `display_statistics` over any values, and the whole page.
use network_lab.Common.{
  ℕ, ◌-◌, ◌*◌, ◌%◌, ◌^◌, ◌≤◌, ◌<◌, ◌≡◌, ◌⊎◌, inl, inr, refl, Bool, if◌then◌else◌, true, false, List,
  ok, Returns, Returns-ok, Returns-mono, Ends, arith, ◌==◌, length, get_elem?-some,
}
use native.Mathlib.Decide.{dec_lt}
use network_lab.Sorting.{Sorter, compare_ull}
use network_lab.Sorting.Order.{length-perm}
use network_lab.Stats.{percentile, mad, average}
use network_lab.Stats.Percentile.{printed_ranks_iff, read-some}
use network_lab.Stats.Reads.{percentile-Returns, mad-Returns, average-Returns}
use network_lab.Printk.{Printer, Page, Summary, Fits, print, blank, print-Fits}
use network_lab.Printk
use network_lab.Display.{Log, display_statistics, show_histogram}
use network_lab.Display.Statistics.{display_statistics-bad_read}
use network_lab.Display.Row.{rows_total, shown}
use network_lab.Display.Report.{Reported, show_histogram-Reported}

-- How many values the report can be made of: none, or enough for the 95th percentile.
abbrev pub IsReportable : ℕ → Type 0
IsReportable n = (n ≡ 0) ⊎ (20 ≤ n)

module _ (k : Printer) (log : Log) (sorter : Sorter) where
  pub blank-Fits : Fits k blank
  blank-Fits = omega (arith, k.page_size_min)

  module _ (sorted : List ℕ) (total batch low p95 : ℕ) where
    -- What is on a page, and the histogram where it is asked for, fit the page.
    pub histogram_if-Fits :
        (verbose : Bool) (page : Page)
        → 0 < total
        → length sorted ≡ total
        → total * batch < 2 ^ 64
        → Fits k page
        → rows_total page.pieces ≡ 0
        → Returns
            (Fits k)
            (if verbose then show_histogram k log sorted total batch low p95 page else ok page)
    histogram_if-Fits false page pos same small fits rows = fits
    histogram_if-Fits true page pos same small fits rows =
        Returns-mono (Reported k total batch) (Fits k)
          (show_histogram k log sorted total batch low p95 page)
          (show_histogram-Reported k log sorted total batch low p95 page pos same small fits rows)
          (λ page' r. r.fits)

  -- Of no value, or of at least twenty, the report ends within the page.
  pub display_statistics-Fits :
      (values : List ℕ) (batch : ℕ) (verbose : Bool)
      → IsReportable (length values)
      → 95 * length values < 2 ^ 32
      → length values * batch < 2 ^ 64
      → Returns (Fits k) (display_statistics k log sorter true values (length values) batch verbose)
  unfolding display_statistics
  display_statistics-Fits values batch verbose (inl zero_values) few small =
      let no_values : (length values == 0) ≡ true = ground arith in
      rw no_values (print-Fits k Printk.no_match blank blank-Fits)
  display_statistics-Fits values batch verbose (inr many) few small =
      let n = length values in
      let sorted = sorter.sort compare_ull values in
      let same : length sorted ≡ n = length-perm (sorter.sort-perm compare_ull values) in
      let whole : n % 2 ^ 32 ≡ n = omega arith in
      let some_values : (n == 0) ≡ false = ground arith in
      let (c95, c90, c50) = (printed_ranks_iff n (omega arith)).1 many in
      let (p95, e95, t95) =
        Returns-ok (λ r. Unit {0}) (percentile 95 sorted n)
          (percentile-Returns 95 n sorted few (omega arith) same (omega arith) c95) in
      let (p90, e90, t90) =
        Returns-ok (λ r. Unit {0}) (percentile 90 sorted n)
          (percentile-Returns 90 n sorted (omega arith) (omega arith) same (omega arith) c90) in
      let (p50, e50, t50) =
        Returns-ok (λ r. Unit {0}) (percentile 50 sorted n)
          (percentile-Returns 50 n sorted (omega arith) (omega arith) same (omega arith) c50) in
      let (avg, eavg, tavg) =
        Returns-ok (λ r. Unit {0}) (average sorted n) (average-Returns sorted n same) in
      let (low, elow) = get_elem?-some sorted 0 (omega (arith, same)) in
      let (high, ehigh) = get_elem?-some sorted (n - 1) (omega (arith, same)) in
      let (dev, edev, tdev) =
        Returns-ok (λ r. Unit {0}) (mad sorter true sorted p50 n)
          (mad-Returns sorter p50 n sorted same (omega arith) (omega arith)) in
      rw (some_values, whole, e95, e90, e50, eavg, read-some sorted 0 elow)
        (rw (read-some sorted _ ehigh, edev)
          (histogram_if-Fits sorted n batch low p95 verbose _ (omega arith) same small
            (print-Fits k _ blank blank-Fits) (unfold print shown rows_total in refl)))

  -- Of any number of values the report ends within the page or, of one to nineteen, at a read behind
  -- the values.
  pub display_statistics-Ends :
      (values : List ℕ) (batch : ℕ) (allocated verbose : Bool)
      → allocated ≡ true
      → 95 * length values < 2 ^ 32
      → length values * batch < 2 ^ 64
      → Ends
          ((0 < length values) × (length values < 20))
          (Fits k)
          (display_statistics k log sorter allocated values (length values) batch verbose)
  display_statistics-Ends values batch false verbose got few small = absurd (cc)
  display_statistics-Ends values batch true verbose got few small =
      let n = length values in
      elim (dec_lt 0 n) [
        | no empty ↦
            inl (display_statistics-Fits values batch verbose (inl (omega arith)) few small)
        | yes some_values ↦ elim (dec_lt n 20) [
          | yes fewer ↦ inr (
            (some_values, fewer),
            display_statistics-bad_read k log sorter values batch few true verbose some_values
                fewer,
          )
          | no many ↦
              inl (display_statistics-Fits values batch verbose (inr (omega arith)) few small)
        ]
      ]
