-- ===== src/Bench6/Page.antt =====
-- The report of the IPv6 module over any values.
use native.Mathlib.Decide.{dec_lt}
use network_lab.Common.{
  ℕ, sum, [], ◌∷◌, ◌-◌, ◌*◌, ◌/◌, ◌%◌, ◌^◌, ◌≤◌, ◌<◌, ◌≡◌, ◌∙◌, refl, inl, inr, Bool, true, false,
  ◌==◌, List, Exec, ok, fault, bad_read, Returns, Returns-mono, if◌then◌else◌, Returns-ok, Ends,
  arith, length, get_elem?-some,
}
use network_lab.Sorting.{Sorter, compare, compare_ull}
use network_lab.Sorting.Order.{length-perm, IsWithin, compare-is_compare_ull}
use network_lab.Stats.{percentile, mad}
use network_lab.Stats.Percentile.{printed_ranks_iff, read-some, percentile-bad_read}
use network_lab.Stats.Reads.{percentile-Returns, mad-Returns}
use network_lab.Printk.{Printer, Piece, Page, Summary, Fits, print, blank, print-Fits}
use network_lab.Printk
use network_lab.Display.{Log, show_histogram}
use network_lab.Display.Statistics.{IsSummary, numbers, numbers-IsSummary}
use network_lab.Display.Row.{rows_total, shown, print-Grows}
use network_lab.Display.Rendering.{note, IsLine, view-two}
use network_lab.Display.Outcome.{IsShown, show_histogram-IsShown}
use network_lab.Display.Safety.{blank-Fits, histogram_if-Fits}
use network_lab.Fib6.{Depths}
use network_lab.Bench6.Report.{mad6, report6}

pub mad6-eq-mad :
    (k : Sorter) (allocated : Bool) (sorted : List ℕ) (median count : ℕ)
    → mad6 k allocated sorted median count ≡ mad k allocated sorted median count
unfolding mad6 mad
mad6-eq-mad k allocated sorted median count = rw compare-is_compare_ull refl

module _ (head : Summary → Piece) (plain : (s : Summary) → shown (head s) ≡ 0) (k : Printer)
    (log : Log) (sorter : Sorter) (values : List ℕ) (d : Depths) where
  module _ (table_id sum batch : ℕ) (verbose : Bool) (few : 95 * length values < 2 ^ 32) where
    abbrev pub run_report : Exec Page
    run_report =
        report6 head k log sorter true (ok d) table_id values (length values) sum batch verbose

    report6-Fits : 20 ≤ length values → Returns (Fits k) run_report
    unfolding report6
    report6-Fits many =
        let n = length values in
        let sorted = sorter.sort compare values in
        let same : length sorted ≡ n = length-perm (sorter.sort-perm compare values) in
        let whole : n % 2 ^ 32 ≡ n = omega arith in
        let some_values : (n == 0) ≡ false = ground arith in
        let (c95, c90, c50) = (printed_ranks_iff n (omega arith)).1 many in
        let (p95, e95, t95) =
          Returns-ok (λ r. Unit {0}) (percentile 95 sorted n)
            (percentile-Returns 95 n sorted few (omega arith) same (omega arith) c95) in
        let (p90, e90, t90) =
          Returns-ok (λ r. Unit {0}) (percentile 90 sorted n)
            (percentile-Returns 90 n sorted (omega arith) (omega arith) same (omega arith) c90) in
        let (p50, e50, t50) =
          Returns-ok (λ r. Unit {0}) (percentile 50 sorted n)
            (percentile-Returns 50 n sorted (omega arith) (omega arith) same (omega arith) c50) in
        let (low, elow) = get_elem?-some sorted 0 (omega (arith, same)) in
        let (high, ehigh) = get_elem?-some sorted (n - 1) (omega (arith, same)) in
        let (dev, edev, tdev) =
          Returns-ok (λ r. Unit {0}) (mad sorter true sorted p50 n)
            (mad-Returns sorter p50 n sorted same (omega arith) (omega arith)) in
        rw (some_values, whole, e95, e90, e50, read-some sorted 0 elow)
          (rw (read-some sorted _ ehigh, mad6-eq-mad sorter true sorted p50 n, edev)
            (histogram_if-Fits k log sorter sorted n 1 low p95 verbose _ (omega arith) same
              (omega arith) (print-Fits k _ _ (print-Fits k _ blank (blank-Fits k log sorter)))
              (unfold print shown rows_total in rw (plain _) refl)))

    report6-bad_read : 0 < length values → length values < 20 → run_report ≡ fault bad_read
    unfolding report6
    report6-bad_read h small =
        let n : length values % 2 ^ 32 ≡ length values = omega arith in
        let some_values : (length values == 0) ≡ false = ground arith in
        rw (
          some_values,
          n,
          percentile-bad_read 95 (length values) (sorter.sort compare values) few (omega arith)
              (length-perm (sorter.sort-perm compare values)) h
              (λ c. absurd (omega (arith, c (omega arith)))),
        )

    pub report6-Ends : Ends ((0 < length values) × (length values < 20)) (Fits k) run_report
    unfolding report6
    report6-Ends =
        let n = length values in
        elim (dec_lt 0 n) [
          | no empty ↦
              let no_values : (n == 0) ≡ true = ground arith in
              rw no_values (inl (print-Fits k Printk.no_match blank (blank-Fits k log sorter)))
          | yes some_values ↦ elim (dec_lt n 20) [
            | yes fewer ↦ inr ((some_values, fewer), report6-bad_read some_values fewer)
            | no many ↦ inl (report6-Fits (omega arith))
          ]
        ]

-- What a report says: the line of statistics, the depths of the table and, on demand, a histogram.
pub record IsReport6 (head : Summary → Piece) (k : Printer) (log : Log) (values : List ℕ)
    (d : Depths) (table_id batch : ℕ) (verbose : Bool) (page : Page) : Type 0 where
  pub line : Summary
  pub line_lem : IsSummary values 1 line
  pub batch_lem : line.batch ≡ batch
  pub fits : Fits k page
  pub shown_lem :
      IsShown k log values 1 line
        (head line ∷ Printk.depth table_id (d.avgdepth / 10) (d.avgdepth % 10) d.maxdepth ∷ [])
        verbose
        page

module _ (head : Summary → Piece) (plain : (s : Summary) → shown (head s) ≡ 0)
    (is_line : (s : Summary) → IsLine (head s)) (k : Printer) (log : Log) (sorter : Sorter)
    (values : List ℕ) (d : Depths) where
  module _ (table_id batch : ℕ) (few : 95 * length values < 2 ^ 32)
      (many : 20 ≤ length values) where
    module _ (w : IsWithin 0 (2 ^ 63 - 1) values) (fits : sum values < 2 ^ 64) where
      abbrev depth_line : Piece
      depth_line = Printk.depth table_id (d.avgdepth / 10) (d.avgdepth % 10) d.maxdepth

      abbrev pub full_report : Bool → Exec Page
      full_report verbose =
          report6 head k log sorter true (ok d) table_id values (length values)
            (sum values % 2 ^ 64) batch verbose

      report6-line :
          (verbose : Bool)
          → (s : Summary) × IsSummary values 1 s
            × (s.batch ≡ batch)
            × (full_report verbose ≡ (
                if verbose
                then show_histogram k log
                    (sorter.sort compare_ull values)
                    (length values)
                    1
                    s.low
                    s.p95
                    (print k depth_line (print k (head s) blank))
                else ok (print k depth_line (print k (head s) blank))))
      unfolding report6 mad6
      report6-line verbose =
          let n = length values in
          let small : n * 1 < 2 ^ 64 = omega arith in
          let x = numbers k log sorter values 1 few many w in
          let right = numbers-IsSummary k log sorter values 1 few many w small x in
          let whole : n % 2 ^ 32 ≡ n = omega arith in
          let some_values : (n == 0) ≡ false = ground arith in
          let no_wrap : sum values % 2 ^ 64 ≡ sum values = omega arith in
          let dev =
            rw compare-is_compare_ull at
              (mad6-eq-mad sorter true (sorter.sort compare_ull values) x.p50 n ∙ x.dev_eq) in
          let s : Summary = record {
            low = x.low;
            high = x.high;
            count = n;
            batch = batch;
            average = sum values % 2 ^ 64 / n;
            p95 = x.p95;
            p90 = x.p90;
            p50 = x.p50;
            mad = x.dev;
          } in
          let right' : IsSummary values 1 s = record {
            low_member = right.low_member;
            high_member = right.high_member;
            range = right.range;
            low_le = right.low_le;
            p50_le = right.p50_le;
            p90_le = right.p90_le;
            p95_le = right.p95_le;
            average = rw no_wrap refl;
            mad_le = right.mad_le;
            count = omega arith;
          } in
          (
            s,
            right',
            refl,
            rw (compare-is_compare_ull, some_values, whole, x.p95_eq, x.p90_eq, x.p50_eq)
                (rw (read-some _ 0 x.low_eq, read-some _ (n - 1) x.high_eq, dev) refl),
          )

      depth_line-IsLine : IsLine depth_line
      unfolding note
      depth_line-IsLine lines = refl

      -- The report is the summary of the values, the line of the depths and, on demand, the
      -- histogram of the values.
      pub full_report-IsReport6 :
          (verbose : Bool)
          → Returns (IsReport6 head k log values d table_id batch verbose) (full_report verbose)
      unfolding print
      full_report-IsReport6 verbose =
          let (s, right, e, run) = report6-line verbose in
          let first = print-Grows k (head s) blank (blank-Fits k log sorter) in
          let page = print k (head s) blank in
          let second = print-Grows k depth_line page first.fits in
          let no_rows : rows_total (print k depth_line page).pieces ≡ 0 =
            unfold shown rows_total in rw (plain _) refl in
          rw run (
            Returns-mono _ (IsReport6 head k log values d table_id batch verbose) _
              (show_histogram-IsShown k log sorter values 1 few w (omega arith) s
                (head s ∷ depth_line ∷ []) verbose (print k depth_line page) (omega arith) right
                second.fits no_rows refl
                (view-two (head s) depth_line (is_line s) depth_line-IsLine))
              (λ page' h. record {
                line = s;
                line_lem = right;
                batch_lem = e;
                fits = h.0;
                shown_lem = h.1;
              }))
