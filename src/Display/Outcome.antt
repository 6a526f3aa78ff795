-- ===== src/Display/Outcome.antt =====
-- What `display_statistics` leaves on the page: the right line and, on demand, the right histogram.
use network_lab.Common.{
  ℕ, ◌-◌, ◌*◌, ◌^◌, ◌≤◌, ◌<◌, ◌≡◌, refl, Bool, true, false, if◌then◌else◌, List, [], ◌∷◌, Exec, ok,
  fault, Returns, IfOk, Returns-mono, arith, length, All-mono,
}
use network_lab.Sorting.{Sorter, compare_ull}
use network_lab.Sorting.Order.{
  IsWithin, IsWithin-perm, IsWithin-both, length-perm, sort-compare_ull-IsSorted,
}
use network_lab.Printk.{Printer, Page, Summary, Piece, Fits, print, blank}
use network_lab.Printk
use network_lab.Display.{Log, axis, show_histogram, display_statistics}
use network_lab.Display.Rendering.{note, view, closed}
use network_lab.Display.Tally.{tally_member_lt}
use network_lab.Display.Buckets.{IsHistogram}
use network_lab.Display.Row.{print-Grows, shown, rows_total}
use network_lab.Display.Report.{Reported, show_histogram-Reported}
use network_lab.Display.Statistics.{IsSummary, display_statistics-line}
use network_lab.Display.Histogram.{headed, IsHistogram-perm, show_histogram-IsHistogram}

-- What a page shows of the values behind their statistics: the lines alone or, on demand, the lines
-- and a histogram, whose rows start and widen as the range up to the 95th percentile asks.
abbrev pub IsShown :
    Printer → Log → List ℕ → (batch : ℕ) → Summary → List Piece → (verbose : Bool) → Page → Type 0
IsShown k log values batch s lines false page = page.pieces ≡ lines
IsShown k log values batch s lines true page =
    IsHistogram k values batch (axis log s.low s.p95).start (axis log s.low s.p95).share s.p95
      (headed lines) page

-- The report: within the page, with the right line of statistics, and what is to be shown with it.
pub record IsReport (k : Printer) (log : Log) (values : List ℕ) (batch : ℕ) (verbose : Bool)
    (page : Page) : Type 0 where
  pub line : Summary
  pub line_lem : IsSummary values batch line
  pub fits : Fits k page
  pub shown_lem : IsShown k log values batch line (Printk.summary line ∷ []) verbose page

-- A run that returns, and whose result is good in two ways.
both :
    {A : Type 0} (P Q : A → Type 0) (m : Exec A)
    → Returns P m
    → IfOk Q m
    → Returns (λ a. P a × Q a) m
both P Q (ok a) p q = (p, q)
both P Q (fault f) p q = absurd p

module _ (k : Printer) (log : Log) (sorter : Sorter) (values : List ℕ) (batch : ℕ) where
  module _ (few : 95 * length values < 2 ^ 32) (w : IsWithin 0 (2 ^ 63 - 1) values)
      (small : length values * batch < 2 ^ 64) where
    -- What follows the lines of statistics.
    pub show_histogram-IsShown :
        (s : Summary) (lines : List Piece) (verbose : Bool) (page : Page)
        → 0 < length values
        → IsSummary values batch s
        → Fits k page
        → rows_total page.pieces ≡ 0
        → page.pieces ≡ lines
        → view lines ≡ closed lines []
        → Returns
            (λ page'. Fits k page' × IsShown k log values batch s lines verbose page')
            (if verbose
              then show_histogram k log
                  (sorter.sort compare_ull values)
                  (length values)
                  batch
                  s.low
                  s.p95
                  page
              else ok page)
    show_histogram-IsShown s lines false page pos right start_fits no_rows e e' = (start_fits, e)
    show_histogram-IsShown s lines true page pos right start_fits no_rows e e' =
        let p = sorter.sort-perm compare_ull values in
        let same = length-perm p in
        let sorted = sorter.sort compare_ull values in
        let run = show_histogram k log sorted (length values) batch s.low s.p95 page in
        let reported =
          show_histogram-Reported k log sorted (length values) batch s.low s.p95 page pos same small
            start_fits no_rows in
        let within = IsWithin-both s.low s.high 0 (2 ^ 63 - 1) values right.range w in
        let below = All-mono _ (λ x. x < 2 ^ 63) values (λ x h. omega (arith, h.1)) w in
        let fits : s.p95 < 2 ^ 63 =
          omega
            (arith, right.p95_le, tally_member_lt values s.high (2 ^ 63) right.high_member below) in
        let le : s.low ≤ s.p95 = omega (arith, right.low_le, right.p50_le, right.p90_le) in
        let shown =
          show_histogram-IsHistogram k log sorted (length values) batch s.low s.p95 lines page same
            (omega arith) small le (sort-compare_ull-IsSorted sorter values)
            (IsWithin-perm s.low (2 ^ 63 - 1) p within) fits (rw e e') in
        let start = (axis log s.low s.p95).start in
        let share = (axis log s.low s.p95).share in
        Returns-mono
          (λ page'.
            Reported k (length values) batch page'
            × IsHistogram k sorted batch start share s.p95 (headed lines) page')
          (λ page'.
            Fits k page' × IsHistogram k values batch start share s.p95 (headed lines) page')
          run (both _ _ run reported shown)
          (λ page' h.
            (h.0.fits, IsHistogram-perm start share batch p k s.p95 (headed lines) page' h.1))

    -- Of at least twenty values below 2 ^ 63, so few that 95 times their number is below 2 ^ 32 and
    -- that their number times the batch is below 2 ^ 64, where the allocation in `mad` succeeds,
    -- the report fits the page and starts with the right line of statistics: the least and the
    -- greatest of the values, the average rounded down, the three percentiles in order between
    -- them, and a deviation within the range. Without a histogram nothing else is on the page. With
    -- one, its headings and then only rows follow, at least one: each starts where the one before
    -- ends, from the rounded least value on and as wide as the rounded fifteenth of the range up to
    -- the 95th percentile, and shows the number of values in its range times the batch, with a dark
    -- bar for those values and a light one up to the share of all values up to its end, padded to
    -- the width of the column. No value up to the 95th percentile is behind the last row, unless
    -- the page is full.
    pub display_statistics-IsReport :
        (verbose : Bool)
        → 20 ≤ length values
        → Returns
            (IsReport k log values batch verbose)
            (display_statistics k log sorter true values (length values) batch verbose)
    unfolding print view note
    display_statistics-IsReport verbose many =
        let (s, right, e) =
          display_statistics-line k log sorter values batch few many w verbose small in
        let page = print k (Printk.summary s) blank in
        let first = print-Grows k (Printk.summary s) blank (omega (arith, k.page_size_min)) in
        let no_rows : rows_total page.pieces ≡ 0 = unfold shown rows_total in first.rows in
        rw e (
          Returns-mono _ (IsReport k log values batch verbose) _
            (show_histogram-IsShown s (Printk.summary s ∷ []) verbose page (omega arith) right
              first.fits no_rows refl refl)
            (λ page' h. record { line = s; line_lem = right; fits = h.0; shown_lem = h.1 }))
