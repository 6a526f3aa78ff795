-- ===== src/Display/Histogram.antt =====
-- The histogram of `display_statistics` shows how often the values fall into each of its ranges.
use mathlib.Core.List.{Perm}
use network_lab.Common.{
  ℕ, zero, suc, ◌+◌, ◌-◌, ◌*◌, ◌^◌, ◌≤◌, ◌<◌, ◌≡◌, refl, List, [], ◌∷◌, ◌++◌, IfOk, IfOk-bind,
  arith, length, All-mono,
}
use network_lab.Sorting.Order.{IsSorted, IsWithin, length-perm}
use network_lab.Printk.{Printer, Page, Summary, Piece, Fits, print, blank}
use network_lab.Printk
use network_lab.Display.{Log, hist_width, axis, histogram, show_histogram}
use network_lab.Display.Scale.{axis_bounds}
use network_lab.Display.Rendering.{note, view, closed, view-print}
use network_lab.Display.Tally.{tally, tally-perm, row_of, rows_of}
use network_lab.Display.Buckets.{IsHistogram, Bucketed}
use network_lab.Display.Walk.{hist_loop-IsHistogram}

module _ (start share batch : ℕ) {xs ys : List ℕ} (p : Perm xs ys) where
  rows_of-perm : (n : ℕ) → rows_of start share batch xs n ≡ rows_of start share batch ys n
  unfolding rows_of row_of
  rows_of-perm zero = refl
  rows_of-perm (suc n) =
      let lo = start + n * share in
      rw (rows_of-perm n, tally-perm lo (lo + share) p, tally-perm 0 (lo + share) p, length-perm p)
        refl

  pub IsHistogram-perm :
      (k : Printer) (p95 : ℕ) (lines : List Piece) (page : Page)
      → IsHistogram k xs batch start share p95 lines page
      → IsHistogram k ys batch start share p95 lines page
  IsHistogram-perm k p95 lines page h = record {
    rows = h.rows;
    some_row = h.some_row;
    shows = rw (rows_of-perm h.rows) at h.shows;
    ends = rw (tally-perm (start + h.rows * share) (p95 + 1) p) at h.ends;
  }

-- Lines with the headings of a histogram below them.
abbrev pub headed : List Piece → List Piece
headed lines =
    ((lines ++ Printk.value_head ∷ []) ++ Printk.axis_head ∷ []) ++ Printk.count_head ∷ []

-- Before the first round every value is to go.
none_passed :
    (results : List ℕ) (batch share start low : ℕ) (lines : List Piece) (page : Page)
    → start ≤ low
    → low < 2 ^ 63
    → IsSorted results
    → IsWithin low (2 ^ 63 - 1) results
    → view page.pieces ≡ closed lines []
    → Bucketed results batch share start lines [] results 0
        (record { i = 0; count = 0; count2 = 0; start = start; page = page })
unfolding tally rows_of
none_passed results batch share start low lines page le fits ascending within e = record {
  split = refl;
  passed = refl;
  all = refl;
  count = refl;
  place = omega arith;
  low = omega arith;
  below = tt;
  above = All-mono _ (λ x. start ≤ x) results (λ x h. omega (arith, h.0)) within;
  ascending = ascending;
  shows = e;
}

axis_narrow :
    (log : Log) (low p95 : ℕ) → low ≤ p95 → p95 < 2 ^ 63 → (axis log low p95).share < 2 ^ 63
axis_narrow log low p95 le fits =
    let (start_le, share_pos, share_le) = axis_bounds log low p95 le (omega arith) in
    omega (arith, share_le)

module _ (k : Printer) (log : Log) (results : List ℕ) (total batch low p95 : ℕ)
    (lines : List Piece) where
  histogram-IsHistogram :
      (page : Page)
      → length results ≡ total
      → total * hist_width < 2 ^ 64
      → total * batch < 2 ^ 64
      → low ≤ p95
      → IsSorted results
      → IsWithin low (2 ^ 63 - 1) results
      → p95 < 2 ^ 63
      → view page.pieces ≡ closed lines []
      → IfOk
          (λ s.
            IsHistogram k results batch
              (axis log low p95).start
              (axis log low p95).share
              p95
              (headed lines)
              s.page)
          (histogram k log results total batch low p95 page)
  unfolding histogram note
  histogram-IsHistogram page same few small le ascending within fits e =
      let (start_le, share_pos, share_le) = axis_bounds log low p95 le (omega arith) in
      let scale = axis log low p95 in
      let page1 = print k Printk.value_head page in
      let page2 = print k Printk.axis_head page1 in
      let e1 = rw e at (view-print k Printk.value_head page) in
      let e2 = rw e1 at (view-print k Printk.axis_head page1) in
      let e3 = rw e2 at (view-print k Printk.count_head page2) in
      let bounded = All-mono _ (λ x. x < 2 ^ 63) results (λ x h. omega (arith, h.1)) within in
      hist_loop-IsHistogram k results total batch p95 scale.share scale.start (headed lines) same
        few small (axis_narrow log low p95 le fits) bounded _ [] results 0 _
        (none_passed results batch scale.share scale.start low (headed lines) _ start_le
          (omega arith) ascending within e3)

  pub show_histogram-IsHistogram :
      (page : Page)
      → length results ≡ total
      → total * hist_width < 2 ^ 64
      → total * batch < 2 ^ 64
      → low ≤ p95
      → IsSorted results
      → IsWithin low (2 ^ 63 - 1) results
      → p95 < 2 ^ 63
      → view page.pieces ≡ closed lines []
      → IfOk
          (IsHistogram k results batch
            (axis log low p95).start
            (axis log low p95).share
            p95
            (headed lines))
          (show_histogram k log results total batch low p95 page)
  unfolding show_histogram
  show_histogram-IsHistogram page same few small le ascending within fits e =
      IfOk-bind _ _ (histogram k log results total batch low p95 page) _
        (histogram-IsHistogram page same few small le ascending within fits e) (λ s h. h)
