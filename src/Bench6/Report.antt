-- ===== src/Bench6/Report.antt =====
-- The report of the IPv6 module: lines 396 to 475 of its `do_bench`, and its own `mad`.
use network_lab.Common.{
  ℕ, ◌-◌, ◌/◌, ◌%◌, ◌^◌, ◌==◌, Bool, not, List, Exec, ok, fault, null_pointer, ◌>>=◌, if◌then◌else◌,
}
use network_lab.Sorting.{Sorter, compare}
use network_lab.Stats.{read, percentile, deviations}
use network_lab.Printk.{Printer, Page, Piece, Summary, print, blank}
use network_lab.Printk
use network_lab.Display.{Log, show_histogram}
use network_lab.Fib6.{Depths}

-- As `mad` of the IPv4 module, but for the comparator.
unfoldable pub mad6 : Sorter → Bool → List ℕ → ℕ → ℕ → Exec ℕ
unfolding deviations percentile
mad6 k allocated sorted median count =
    if not allocated
    then fault null_pointer
    else do dmedian ← deviations count 0 sorted median; percentile 50 (k.sort compare dmedian) count

-- `head` is the format of the line of statistics, with a batch or, in the older module, without;
-- `sum` is what the loops have added up in `average`. The rows of the histogram are those of the IPv4
-- module, but for their counts, which no batch multiplies.
unfoldable pub report6 :
    (head : Summary → Piece)
    → Printer
    → Log
    → Sorter
    → (allocated : Bool) → (depths : Exec Depths) → (table_id : ℕ) → List ℕ
    → (total sum batch : ℕ) → (verbose : Bool) → Exec Page
unfolding read percentile mad6 show_histogram
report6 head k log sorter allocated depths table_id unsorted total sum batch verbose =
    let results = sorter.sort compare unsorted in
    let n = total % 2 ^ 32 in
    if total == 0 then ok (print k Printk.no_match blank) else do
      p95 ← percentile 95 results n
      p90 ← percentile 90 results n
      p50 ← percentile 50 results n
      low ← read results 0
      high ← read results (total - 1)
      distance ← mad6 sorter allocated results p50 n
      d ← depths
      let line =
          print k
            (head (record {
              low = low;
              high = high;
              count = total;
              batch = batch;
              average = sum / total;
              p95 = p95;
              p90 = p90;
              p50 = p50;
              mad = distance;
            }))
            blank
      let page = print k (Printk.depth table_id (d.avgdepth / 10) (d.avgdepth % 10) d.maxdepth) line
      if verbose then show_histogram k log results total 1 low p95 page else ok page
