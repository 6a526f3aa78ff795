-- ===== src/Display.antt =====
-- `display_statistics` of kbench_mod.c: the line of statistics and the histogram.
pub mod Scale
pub mod Row
pub mod Loop
pub mod Values
pub mod Statistics
pub mod Report
pub mod Safety
pub mod Rendering
pub mod Tally
pub mod Buckets
pub mod Walk
pub mod Histogram
pub mod Outcome
pub mod Prefix
pub mod Order
use network_lab.Common.{
  ℕ, zero, suc, ◌+◌, ◌-◌, ◌*◌, ◌/◌, ◌%◌, ◌^◌, ◌≡◌, ◌≤◌, ◌<◌, Bool, true, false, List, [], ◌∷◌, ◌&&◌,
  Exec, ok, fault, out_of_fuel, divide_by_zero, ◌>>=◌, ltb, leb, ◌==◌, if◌then◌else◌, ℤ, pos,
  negsuc,
}
use network_lab.Sorting.{Sorter, compare_ull}
use network_lab.Stats.{read, percentile, mad, average}
use network_lab.Printk.{Printer, Page, Summary, print, blank}
use network_lab.Printk

-- `ilog2` of the kernel (linux/log2.h, not part of the repository). At 0 it
-- promises no more than that its result is one of an `int` for 64 bits: at most 63.
pub record Log : Type 0 where
  pub ilog2 : ℕ → ℤ
  pub ilog2_lem : (n k : ℕ) → 2 ^ k ≤ n → n < 2 ^ (k + 1) → ilog2 n ≡ pos k
  pub ilog2_bound : (n k : ℕ) → n < 2 ^ 64 → ilog2 n ≡ pos k → k < 64

abbrev pub hist_buckets : ℕ
hist_buckets = 15

abbrev pub hist_width : ℕ
hist_width = 50

-- `order = (ilog2(share) * 3 + 5) / 10`, with the test `order <= 0` behind it. C rounds towards 0,
-- so no negative logarithm leaves an order above 0.
unfoldable pub digits : ℤ → ℕ
digits (negsuc n) = 1
digits (pos n) = if (n * 3 + 5) / 10 == 0 then 1 else (n * 3 + 5) / 10

-- `for (i = order, order = 1; i > 1; i--) order *= 10`, in 32 bits
unfoldable pub power : ℕ → ℕ → ℕ
power zero order = order
power (suc zero) order = order
power (suc (suc i)) order = power (suc i) (order * 10 % 2 ^ 32)

-- An `int`, as a 32-bit pattern, where an `unsigned long long` is wanted.
unfoldable pub extend : ℕ → ℕ
extend w = if ltb w (2 ^ 31) then w else w + 2 ^ 64 - 2 ^ 32

pub record Axis : Type 0 where
  pub share : ℕ
  pub start : ℕ

unfoldable pub order : Log → ℕ → ℕ
unfolding digits power extend
order log share = extend (power (digits (log.ilog2 share)) 1)

-- The width of a row, and where the first one starts.
unfoldable pub axis : Log → ℕ → ℕ → Axis
unfolding order
axis log low p95 =
    let share = (p95 + 2 ^ 64 - low) % 2 ^ 64 / hist_buckets in
    let rounded = share / order log share * order log share % 2 ^ 64 in
    record {
      share = if rounded == 0 then 1 else rounded;
      start = low / order log share * order log share % 2 ^ 64;
    }

pub record Hist : Type 0 where
  pub i : ℕ
  pub count : ℕ
  pub count2 : ℕ
  pub start : ℕ
  pub page : Page

-- `for (; j < n; j++)` with `rounds` of them to go
unfoldable pub print_blocks : Printer → Printk.Piece → ℕ → Page → Page
print_blocks k p zero page = page
print_blocks k p (suc rounds) page = print_blocks k p rounds (print k p page)

-- `n * HIST_WIDTH / total`, where `total` is not 0: `hist_loop` tests it before a row
unfoldable pub bar : ℕ → ℕ → ℕ
bar n total = n * hist_width % 2 ^ 64 / total

-- The five calls that print a row.
unfoldable pub print_row : Printer → ℕ → ℕ → Hist → Page
unfolding print_blocks bar
print_row k total batch s =
    let page = print k (Printk.row_start s.start) s.page in
    let page = print_blocks k Printk.full_block (bar s.count total) page in
    let page = print_blocks k Printk.half_block (bar s.count2 total - bar s.count total) page in
    print k (Printk.row_end (hist_width - bar s.count2 total) (s.count * batch % 2 ^ 64)) page

module _ (k : Printer) (results : List ℕ) (total batch p95 share : ℕ) where
  -- `i < total && results[i] < start + share`
  unfoldable pub in_row : Hist → Exec Bool
  unfolding read
  in_row s =
      if leb total s.i
      then ok false
      else do x ← read results s.i; ok (ltb x ((s.start + share) % 2 ^ 64))

  -- the three tests that leave the loop behind a row; `page` is what is printed by then
  unfoldable pub is_last : ℕ → Page → Exec Bool
  unfolding read
  is_last i page = if leb total i then ok true else do
    x ← read results i
    ok (if ltb p95 x then true else leb (k.page_size - hist_width - 20) page.used)

  -- A row divides by `total`.
  unfoldable pub hist_loop : ℕ → Hist → Exec Hist
  unfolding in_row is_last print_row
  hist_loop zero s = fault out_of_fuel
  hist_loop (suc fuel) s = in_row s >>= λ inside. elim inside [
    | true ↦ hist_loop fuel (record s { i = s.i + 1; count = s.count + 1; count2 = s.count2 + 1 })
    | false ↦
        let s' : Hist = record s {
          count = 0;
          start = (s.start + share) % 2 ^ 64;
          page = print_row k total batch s;
        } in
        let rest = hist_loop fuel s' in
        if total == 0
        then fault divide_by_zero
        else is_last s.i s'.page >>= λ last. if last then ok s' else rest
  ]

-- The histogram behind what `page` holds: the three headings, then the rows.
unfoldable pub histogram : Printer → Log → List ℕ → (total batch low p95 : ℕ) → Page → Exec Hist
unfolding axis hist_loop
histogram k log results total batch low p95 page =
    let scale = axis log low p95 in
    let page = print k Printk.value_head page in
    let page = print k Printk.axis_head page in
    let page = print k Printk.count_head page in
    hist_loop k results total batch p95 scale.share (total + k.page_size + 1)
      (record { i = 0; count = 0; count2 = 0; start = scale.start; page = page })

unfoldable pub show_histogram :
    Printer → Log → List ℕ → (total batch low p95 : ℕ) → Page → Exec Page
unfolding histogram
show_histogram k log results total batch low p95 page =
    histogram k log results total batch low p95 page >>= λ s. ok s.page

-- `total` is an `unsigned long`, and the statistics take an `unsigned`. The page starts blank: the
-- first `scnprintf` writes at `buf`.
unfoldable pub display_statistics :
    Printer
    → Log
    → Sorter
    → (allocated : Bool) → List ℕ
    → (total batch : ℕ) → (verbose : Bool) → Exec Page
unfolding read percentile mad average show_histogram
display_statistics k log sorter allocated unsorted total batch verbose =
    let results = sorter.sort compare_ull unsorted in
    let n = total % 2 ^ 32 in
    if total == 0 then ok (print k Printk.no_match blank) else do
      p95 ← percentile 95 results n
      p90 ← percentile 90 results n
      p50 ← percentile 50 results n
      avg ← average results n
      low ← read results 0
      high ← read results (total - 1)
      distance ← mad sorter allocated results p50 n
      let page =
          print k
            (Printk.summary (record {
              low = low;
              high = high;
              count = total * batch % 2 ^ 64;
              batch = batch;
              average = avg;
              p95 = p95;
              p90 = p90;
              p50 = p50;
              mad = distance;
            }))
            blank
      if verbose then show_histogram k log results total batch low p95 page else ok page
