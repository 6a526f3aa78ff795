-- ===== src/Display/Statistics.antt =====
-- The line of statistics of `display_statistics`.
use mathlib.Core.List.Perm
use network_lab.Common.{
  ℕ, ◌+◌, ◌-◌, ◌*◌, ◌%◌, ◌/◌, ◌^◌, ◌≤◌, ◌<◌, ◌≡◌, refl, Bool, true, false, List, some, ok, fault,
  bad_read, Returns-ok, arith, if◌then◌else◌, ◌==◌, length, sum, get_elem?, get_elem?-some,
  All-get_elem?,
}
use network_lab.Sorting.{Sorter, compare_ull}
use network_lab.Sorting.Order.{IsWithin, IsWithin-perm, length-perm, sort-compare_ull-IsSorted}
use network_lab.Stats.{percentile, mad, average}
use network_lab.Stats.Percentile.{
  Rank, Rank-mono, Rank-IsWithin, printed_ranks_iff, IsCovered, percentile-Rank,
  percentile-bad_read, read-some,
}
use network_lab.Printk.{Printer, Page, Summary, Fits, print, blank, print-Fits}
use network_lab.Printk
use network_lab.Display.{Log, display_statistics, show_histogram}
use network_lab.Display.Tally.{tally, tally-perm, tally_member}
use network_lab.Display.Values.{sorted-IsWithin, average_of_perm, mad_bound}

-- What the line of statistics says of the values.
pub record IsSummary (values : List ℕ) (batch : ℕ) (s : Summary) : Type 0 where
  pub range : IsWithin s.low s.high values
  pub low_member : 0 < tally s.low (s.low + 1) values
  pub high_member : 0 < tally s.high (s.high + 1) values
  pub low_le : s.low ≤ s.p50
  pub p50_le : s.p50 ≤ s.p90
  pub p90_le : s.p90 ≤ s.p95
  pub p95_le : s.p95 ≤ s.high
  pub average : s.average ≡ sum values / length values
  pub mad_le : s.mad ≤ s.high - s.low
  pub count : s.count ≡ length values * batch

module _ (k : Printer) (log : Log) (sorter : Sorter) (values : List ℕ) (batch : ℕ) where
  module _ (few : 95 * length values < 2 ^ 32) where
    -- With one to nineteen values the report reads behind the last value: the 95th percentile needs
    -- one more. (Ninety-five times the number is below 2 ^ 32 there, which is a parameter of the
    -- section.)
    pub display_statistics-bad_read :
        (allocated verbose : Bool)
        → 0 < length values
        → length values < 20
        → display_statistics k log sorter allocated values (length values) batch verbose
          ≡ fault bad_read
    unfolding display_statistics
    display_statistics-bad_read allocated verbose h small =
        let n : length values % 2 ^ 32 ≡ length values = omega arith in
        let some_values : (length values == 0) ≡ false = ground arith in
        rw (
          some_values,
          n,
          percentile-bad_read 95 (length values) (sorter.sort compare_ull values) few (omega arith)
              (length-perm (sorter.sort-perm compare_ull values)) h
              (λ c. absurd (omega (arith, c (omega arith)))),
        )

    module _ (h : 20 ≤ length values) (w : IsWithin 0 (2 ^ 63 - 1) values) where
      abbrev pub sorted : List ℕ
      sorted = sorter.sort compare_ull values

      same : length sorted ≡ length values
      same = length-perm (sorter.sort-perm compare_ull values)

      module _ (p : ℕ) (le : p ≤ 95) (c : IsCovered (p * length values) (length values)) where
        percentile_value :
            (r : ℕ) × (percentile p sorted (length values) ≡ ok r)
            × Rank sorted (p * length values) r
        percentile_value =
            let small : p * length values ≤ 95 * length values = grind arith in
            Returns-ok (Rank sorted (p * length values)) (percentile p sorted (length values)) (
              percentile-Rank p (length values) sorted (omega arith) (omega arith) same
                (omega arith) (IsWithin-perm 0 (2 ^ 63 - 1) (sorter.sort-perm compare_ull values) w)
                c)

      module _ (low high p95 p90 p50 dev : ℕ) (fits : length values * batch < 2 ^ 64) where
        abbrev pub line : Summary
        line = record {
          low = low;
          high = high;
          count = length values * batch % 2 ^ 64;
          batch = batch;
          average = sum values / length values;
          p95 = p95;
          p90 = p90;
          p50 = p50;
          mad = dev;
        }

        display-line :
            (verbose : Bool)
            → percentile 95 sorted (length values) ≡ ok p95
            → percentile 90 sorted (length values) ≡ ok p90
            → percentile 50 sorted (length values) ≡ ok p50
            → get_elem? sorted 0 ≡ some low
            → get_elem? sorted (length values - 1) ≡ some high
            → mad sorter true sorted p50 (length values) ≡ ok dev
            → display_statistics k log sorter true values (length values) batch verbose ≡ (
                if verbose
                then show_histogram k log sorted
                    (length values)
                    batch
                    low
                    p95
                    (print k (Printk.summary line) blank)
                else ok (print k (Printk.summary line) blank))
        unfolding display_statistics
        display-line verbose e95 e90 e50 elow ehigh emad =
            let n : length values % 2 ^ 32 ≡ length values = omega arith in
            let some_values : (length values == 0) ≡ false = ground arith in
            rw (some_values, n, e95, e90, e50, average_value, read-some sorted 0 elow)
              (rw (read-some sorted _ ehigh, emad))
          where
            average_value : average sorted (length values) ≡ ok (sum values / length values)
            average_value =
                average_of_perm values sorted (sorter.sort-perm compare_ull values) (omega arith) w

        line-IsSummary :
            Rank sorted (95 * length values) p95
            → Rank sorted (90 * length values) p90
            → Rank sorted (50 * length values) p50
            → get_elem? sorted 0 ≡ some low
            → get_elem? sorted (length values - 1) ≡ some high
            → dev ≤ high - low
            → IsSummary values batch line
        line-IsSummary r95 r90 r50 elow ehigh small =
            let ascending = sort-compare_ull-IsSorted sorter values in
            let range = sorted-IsWithin sorted (length values) ascending same elow ehigh in
            let p = sorter.sort-perm compare_ull values in
            record {
              low_member = rw (tally-perm low (low + 1) p) at (tally_member sorted 0 elow);
              high_member = rw (tally-perm high (high + 1) p) at (tally_member sorted _ ehigh);
              range = IsWithin-perm low high (Perm.symm p) range;
              low_le = (Rank-IsWithin low high _ p50 sorted range r50).0;
              p50_le = Rank-mono sorted _ _ p50 p90 ascending (omega arith) r50 r90;
              p90_le = Rank-mono sorted _ _ p90 p95 ascending (omega arith) r90 r95;
              p95_le = (Rank-IsWithin low high _ p95 sorted range r95).1;
              average = refl;
              mad_le = small;
              count = omega arith;
            }

      -- From twenty values on the numbers of the line exist.
      pub record Numbers : Type 0 where
        pub low : ℕ
        pub high : ℕ
        pub p95 : ℕ
        pub p90 : ℕ
        pub p50 : ℕ
        pub dev : ℕ
        pub p95_eq : percentile 95 sorted (length values) ≡ ok p95
        pub p90_eq : percentile 90 sorted (length values) ≡ ok p90
        pub p50_eq : percentile 50 sorted (length values) ≡ ok p50
        pub low_eq : get_elem? sorted 0 ≡ some low
        pub high_eq : get_elem? sorted (length values - 1) ≡ some high
        pub dev_eq : mad sorter true sorted p50 (length values) ≡ ok dev
        pub p95_rank : Rank sorted (95 * length values) p95
        pub p90_rank : Rank sorted (90 * length values) p90
        pub p50_rank : Rank sorted (50 * length values) p50
        pub dev_le : dev ≤ high - low

      pub numbers : Numbers
      numbers =
          let (c95, c90, c50) = (printed_ranks_iff (length values) (omega arith)).1 h in
          let (p95, e95, r95) = percentile_value 95 (omega arith) c95 in
          let (p90, e90, r90) = percentile_value 90 (omega arith) c90 in
          let (p50, e50, r50) = percentile_value 50 (omega arith) c50 in
          let (low, elow) = get_elem?-some sorted 0 (omega (arith, same)) in
          let (high, ehigh) = get_elem?-some sorted (length values - 1) (omega (arith, same)) in
          let ascending = sort-compare_ull-IsSorted sorter values in
          let range = sorted-IsWithin sorted (length values) ascending same elow ehigh in
          let within = IsWithin-perm 0 (2 ^ 63 - 1) (sorter.sort-perm compare_ull values) w in
          let top = All-get_elem? (λ x. (0 ≤ x) × (x ≤ 2 ^ 63 - 1)) sorted _ within ehigh in
          let middle = Rank-IsWithin low high _ p50 sorted range r50 in
          let (dev, emad, small) =
            Returns-ok (λ r. r ≤ high - low) (mad sorter true sorted p50 (length values))
              (mad_bound sorter low high p50 (length values) sorted same (omega arith) (omega arith)
                range (omega (arith, top)) middle.0 middle.1) in
          record {
            low = low;
            high = high;
            p95 = p95;
            p90 = p90;
            p50 = p50;
            dev = dev;
            p95_eq = e95;
            p90_eq = e90;
            p50_eq = e50;
            low_eq = elow;
            high_eq = ehigh;
            dev_eq = emad;
            p95_rank = r95;
            p90_rank = r90;
            p50_rank = r50;
            dev_le = small;
          }

      pub numbers-IsSummary :
          (fits : length values * batch < 2 ^ 64) (x : Numbers)
          → IsSummary values batch (line x.low x.high x.p95 x.p90 x.p50 x.dev fits)
      numbers-IsSummary fits x =
          line-IsSummary x.low x.high x.p95 x.p90 x.p50 x.dev fits x.p95_rank x.p90_rank x.p50_rank
            x.low_eq x.high_eq x.dev_le

      -- From twenty values on the statistics are computed, and the page starts with a right line.
      pub display_statistics-line :
          (verbose : Bool)
          → length values * batch < 2 ^ 64
          → (s : Summary) × IsSummary values batch s
            × (display_statistics k log sorter true values (length values) batch verbose ≡ (
                if verbose
                then show_histogram k log sorted
                    (length values)
                    batch
                    s.low
                    s.p95
                    (print k (Printk.summary s) blank)
                else ok (print k (Printk.summary s) blank)))
      display_statistics-line verbose fits =
          let x = numbers in
          (
            line x.low x.high x.p95 x.p90 x.p50 x.dev fits,
            numbers-IsSummary fits x,
            display-line x.low x.high x.p95 x.p90 x.p50 x.dev fits verbose x.p95_eq x.p90_eq
                x.p50_eq x.low_eq x.high_eq x.dev_eq,
          )
