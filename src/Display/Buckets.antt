-- ===== src/Display/Buckets.antt =====
-- The rows that the loop of the histogram prints, against the values that fall into them.
use network_lab.Common.{
  ℕ, suc, ◌+◌, ◌-◌, ◌*◌, ◌%◌, ◌^◌, ◌≤◌, ◌<◌, ◌≡◌, refl, ◌⊎◌, inl, inr, List, [], ◌∷◌, ◌++◌, arith,
  length, length-append, append_assoc, All, All-mono, All-append,
}
use network_lab.Sorting.Order.{IsSorted, bounds_all}
use network_lab.Printk.{Printer, Page, Piece}
use network_lab.Display.{Hist, hist_width, bar, print_row}
use network_lab.Display.Row.{take_value, close_row}
use network_lab.Display.Rendering.{view, closed, view-print_row}
use network_lab.Display.Tally.{
  tally, tally-append, tally_le, tally_one, tally_above, tally_below, tally_all, row_of, rows_of,
}

-- The page shows the histogram of the values: at least one row, each right for the values in its
-- range; and no value up to the 95th percentile is left behind the last row, unless the page is
-- full.
pub record IsHistogram (k : Printer) (values : List ℕ) (batch start share p95 : ℕ)
    (lines : List Piece) (page : Page) : Type 0 where
  pub rows : ℕ
  pub some_row : 0 < rows
  pub shows : view page.pieces ≡ closed lines (rows_of start share batch values rows)
  pub ends :
      (tally (start + rows * share) (p95 + 1) values ≡ 0)
      ⊎ (k.page_size - hist_width - 20 ≤ page.used)

module _ (results : List ℕ) (batch share first : ℕ) (lines : List Piece) where
  -- Before a round: the values passed, those to go, and the rows closed.
  pub record Bucketed (seen rest : List ℕ) (n : ℕ) (s : Hist) : Type 0 where
    pub split : results ≡ seen ++ rest
    pub passed : length seen ≡ s.i
    pub all : s.count2 ≡ s.i
    pub count : s.count ≡ tally s.start (s.start + share) seen
    pub place : s.start ≡ first + n * share
    pub low : s.start < 2 ^ 63
    pub below : All (λ x. x < s.start + share) seen
    pub above : All (λ x. s.start ≤ x) rest
    pub ascending : IsSorted rest
    pub shows : view s.page.pieces ≡ closed lines (rows_of first share batch results n)

module _ (k : Printer) (results : List ℕ) (total batch share first : ℕ) (lines : List Piece) where
  module _ (filled : length results ≡ total) (few : total * hist_width < 2 ^ 64)
      (small : total * batch < 2 ^ 64) where
    row_lem :
        (lo hi count count2 : ℕ)
        → count ≡ tally lo hi results
        → count2 ≡ tally 0 hi results
        → (record {
          start = lo;
          dark = bar count total;
          light = bar count2 total - bar count total;
          pad = hist_width - bar count2 total;
          count = count * batch % 2 ^ 64;
        })
          ≡ row_of lo hi batch results
    unfolding row_of bar
    row_lem lo hi count count2 e e2 =
        let le : count ≤ total = rw e (omega (arith, tally_le lo hi results)) in
        let le2 : count2 ≤ total = rw e2 (omega (arith, tally_le 0 hi results)) in
        let same : count * 50 % 2 ^ 64 ≡ count * 50 = omega arith in
        let same2 : count2 * 50 % 2 ^ 64 ≡ count2 * 50 = omega arith in
        let bound : count * batch ≤ total * batch = grind arith in
        let fits : count * batch % 2 ^ 64 ≡ count * batch = omega arith in
        rw (← filled, same, same2, fits, e, e2) refl

    row_shows :
        (seen rest : List ℕ) (n : ℕ) (s : Hist)
        → Bucketed results batch share first lines seen rest n s
        → All (λ x. s.start + share ≤ x) rest
        → view (print_row k total batch s).pieces
          ≡ closed lines (rows_of first share batch results (suc n))
    unfolding rows_of
    row_shows seen rest n s b over =
        let hi = s.start + share in
        let here : s.count ≡ tally s.start hi results = rw b.split (
          omega (
            arith,
            b.count,
            tally-append s.start hi seen rest,
            tally_above s.start hi rest over,
          )) in
        let sofar : s.count2 ≡ tally 0 hi results = rw b.split (
          omega (
            arith,
            b.all,
            b.passed,
            tally-append 0 hi seen rest,
            tally_above 0 hi rest over,
            tally_all hi seen b.below,
          )) in
        let row = row_lem s.start hi s.count s.count2 here sofar in
        rw (← b.place) (rw row at (view-print_row k total batch s lines _ b.shows))

    pub take_value-Bucketed :
        (seen rest : List ℕ) (x n : ℕ) (s : Hist)
        → Bucketed results batch share first lines seen (x ∷ rest) n s
        → x < s.start + share
        → Bucketed results batch share first lines (seen ++ x ∷ []) rest n (take_value s)
    take_value-Bucketed seen rest x n s b h = record {
      split = rw (append_assoc seen (x ∷ []) rest) b.split;
      passed = omega (arith, length-append seen (x ∷ []), b.passed);
      all = omega (arith, b.all);
      count = omega (
        arith,
        b.count,
        tally-append s.start (s.start + share) seen (x ∷ []),
        tally_one s.start (s.start + share) x b.above.0 h,
      );
      place = b.place;
      low = b.low;
      below = All-append _ seen (x ∷ []) b.below (h, tt);
      above = b.above.1;
      ascending = b.ascending.1;
      shows = b.shows;
    }

    pub close_row-Bucketed :
        (seen rest : List ℕ) (x n : ℕ) (s : Hist)
        → Bucketed results batch share first lines seen (x ∷ rest) n s
        → s.start + share ≤ x
        → x < 2 ^ 63
        → Bucketed results batch share first lines seen
            (x ∷ rest)
            (suc n)
            (close_row k total batch share s)
    close_row-Bucketed seen rest x n s b h le =
        let over = bounds_all (s.start + share) x rest h b.ascending in
        let next : (s.start + share) % 2 ^ 64 ≡ s.start + share = omega arith in
        record {
          split = b.split;
          passed = b.passed;
          all = b.all;
          count =
              rw (next, tally_below (s.start + share) (s.start + share + share) seen b.below) refl;
          place = omega (arith, next, b.place);
          low = omega (arith, next);
          below = rw next (
              All-mono (λ y. y < s.start + share) (λ y. y < s.start + share + share) seen
                (λ y g. omega arith) b.below);
          above =
              All-mono (λ y. s.start + share ≤ y) (λ y. (s.start + share) % 2 ^ 64 ≤ y) (x ∷ rest)
                (λ y g. omega (arith, next)) over;
          ascending = b.ascending;
          shows = row_shows seen (x ∷ rest) n s b over;
        }

    pub last_row :
        (p95 : ℕ) (seen rest : List ℕ) (n : ℕ) (s : Hist)
        → Bucketed results batch share first lines seen rest n s
        → All (λ x. s.start + share ≤ x) rest
        → All (λ x. p95 + 1 ≤ x) rest
          ⊎ (k.page_size - hist_width - 20 ≤ (close_row k total batch share s).page.used)
        → IsHistogram k results batch first share p95 lines (close_row k total batch share s).page
    last_row p95 seen rest n s b over (inr full) = record {
      rows = suc n;
      some_row = omega arith;
      shows = row_shows seen rest n s b over;
      ends = inr full;
    }
    last_row p95 seen rest n s b over (inl above) =
        let lo = s.start + share in
        let place : first + suc n * share ≡ lo = omega (arith, b.place) in
        let none_left : tally lo (p95 + 1) results ≡ 0 = rw b.split (
          omega (
            arith,
            tally-append lo (p95 + 1) seen rest,
            tally_below lo (p95 + 1) seen b.below,
            tally_above lo (p95 + 1) rest above,
          )) in
        record {
          rows = suc n;
          some_row = omega arith;
          shows = row_shows seen rest n s b over;
          ends = inl (rw place none_left);
        }
