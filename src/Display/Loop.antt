-- ===== src/Display/Loop.antt =====
-- The loop of the histogram in `display_statistics`.
use network_lab.Common.{
  ℕ, zero, suc, ◌+◌, ◌-◌, ◌*◌, ◌^◌, ◌≤◌, ◌<◌, ◌≡◌, Bool, true, false, inl, inr, List, ok, Returns,
  Returns-ok, arith, leb, ◌==◌, Bool-cases, length, get_elem?-some,
}
use network_lab.Stats.Percentile.{read-some}
use network_lab.Printk.{Printer, Page, Fits}
use network_lab.Display.{Hist, hist_width, in_row, is_last, hist_loop}
use network_lab.Display.Row.{rows_total, print_row-Grows, take_value, close_row}

-- Between two rounds: the counts so far are on the page or in `count`.
pub record Counted (k : Printer) (total batch : ℕ) (s : Hist) : Type 0 where
  pub fits : Fits k s.page
  pub seen_le : s.i ≤ total
  pub all : s.count2 ≡ s.i
  pub part : s.count ≤ s.i
  pub rows : rows_total s.page.pieces + s.count * batch ≡ s.i * batch

-- Behind the loop no value is left in `count`.
pub record Finished (k : Printer) (total batch : ℕ) (s : Hist) : Type 0 where
  pub fits : Fits k s.page
  pub seen_le : s.i ≤ total
  pub rows : rows_total s.page.pieces ≡ s.i * batch

module _ (k : Printer) (results : List ℕ) (total batch p95 share : ℕ) where
  module _ (filled : length results ≡ total) (small : total * batch < 2 ^ 64) where
    take_value-Counted :
        (s : Hist) → s.i < total → Counted k total batch s → Counted k total batch (take_value s)
    take_value-Counted s h c = record {
      fits = c.fits;
      seen_le = omega arith;
      all = omega (arith, c.all);
      part = omega (arith, c.part);
      rows = omega (arith, c.rows);
    }

    close_row-Counted :
        (s : Hist)
        → Counted k total batch s
        → Counted k total batch (close_row k total batch share s)
    close_row-Counted s c =
        let row = (print_row-Grows k total batch s c.fits).0 in
        let few : s.count * batch ≤ total * batch = grind (arith, c.part, c.seen_le) in
        record {
          fits = row.fits;
          seen_le = c.seen_le;
          all = c.all;
          part = omega arith;
          rows = omega (arith, row.rows, c.rows);
        }

    in_row-Returns :
        (s : Hist)
        → Returns (λ b. b ≡ true → s.i < total) (in_row k results total batch p95 share s)
    unfolding in_row
    in_row-Returns s = elim (Bool-cases (leb total s.i)) [
      | inl e ↦ rw (e, in_row) (λ h. absurd (cc))
      | inr e ↦
          let h : s.i < total = ground arith in
          let x = get_elem?-some results s.i (omega arith) in
          rw (e, in_row, read-some results s.i x.1) (λ _. h)
    ]

    is_last-Returns :
        (i : ℕ) (page : Page)
        → Returns
            (λ b. b ≡ false → (i < total) × (page.used < k.page_size - hist_width - 20))
            (is_last k results total batch p95 share i page)
    unfolding is_last
    is_last-Returns i page = elim (Bool-cases (leb total i)) [
      | inl e ↦ rw (e, is_last) (λ h. absurd (cc))
      | inr e ↦
          let h : i < total = ground arith in
          let x = get_elem?-some results i (omega arith) in
          rw (e, is_last, read-some results i x.1) (λ b. ground arith)
    ]

    in_row-ok :
        (s : Hist)
        → (b : Bool) × (in_row k results total batch p95 share s ≡ ok b) × (b ≡ true → s.i < total)
    in_row-ok s =
        Returns-ok (λ b. b ≡ true → s.i < total) (in_row k results total batch p95 share s)
          (in_row-Returns s)

    is_last-ok :
        (i : ℕ) (page : Page)
        → (b : Bool) × (is_last k results total batch p95 share i page ≡ ok b)
          × (b ≡ false → (i < total) × (page.used < k.page_size - hist_width - 20))
    is_last-ok i page =
        Returns-ok (λ b. b ≡ false → (i < total) × (page.used < k.page_size - hist_width - 20))
          (is_last k results total batch p95 share i page) (is_last-Returns i page)

    -- Over an array of `total` values, of which there is at least one, where `total * batch` is
    -- below 2 ^ 64, and from a state whose counts agree with the page, the loop of the histogram
    -- ends with fuel above the values to go and the bytes left on the page, whatever the values and
    -- the width of a row are. The page still fits, and the counts of its rows add up to the number
    -- of values passed, times the batch.
    pub hist_loop-Finished :
        (fuel : ℕ) (s : Hist)
        → 0 < total
        → (total - s.i) + (k.page_size - s.page.used) < fuel
        → Counted k total batch s
        → Returns (Finished k total batch) (hist_loop k results total batch p95 share fuel s)
    unfolding hist_loop
    hist_loop-Finished zero s pos h c = absurd (omega arith)
    hist_loop-Finished (suc fuel) s pos h c =
        let nonzero : total == 0 ≡ false = ground arith in
        let (inside, e, below) = in_row-ok s in
        rw (e, hist_loop)
          (elim (Bool-cases inside) [
            | inl t ↦ rw t (
                hist_loop-Finished fuel (take_value s) pos (omega (arith, below t))
                  (take_value-Counted s (below t) c))
            | inr f ↦
                let row = print_row-Grows k total batch s c.fits in
                let closed = close_row-Counted s c in
                let (last, e', room) = is_last-ok s.i (close_row k total batch share s).page in
                rw (f, nonzero, e')
                  (elim (Bool-cases last) [
                    | inl t ↦ rw t (record {
                      fits = closed.fits;
                      seen_le = closed.seen_le;
                      rows = omega (arith, closed.rows);
                    })
                    | inr g ↦ rw g (
                        hist_loop-Finished fuel (close_row k total batch share s) pos
                          (omega (arith, room g, row.0.used_le, row.1)) closed)
                  ])
          ])
