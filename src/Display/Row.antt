-- ===== src/Display/Row.antt =====
-- A row of the histogram: its bars, and what printing it does to the page.
use network_lab.Common.{
  ℕ, zero, suc, ◌+◌, ◌-◌, ◌*◌, ◌%◌, ◌/◌, ◌^◌, ◌≤◌, ◌<◌, ◌≡◌, refl, List, [], ◌∷◌, ◌++◌, arith,
}
use network_lab.Printk.{Printer, Piece, Page, Fits, print, print-Fits, used-print, used-lt-print}
use network_lab.Printk
use network_lab.Display.{Hist, hist_width, bar, print_blocks, print_row}

-- A round that takes a value, and one that ends a row.
abbrev pub take_value : Hist → Hist
take_value s = record s { i = s.i + 1; count = s.count + 1; count2 = s.count2 + 1 }

abbrev pub close_row : Printer → (total batch share : ℕ) → Hist → Hist
close_row k total batch share s = record s {
  count = 0;
  start = (s.start + share) % 2 ^ 64;
  page = print_row k total batch s;
}

-- The counts that the rows among the pieces show, in all.
unfoldable pub shown : Piece → ℕ
shown (Printk.row_end pad count) = count
shown _ = 0

unfoldable pub rows_total : List Piece → ℕ
unfolding shown
rows_total [] = 0
rows_total (p ∷ ps) = shown p + rows_total ps

pub rows_total-append :
    (ps : List Piece) (p : Piece) → rows_total (ps ++ p ∷ []) ≡ rows_total ps + shown p
unfolding rows_total
rows_total-append [] p = omega arith
rows_total-append (q ∷ ps) p = omega (arith, rows_total-append ps p)

-- What printing does: the page still fits, has no less on it, and shows `n` more.
pub record Grows (k : Printer) (page page' : Page) (n : ℕ) : Type 0 where
  pub fits : Fits k page'
  pub used_le : page.used ≤ page'.used
  pub rows : rows_total page'.pieces ≡ rows_total page.pieces + n

module _ (k : Printer) where
  pub print-Grows :
      (p : Piece) (page : Page) → Fits k page → Grows k page (print k p page) (shown p)
  print-Grows p page h = record {
    fits = print-Fits k p page h;
    used_le = used-print k p page;
    rows = rows;
  }
    where
      rows : rows_total (print k p page).pieces ≡ rows_total page.pieces + shown p
      rows = unfold print in rows_total-append page.pieces p

  pub Grows-trans : {a b c : Page} (m n : ℕ) → Grows k a b m → Grows k b c n → Grows k a c (m + n)
  Grows-trans m n g h = record {
    fits = h.fits;
    used_le = omega (arith, g.used_le, h.used_le);
    rows = omega (arith, g.rows, h.rows);
  }

  print_blocks-Grows :
      (p : Piece) (rounds : ℕ) (page : Page)
      → shown p ≡ 0
      → Fits k page
      → Grows k page (print_blocks k p rounds page) 0
  unfolding print_blocks
  print_blocks-Grows p zero page e h = record {
    fits = h;
    used_le = omega arith;
    rows = omega arith;
  }
  print_blocks-Grows p (suc rounds) page e h =
      let one = print-Grows p page h in
      let rest = print_blocks-Grows p rounds (print k p page) e one.fits in
      record {
        fits = rest.fits;
        used_le = omega (arith, one.used_le, rest.used_le);
        rows = omega (arith, one.rows, rest.rows);
      }

  module _ (total batch : ℕ) (s : Hist) (h : Fits k s.page) where
    -- A row shows its count, and takes room, where two bytes are left for it.
    pub print_row-Grows :
        Grows k s.page (print_row k total batch s) (s.count * batch % 2 ^ 64)
        × (s.page.used + 1 < k.page_size → s.page.used < (print_row k total batch s).used)
    unfolding print_row shown
    print_row-Grows =
        let dark = bar s.count total in
        let light = bar s.count2 total - bar s.count total in
        let page1 = print k (Printk.row_start s.start) s.page in
        let page2 = print_blocks k Printk.full_block dark page1 in
        let page3 = print_blocks k Printk.half_block light page2 in
        let end = Printk.row_end (hist_width - bar s.count2 total) (s.count * batch % 2 ^ 64) in
        let first = print-Grows (Printk.row_start s.start) s.page h in
        let full = print_blocks-Grows Printk.full_block dark page1 refl first.fits in
        let half = print_blocks-Grows Printk.half_block light page2 refl full.fits in
        let last = print-Grows end page3 half.fits in
        (
          record {
            fits = last.fits;
            used_le = omega (arith, first.used_le, full.used_le, half.used_le, last.used_le);
            rows = omega (arith, first.rows, full.rows, half.rows, last.rows);
          },
          λ room. omega (
            arith,
            full.used_le,
            half.used_le,
            last.used_le,
            used-lt-print k (Printk.row_start s.start) s.page (k.row_start_nonempty s.start) room,
          ),
        )

quotient_le : (a b c d : ℕ) → 0 < c → a ≤ b → b ≤ d * c → (a / c ≤ b / c) × (b / c ≤ d)
quotient_le a b c d h k l = (grind arith, grind arith)

-- For counts in order up to a total above 0 and below 2 ^ 58, the dark bar of a row is no longer
-- than the whole one, which is no wider than the column: the loops and the padding of a row never
-- count below 0.
bar_bounds :
    (count count2 total : ℕ)
    → 0 < total
    → total < 2 ^ 58
    → count ≤ count2
    → count2 ≤ total
    → (bar count total ≤ bar count2 total) × (bar count2 total ≤ hist_width)
unfolding bar
bar_bounds count count2 total h b c d =
    let e : count * 50 % 2 ^ 64 ≡ count * 50 = omega arith in
    let e2 : count2 * 50 % 2 ^ 64 ≡ count2 * 50 = omega arith in
    rw (e, e2) (quotient_le (count * 50) (count2 * 50) total 50 h (omega arith) (omega arith))
