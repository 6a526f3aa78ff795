-- ===== src/Display/Rendering.antt =====
-- The rows of a histogram read back from the pieces of a page, and what `print_row` adds to them.
use mathlib.Core.List.{foldl, foldl-append}
use network_lab.Common.{
  ℕ, zero, suc, ◌+◌, ◌-◌, ◌*◌, ◌%◌, ◌^◌, ◌≡◌, refl, List, [], ◌∷◌, ◌++◌, arith,
}
use network_lab.Printk.{Printer, Piece, Page, print}
use network_lab.Printk
use network_lab.Display.{Hist, hist_width, bar, print_blocks, print_row}

-- A row: where it starts, its dark and its light blocks, the padding, and its count.
pub record Row : Type 0 where
  pub start : ℕ
  pub dark : ℕ
  pub light : ℕ
  pub pad : ℕ
  pub count : ℕ

-- What a reader of the pieces holds: the lines that are no rows, the rows so far, and the row that is
-- not ended.
pub record View : Type 0 where
  pub lines : List Piece
  pub rows : List Row
  pub open_row : Row

abbrev no_row : Row
no_row = record { start = 0; dark = 0; light = 0; pad = 0; count = 0 }

unfoldable pub note : View → Piece → View
note v (Printk.row_start start) = record v { open_row = record no_row { start = start } }
note v Printk.full_block = record v { open_row = record v.open_row { dark = v.open_row.dark + 1 } }
note v Printk.half_block = record v {
  open_row = record v.open_row { light = v.open_row.light + 1 };
}
note v (Printk.row_end pad count) = record v {
  rows = v.rows ++ (record v.open_row { pad = pad; count = count }) ∷ [];
  open_row = no_row;
}
note v p = record v { lines = v.lines ++ p ∷ [] }

unfoldable pub view : List Piece → View
unfolding note
view ps = foldl note (record { lines = []; rows = []; open_row = no_row }) ps

pub view-print :
    (k : Printer) (p : Piece) (page : Page)
    → view (print k p page).pieces ≡ note (view page.pieces) p
unfolding view print
view-print k p page = foldl-append note _ page.pieces (p ∷ [])

abbrev pub halfway : List Piece → List Row → ℕ → ℕ → ℕ → View
halfway lines rows start dark light = record {
  lines = lines;
  rows = rows;
  open_row = record { start = start; dark = dark; light = light; pad = 0; count = 0 };
}

module _ (k : Printer) (lines : List Piece) (rows : List Row) (start : ℕ) where
  view-full_blocks :
      (n dark dark' : ℕ) (page : Page)
      → dark' ≡ dark + n
      → view page.pieces ≡ halfway lines rows start dark 0
      → view (print_blocks k Printk.full_block n page).pieces ≡ halfway lines rows start dark' 0
  unfolding print_blocks note
  view-full_blocks zero dark dark' page h e = let same : dark' ≡ dark = omega arith in rw same e
  view-full_blocks (suc n) dark dark' page h e =
      let step = rw e at (view-print k Printk.full_block page) in
      view-full_blocks n (dark + 1) dark' (print k Printk.full_block page) (omega arith) step

  view-half_blocks :
      (dark n light light' : ℕ) (page : Page)
      → light' ≡ light + n
      → view page.pieces ≡ halfway lines rows start dark light
      → view (print_blocks k Printk.half_block n page).pieces ≡ halfway lines rows start dark light'
  unfolding print_blocks note
  view-half_blocks dark zero light light' page h e =
      let same : light' ≡ light = omega arith in rw same e
  view-half_blocks dark (suc n) light light' page h e =
      let step = rw e at (view-print k Printk.half_block page) in
      view-half_blocks dark n (light + 1) light' (print k Printk.half_block page) (omega arith) step

-- Between two rows.
abbrev pub closed : List Piece → List Row → View
closed lines rows = record { lines = lines; rows = rows; open_row = no_row }

-- Printing a row adds that row to those that the page shows.
pub view-print_row :
    (k : Printer) (total batch : ℕ) (s : Hist) (lines : List Piece) (rows : List Row)
    → view s.page.pieces ≡ closed lines rows
    → view (print_row k total batch s).pieces
      ≡ closed lines (
          rows
          ++ (record {
            start = s.start;
            dark = bar s.count total;
            light = bar s.count2 total - bar s.count total;
            pad = hist_width - bar s.count2 total;
            count = s.count * batch % 2 ^ 64;
          })
            ∷ [])
unfolding print_row note
view-print_row k total batch s lines rows e =
    let dark = bar s.count total in
    let light = bar s.count2 total - bar s.count total in
    let page1 = print k (Printk.row_start s.start) s.page in
    let page2 = print_blocks k Printk.full_block dark page1 in
    let page3 = print_blocks k Printk.half_block light page2 in
    let end = Printk.row_end (hist_width - bar s.count2 total) (s.count * batch % 2 ^ 64) in
    let first = rw e at (view-print k (Printk.row_start s.start) s.page) in
    let full = view-full_blocks k lines rows s.start dark 0 dark page1 (omega arith) first in
    let half = view-half_blocks k lines rows s.start dark light 0 light page2 (omega arith) full in
    rw half at (view-print k end page3)

-- A piece that is a line of its own.
abbrev pub IsLine : Piece → Type 0
IsLine p = (lines : List Piece) → note (closed lines []) p ≡ closed (lines ++ p ∷ []) []

pub view-two : (p q : Piece) → IsLine p → IsLine q → view (p ∷ q ∷ []) ≡ closed (p ∷ q ∷ []) []
unfolding view
view-two p q h g = rw (h [], g (p ∷ [])) refl
