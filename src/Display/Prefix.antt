-- ===== src/Display/Prefix.antt =====
-- The report with a histogram starts with the report without one.
use network_lab.Common.{
  ℕ, zero, suc, ◌+◌, ◌-◌, ◌%◌, ◌^◌, ◌≡◌, refl, sym, ◌∙◌, ap, Bool, true, false, List, [], ◌∷◌, ◌++◌,
  append_assoc, append-nil, Exec, ok, fault, ◌>>=◌, IfOk, IfOk-bind, IfOk-any, Returns, ◌==◌,
  Bool-cases, inl, inr,
}
use network_lab.Sorting.{Sorter, compare_ull}
use network_lab.Printk.{Printer, Page, Piece, print}
use network_lab.Printk
use network_lab.Stats.{percentile, mad, average, read}
use network_lab.Display.{
  Log, Hist, axis, print_blocks, print_row, in_row, is_last, hist_loop, histogram, show_histogram,
  display_statistics, bar,
}

-- What the first page holds is at the start of the second one.
pub record StartsWith (page page' : Page) : Type 0 where
  pub rest : List Piece
  pub splits : page'.pieces ≡ page.pieces ++ rest

pub StartsWith-self : (page : Page) → StartsWith page page
StartsWith-self page = record { rest = []; splits = sym (append-nil page.pieces) }

StartsWith-trans : {a b c : Page} → StartsWith a b → StartsWith b c → StartsWith a c
StartsWith-trans {a} {b} {c} x y = record {
  rest = x.rest ++ y.rest;
  splits = y.splits ∙ ap (λ zs. zs ++ y.rest) x.splits ∙ append_assoc a.pieces x.rest y.rest;
}

-- Two runs that go on alike from the same start: the second returns only where the first one does.
pub Returns-alike :
    {A : Type 0} {B : Type 0} {C : Type 0} (P : B → C → Type 0) (m : Exec A) (f : A → Exec B)
    (g : A → Exec C)
    → ((a : A) → IfOk (λ c. Returns (λ b. P b c) (f a)) (g a))
    → IfOk (λ c. Returns (λ b. P b c) (m >>= f)) (m >>= g)
Returns-alike P (ok a) f g h = h a
Returns-alike P (fault x) f g h = tt

-- A run with its state: where the second one returns, the first one does, in the same state, and with
-- the start of its page.
abbrev pub IsShorter : {W : Type 0} → (short long : Exec (Page × W)) → Type 0
IsShorter {W} short long =
    IfOk (λ (l : Page × W). Returns (λ (s : Page × W). StartsWith s.0 l.0 × (s.1 ≡ l.1)) short) long

-- Two pages stay as they are where the same state is put beside them.
pub beside-IsShorter :
    {W : Type 0} (w : W) (m n : Exec Page)
    → IfOk (λ long. Returns (λ short. StartsWith short long) m) n
    → IsShorter (m >>= λ page. ok (page, w)) (n >>= λ page. ok (page, w))
beside-IsShorter w (ok a) (ok b) h = (h, refl)
beside-IsShorter w (ok a) (fault f) h = tt
beside-IsShorter w (fault f) (ok b) h = absurd h
beside-IsShorter w (fault f) (fault f') h = tt

module _ (k : Printer) where
  print-StartsWith : (p : Piece) (page : Page) → StartsWith page (print k p page)
  unfolding print
  print-StartsWith p page = record { rest = p ∷ []; splits = refl }

  print_blocks-StartsWith :
      (p : Piece) (n : ℕ) (page : Page) → StartsWith page (print_blocks k p n page)
  unfolding print_blocks
  print_blocks-StartsWith p zero page = StartsWith-self page
  print_blocks-StartsWith p (suc n) page =
      StartsWith-trans (print-StartsWith p page) (print_blocks-StartsWith p n (print k p page))

  print_row-StartsWith :
      (total batch : ℕ) (s : Hist) → StartsWith s.page (print_row k total batch s)
  unfolding print_row
  print_row-StartsWith total batch s =
      let page1 = print k (Printk.row_start s.start) s.page in
      let page2 = print_blocks k Printk.full_block (bar s.count total) page1 in
      let page3 = print_blocks k Printk.half_block (bar s.count2 total - bar s.count total) page2 in
      StartsWith-trans (print-StartsWith _ s.page) (
        StartsWith-trans (print_blocks-StartsWith Printk.full_block (bar s.count total) page1) (
          StartsWith-trans
            (print_blocks-StartsWith Printk.half_block (bar s.count2 total - bar s.count total)
              page2)
            (print-StartsWith _ page3)))

  later :
      {page page' : Page} (m : Exec Hist)
      → StartsWith page page'
      → IfOk (λ s. StartsWith page' s.page) m
      → IfOk (λ s. StartsWith page s.page) m
  later (ok s) x y = StartsWith-trans x y
  later (fault f) x y = tt

  module _ (results : List ℕ) (total batch p95 share : ℕ) where
    hist_loop-StartsWith :
        (fuel : ℕ) (s : Hist)
        → IfOk (λ s'. StartsWith s.page s'.page) (hist_loop k results total batch p95 share fuel s)
    unfolding hist_loop
    hist_loop-StartsWith zero s = tt
    hist_loop-StartsWith (suc fuel) s =
        IfOk-bind (λ b. Unit {0}) _ (in_row k results total batch p95 share s) _ (IfOk-any _)
          λ inside u. elim (Bool-cases inside) [
            | inl e ↦ rw e (
                hist_loop-StartsWith fuel
                  (record s { i = s.i + 1; count = s.count + 1; count2 = s.count2 + 1 }))
            | inr e ↦
                let s' : Hist = record s {
                  count = 0;
                  start = (s.start + share) % 2 ^ 64;
                  page = print_row k total batch s;
                } in
                let row = print_row-StartsWith total batch s in
                let rest =
                  later (hist_loop k results total batch p95 share fuel s') row
                    (hist_loop-StartsWith fuel s') in
                rw e (elim (Bool-cases (total == 0)) [
                  | inl z ↦ rw z tt
                  | inr z ↦ rw z (
                      IfOk-bind (λ b. Unit {0}) _
                        (is_last k results total batch p95 share s.i s'.page) _ (IfOk-any _)
                        λ last v. elim (Bool-cases last) [
                          | inl e' ↦ rw e' row
                          | inr e' ↦ rw e' rest
                        ])
                ])
          ]

  pub show_histogram-StartsWith :
      (log : Log) (results : List ℕ) (total batch low p95 : ℕ) (page : Page)
      → IfOk (StartsWith page) (show_histogram k log results total batch low p95 page)
  unfolding show_histogram histogram
  show_histogram-StartsWith log results total batch low p95 page =
      let page1 = print k Printk.value_head page in
      let page2 = print k Printk.axis_head page1 in
      let page3 = print k Printk.count_head page2 in
      let heads : StartsWith page page3 =
        StartsWith-trans (print-StartsWith _ page)
          (StartsWith-trans (print-StartsWith _ page1) (print-StartsWith _ page2)) in
      let scale = axis log low p95 in
      let s0 : Hist = record { i = 0; count = 0; count2 = 0; start = scale.start; page = page3 } in
      let fuel = total + k.page_size + 1 in
      IfOk-bind {A = Hist} {B = Page} (λ s. StartsWith page3 s.page) (StartsWith page)
        (hist_loop k results total batch p95 scale.share fuel s0) (λ s. ok s.page)
        (hist_loop-StartsWith results total batch p95 scale.share fuel s0)
        (λ s h. StartsWith-trans heads h)

  pub display_statistics-StartsWith :
      (log : Log) (sorter : Sorter) (allocated : Bool) (values : List ℕ) (total batch : ℕ)
      → IfOk
          (λ long.
            Returns
              (λ short. StartsWith short long)
              (display_statistics k log sorter allocated values total batch false))
          (display_statistics k log sorter allocated values total batch true)
  unfolding display_statistics
  display_statistics-StartsWith log sorter allocated values total batch =
      let results = sorter.sort compare_ull values in
      let n = total % 2 ^ 32 in
      elim (Bool-cases (total == 0)) [
        | inl e ↦ rw e (StartsWith-self _)
        | inr e ↦ rw e (
            Returns-alike StartsWith (percentile 95 results n) _ _ λ p95.
              Returns-alike StartsWith (percentile 90 results n) _ _ λ p90.
                Returns-alike StartsWith (percentile 50 results n) _ _ λ p50.
                  Returns-alike StartsWith (average results n) _ _ λ avg.
                    Returns-alike StartsWith (read results 0) _ _ λ low.
                      Returns-alike StartsWith (read results (total - 1)) _ _ λ high.
                        Returns-alike StartsWith (mad sorter allocated results p50 n) _ _
                          λ distance. show_histogram-StartsWith log results total batch low p95 _)
      ]
