-- ===== src/Display/Walk.antt =====
-- The loop of the histogram, round by round, to the histogram of the values.
use network_lab.Common.{
  ℕ, zero, suc, ◌+◌, ◌-◌, ◌*◌, ◌%◌, ◌^◌, ◌≤◌, ◌<◌, ◌≡◌, refl, inl, inr, true, false, List, [], ◌∷◌,
  ◌++◌, some, ok, IfOk, ◌>>=◌, if◌then◌else◌, arith, ltb, leb, ◌==◌, leb→le, ltb→lt, Bool-cases,
  length, length-append, get_elem?, get_elem?-append, All, All-get_elem?,
}
use network_lab.Sorting.Order.{bounds_all}
use network_lab.Stats.Percentile.{read-some}
use network_lab.Printk.{Printer, Page, Piece}
use network_lab.Display.{Hist, hist_width, in_row, is_last, hist_loop}
use network_lab.Display.Row.{take_value, close_row}
use network_lab.Display.Buckets.{
  IsHistogram, Bucketed, take_value-Bucketed, close_row-Bucketed, last_row,
}

module _ (k : Printer) (results : List ℕ) (total batch p95 share first : ℕ)
    (lines : List Piece) where
  abbrev Before : (seen rest : List ℕ) → ℕ → Hist → Type 0
  Before = Bucketed results batch share first lines

  module _ (filled : length results ≡ total) (few : total * hist_width < 2 ^ 64)
      (small : total * batch < 2 ^ 64) where
    nonempty :
        (seen rest : List ℕ) (x n : ℕ) (s : Hist) → Before seen (x ∷ rest) n s → total == 0 ≡ false
    nonempty seen rest x n s b =
        let e : length results ≡ length seen + length (x ∷ rest) =
          rw b.split (length-append seen (x ∷ rest)) in
        ground (arith, e, filled)

    module _ (narrow : share < 2 ^ 63) (bounded : All (λ x. x < 2 ^ 63) results) where
      at_end : (seen : List ℕ) (n : ℕ) (s : Hist) → Before seen [] n s → leb total s.i ≡ true
      at_end seen n s b =
          let e : length results ≡ length seen + 0 = rw b.split (length-append seen []) in
          ground (arith, e, b.passed, filled)

      not_at_end :
          (seen rest : List ℕ) (x n : ℕ) (s : Hist)
          → Before seen (x ∷ rest) n s
          → (leb total s.i ≡ false) × (get_elem? results s.i ≡ some x) × (x < 2 ^ 63)
      not_at_end seen rest x n s b =
          let e : length results ≡ length seen + length (x ∷ rest) =
            rw b.split (length-append seen (x ∷ rest)) in
          let here : get_elem? results s.i ≡ some x =
            rw b.split (get_elem?-append seen rest x s.i b.passed) in
          (
            ground (arith, e, b.passed, filled),
            here,
            All-get_elem? (λ y. y < 2 ^ 63) results s.i bounded here,
          )

      in_row-end :
          (seen : List ℕ) (n : ℕ) (s : Hist)
          → Before seen [] n s
          → in_row k results total batch p95 share s ≡ ok false
      unfolding in_row
      in_row-end seen n s b = rw (at_end seen n s b) refl

      is_last-end :
          (seen : List ℕ) (n : ℕ) (s : Hist) (page : Page)
          → Before seen [] n s
          → is_last k results total batch p95 share s.i page ≡ ok true
      unfolding is_last
      is_last-end seen n s page b = rw (at_end seen n s b) refl

      in_row-value :
          (seen rest : List ℕ) (x n : ℕ) (s : Hist)
          → Before seen (x ∷ rest) n s
          → in_row k results total batch p95 share s ≡ ok (ltb x (s.start + share))
      unfolding in_row
      in_row-value seen rest x n s b =
          let (more, here, le) = not_at_end seen rest x n s b in
          let fits : (s.start + share) % 2 ^ 64 ≡ s.start + share = omega (arith, b.low) in
          rw (more, read-some results s.i here, fits) refl

      is_last-value :
          (seen rest : List ℕ) (x n : ℕ) (s : Hist) (page : Page)
          → Before seen (x ∷ rest) n s
          → is_last k results total batch p95 share s.i page
            ≡ ok (if ltb p95 x then true else leb (k.page_size - hist_width - 20) page.used)
      unfolding is_last
      is_last-value seen rest x n s page b =
          let (more, here, le) = not_at_end seen rest x n s b in
          rw (more, read-some results s.i here) refl

      -- Behind a row with the value `x` to go.
      close_row-IsHistogram :
          (fuel : ℕ) (seen rest : List ℕ) (x n : ℕ) (s : Hist)
          → Before seen (x ∷ rest) n s
          → s.start + share ≤ x
          → IfOk
              (λ s'. IsHistogram k results batch first share p95 lines s'.page)
              (hist_loop k results total batch p95 share fuel (close_row k total batch share s))
          → IfOk
              (λ s'. IsHistogram k results batch first share p95 lines s'.page)
              (is_last k results total batch p95 share s.i (close_row k total batch share s).page
                >>= λ last.
                    if last
                    then ok (close_row k total batch share s)
                    else hist_loop k results total batch p95 share fuel
                        (close_row k total batch share s))
      close_row-IsHistogram fuel seen rest x n s b h rest_ok =
          let over = bounds_all (s.start + share) x rest h b.ascending in
          rw (is_last-value seen rest x n s (close_row k total batch share s).page b)
            (elim (Bool-cases (ltb p95 x)) [
              | inl t ↦ rw t (
                  last_row k results total batch share first lines filled few small p95 seen
                    (x ∷ rest) n s b over
                    (inl (bounds_all (p95 + 1) x rest (omega (arith, ltb→lt p95 x t)) b.ascending)))
              | inr f ↦
                  rw f
                    (elim (Bool-cases (
                      leb (k.page_size - hist_width - 20)
                        (close_row k total batch share s).page.used)) [
                          | inl t ↦ rw t (
                              last_row k results total batch share first lines filled few small p95
                                seen (x ∷ rest) n s b over (inr (leb→le _ _ t)))
                          | inr g ↦ rw g rest_ok
                        ])
            ])

      pub hist_loop-IsHistogram :
          (fuel : ℕ) (seen rest : List ℕ) (n : ℕ) (s : Hist)
          → Before seen rest n s
          → IfOk
              (λ s'. IsHistogram k results batch first share p95 lines s'.page)
              (hist_loop k results total batch p95 share fuel s)
      unfolding hist_loop
      hist_loop-IsHistogram zero seen rest n s b = tt
      hist_loop-IsHistogram (suc fuel) seen [] n s b =
          rw (in_row-end seen n s b) (elim (Bool-cases (total == 0)) [
            | inl z ↦ rw z tt
            | inr z ↦
                rw (z, is_last-end seen n s (close_row k total batch share s).page b)
                  (last_row k results total batch share first lines filled few small p95 seen [] n s
                    b tt (inl tt))
          ])
      hist_loop-IsHistogram (suc fuel) seen (x ∷ rest) n s b =
          rw (in_row-value seen rest x n s b) (elim (Bool-cases (ltb x (s.start + share))) [
            | inl t ↦ rw t (
                hist_loop-IsHistogram fuel (seen ++ x ∷ []) rest n (take_value s) (
                  take_value-Bucketed k results total batch share first lines filled few small seen
                    rest x n s b (ltb→lt x _ t)))
            | inr f ↦
                let h : s.start + share ≤ x = ground arith in
                let (more, here, le) = not_at_end seen rest x n s b in
                rw (f, nonempty seen rest x n s b)
                  (close_row-IsHistogram fuel seen rest x n s b h (
                    hist_loop-IsHistogram fuel seen (x ∷ rest) (suc n)
                      (close_row k total batch share s)
                      (close_row-Bucketed k results total batch share first lines filled few small
                        seen rest x n s b h le)))
          ])
