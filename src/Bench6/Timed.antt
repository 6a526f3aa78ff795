-- ===== src/Bench6/Timed.antt =====
-- The batches of `do_bench` (IPv6), and with them the whole of what it measures.
use native.Mathlib.Nat.{div-eq-sub-div, div-eq_of_lt, le-mul_of_pos_right}
use network_lab.Common.{
  ℕ, zero, suc, ◌+◌, ◌-◌, ◌*◌, ◌/◌, ◌^◌, ◌≤◌, ◌<◌, ◌≡◌, refl, ap, sym, ◌∙◌, inl, inr, List, [], ◌∷◌,
  ◌++◌, append_assoc, append-nil, length-map, ltb, leb, leb→le, lt→ltb, Bool-cases, length,
  length-append, length-take_le, Returns, Returns-mono, Returns-ok, Returns-bind, arith,
}
use network_lab.Bench6.{
  Env6, Plan6, Run6, fill_batch, route_batch, release_batch, batch_round, batch_loop, record_value,
  elapsed6, measure_all, search_loop, start6, results_room,
}
use network_lab.Bench6.Reference.{cycles, batch_times, found, measured6}
use network_lab.Bench6.Ahead.{ahead, ahead-begin}
use network_lab.Bench6.Batches.{fill_batch-Returns, route_batch-Same, release_batch-Same}
use network_lab.Bench6.Safety.{rooms}
use network_lab.Bench6.Measured.{time, single_loop, many_loop}

one_more_le : (m n b i : ℕ) → n ≡ m + 1 → m * b ≤ i → n * b ≤ i + b
one_more_le m n b i e h = rw e (grind (arith, h))

module _ (env : Env6) (p : Plan6) where
  record_value-kept :
      (v : ℕ) (s : Run6)
      → length s.results < results_room p
      → Returns
          (λ s'.
            (s'.results ≡ s.results ++ v ∷ []) × (s'.addrs ≡ s.addrs) × (s'.readings ≡ s.readings))
          (record_value env p v s)
  unfolding record_value
  record_value-kept v s room = rw (lt→ltb _ _ room) (refl, refl, refl)

  batch_round-kept :
      (i : ℕ) (s : Run6)
      → p.batch < 2 ^ 48
      → i + p.batch ≤ length s.addrs
      → length s.results < results_room p
      → Returns
          (λ s'.
            (s'.results ≡ s.results ++ (cycles env p s.readings / p.batch) ∷ [])
            × (s'.addrs ≡ s.addrs)
            × (s'.readings ≡ s.readings + 2))
          (batch_round env p i s)
  unfolding batch_round elapsed6 cycles
  batch_round-kept i s bound h room =
      Returns-bind (λ flows. length flows ≡ p.batch) _ (fill_batch env p p.batch i s.addrs) _
        (fill_batch-Returns env p bound p.batch i s.addrs (omega arith) h)
        (λ flows l.
          let routed = route_batch-Same env p flows s in
          let s1 = route_batch env p flows s in
          let released = release_batch-Same env p p.batch s1 in
          let s2 : Run6 = record (release_batch env p p.batch s1) { readings = s.readings + 2 } in
          let addrs : s2.addrs ≡ s.addrs = released.addrs ∙ routed.addrs in
          let results : s2.results ≡ s.results = released.results ∙ routed.results in
          Returns-mono _ _ (record_value env p (elapsed6 env p s / p.batch) s2)
            (record_value-kept (elapsed6 env p s / p.batch) s2 (rw results room))
            (λ s' g.
              (g.0 ∙ ap (λ r. r ++ (elapsed6 env p s / p.batch) ∷ []) results, g.1 ∙ addrs, g.2)))

  times-next :
      (n m j readings : ℕ) (results next : List ℕ)
      → n ≡ m + 1
      → readings ≡ 2 * j
      → next ≡ results ++ (cycles env p readings / p.batch) ∷ []
      → next ++ batch_times env p m (j + 1) ≡ results ++ batch_times env p n j
  unfolding batch_times
  times-next n m j readings results next one r kept =
      let one' : n ≡ suc m = omega arith in
      rw (kept, r, one') (append_assoc results ((cycles env p (2 * j) / p.batch) ∷ []) _)

  module _ (total : ℕ) (pos : 0 < p.batch) (fits : total ≤ results_room p)
      (bounded : total < 2 ^ 48) where
    batch_loop-times :
        (fuel i j : ℕ) (s : Run6)
        → total - i < fuel
        → i ≤ total
        → length s.addrs ≡ total
        → length s.results * p.batch ≤ i
        → s.readings ≡ 2 * j
        → Returns
            (λ s'. s'.results ≡ s.results ++ batch_times env p ((total - i) / p.batch) j)
            (batch_loop env p fuel i s)
    unfolding batch_loop
    batch_loop-times zero i j s h le count room r = absurd (omega arith)
    batch_loop-times (suc fuel) i j s h le count room r =
        elim (Bool-cases (leb (i + p.batch) (length s.addrs))) [
          | inr e ↦
              let none : (total - i) / p.batch ≡ 0 = div-eq_of_lt (ground (arith, e, count)) in
              rw e (rw none (unfold batch_times in sym (append-nil s.results)))
          | inl e ↦
              let more : i + p.batch ≤ length s.addrs = leb→le _ _ e in
              let small : length s.results ≤ length s.results * p.batch =
                le-mul_of_pos_right _ pos in
              let (s', run, (kept, addrs, readings)) = Returns-ok _ (batch_round env p i s) (
                batch_round-kept i s (omega (arith, more, count)) more
                  (omega (arith, fits, room, count))) in
              let shift : total - (i + p.batch) ≡ (total - i) - p.batch = omega arith in
              let one : (total - i) / p.batch ≡ (total - (i + p.batch)) / p.batch + 1 =
                rw shift (div-eq-sub-div pos (omega (arith, more, count))) in
              let grown : length s'.results ≡ length s.results + 1 = omega (
                arith,
                ap length kept,
                length-append s.results ((cycles env p s.readings / p.batch) ∷ []),
              ) in
              let rest =
                batch_loop-times fuel (i + p.batch) (j + 1) s' (omega (arith, more, count, h, pos))
                  (omega (arith, more, count)) (omega (arith, ap length addrs, count))
                  (one_more_le _ _ p.batch i grown room) (omega (arith, readings, r)) in
              rw (e, run)
                (Returns-mono _ _ (batch_loop env p fuel (i + p.batch) s') rest
                  (λ s'' g. g ∙ times-next _ _ j s.readings s.results s'.results one r kept))
        ]

  -- Where the arrays were allocated for at least `loop_count` and fewer than 2 ^ 48 entries, and
  -- the batch is at least 1, the IPv6 benchmark goes from its first address to the release of its
  -- mutex without a fault, and its results are those of an independent description. Of the
  -- addresses on the way that have a network, no more than `loop_count` are kept, the first ones.
  -- Without batches there is one result for each, the cycles between the two readings around its
  -- lookup; with batches there is one for each whole batch of them, the cycles between its two
  -- readings divided by the batch.
  pub measure_all-eq-measured6 :
      (lookups : ℕ)
      → p.loop_count ≤ p.room
      → p.room < 2 ^ 48
      → 0 < p.batch
      → Returns
          (λ s. s.results ≡ measured6 env p lookups)
          (measure_all env p (start6 env p lookups))
  unfolding measure_all measured6 found
  measure_all-eq-measured6 lookups fits small pos =
      let (rooms_eq, addrs_eq) = rooms p small in
      let s0 = start6 env p lookups in
      elim (Bool-cases (ltb 1 p.batch)) [
        | inr e ↦
            let (s, run, kept) =
              Returns-ok
                (λ s.
                  s.results ≡ ahead env p (time env p e) p.max_loop_count 0 lookups s0.position [])
                (search_loop env p p.max_loop_count s0)
                (single_loop env p e (omega (arith, rooms_eq)) p.max_loop_count 0 s0 refl) in
            rw (run, e)
              (kept ∙ ahead-begin env p (time env p e) p.max_loop_count lookups s0.position)
        | inl e ↦
            let (s, run, (kept, results, readings)) =
              Returns-ok _ (search_loop env p p.max_loop_count s0)
                (many_loop env p e (omega (arith, addrs_eq)) p.max_loop_count 0 s0) in
            let count : length s.addrs ≡ length (found env p lookups) =
              ap length
                (kept ∙ ahead-begin env p (λ h. h.daddr) p.max_loop_count lookups s0.position)
              ∙ length-map (λ h. h.daddr) (found env p lookups) in
            let few : length (found env p lookups) ≤ p.loop_count = length-take_le p.loop_count _ in
            let empty : length s.results * p.batch ≡ 0 = rw results (omega arith) in
            let whole : length s.addrs - 0 ≡ length s.addrs = omega arith in
            rw (run, e)
              (Returns-mono _ _ (batch_loop env p (length s.addrs + 1) 0 s)
                (batch_loop-times (length s.addrs) pos (omega (arith, few, count, rooms_eq))
                  (omega (arith, few, count, small)) (length s.addrs + 1) 0 0 s (omega arith)
                  (omega arith) refl (omega (arith, empty)) (omega (arith, readings)))
                (λ s' g.
                  g
                  ∙ ap (λ r. r ++ batch_times env p ((length s.addrs - 0) / p.batch) 0) results
                  ∙ ap (λ n. batch_times env p (n / p.batch) 0) (whole ∙ count)))
      ]
