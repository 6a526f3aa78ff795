-- ===== src/Bench6/Sum.antt =====
-- The sum that the loops of `do_bench` (IPv6) keep in `average`.
use network_lab.Common.{
  ℕ, zero, suc, ◌+◌, ◌/◌, ◌%◌, ◌^◌, ◌≡◌, ap, ◌∙◌, inl, inr, [], ◌∷◌, ok, IfOk, IfOk-bind, IfOk-ok,
  IfOk-any, Bool-cases, arith, ltb, leb, length, sum, sum-append, ◌==ℤ◌,
}
use network_lab.Addr6.{next_address}
use network_lab.Bench6.{
  Env6, Plan6, Run6, search_round, search_loop, record_value, collect_address, measure_lookup,
  fill_batch, route_batch, release_batch, batch_round, batch_loop, measure_all, start6, route,
  dst_release, elapsed6, total6, current, results_room, addrs_room,
}
use network_lab.Bench6.Search.{move}
use network_lab.Bench6.Batches.{route_batch-Same, release_batch-Same}

-- `average` is the sum of the results, in 64 bits.
abbrev pub Averaged : Run6 → Type 0
Averaged s = s.average ≡ sum s.results % 2 ^ 64

module _ (env : Env6) (p : Plan6) where
  record_value-Averaged : (v : ℕ) (s : Run6) → Averaged s → IfOk Averaged (record_value env p v s)
  unfolding record_value
  record_value-Averaged v s a = elim (Bool-cases (ltb (length s.results) (results_room p))) [
    | inl e ↦ rw e (omega (arith, a, sum-append s.results (v ∷ [])))
    | inr e ↦ rw e tt
  ]

  search_round-Averaged : (s : Run6) → Averaged s → IfOk Averaged (search_round env p s)
  unfolding search_round collect_address measure_lookup route dst_release
  search_round-Averaged s a =
      let q = next_address p.first p.last p.delta s.position in
      let s' = move env p p.scan q s in
      let kept : Averaged s' = ground (arith, a) in
      let unreachable = env.route_error s'.lookups (current env p s') ==ℤ env.net_unreachable in
      elim (Bool-cases (ltb 1 p.batch)) [
        | inl e ↦ rw e (elim (Bool-cases unreachable) [
          | inl u ↦ rw u kept
          | inr u ↦ rw u (elim (Bool-cases (ltb (length s'.addrs) (addrs_room p))) [
            | inl r ↦ rw r kept
            | inr r ↦ rw r tt
          ])
        ])
        | inr e ↦ rw e (elim (Bool-cases unreachable) [
          | inl u ↦ rw u kept
          | inr u ↦ rw u (record_value-Averaged _ _ kept)
        ])
      ]

  search_loop-Averaged :
      (rounds : ℕ) (s : Run6) → Averaged s → IfOk Averaged (search_loop env p rounds s)
  unfolding search_loop
  search_loop-Averaged zero s a = a
  search_loop-Averaged (suc rounds) s a = elim (Bool-cases (leb p.loop_count (total6 env p s))) [
    | inl e ↦ rw e a
    | inr e ↦ rw e (
        IfOk-bind Averaged Averaged (search_round env p s) (search_loop env p rounds)
          (search_round-Averaged s a) (search_loop-Averaged rounds))
  ]

  batch_round-Averaged : (i : ℕ) (s : Run6) → Averaged s → IfOk Averaged (batch_round env p i s)
  unfolding batch_round
  batch_round-Averaged i s a =
      IfOk-bind (λ flows. Unit {0}) Averaged (fill_batch env p p.batch i s.addrs) _
        (IfOk-any (fill_batch env p p.batch i s.addrs))
        (λ flows t.
          let routed = route_batch-Same env p flows s in
          let s1 = route_batch env p flows s in
          let released = release_batch-Same env p p.batch s1 in
          let same_sum = ap sum (released.results ∙ routed.results) in
          record_value-Averaged (elapsed6 env p s / p.batch)
            (record (release_batch env p p.batch s1) { readings = s.readings + 2 })
            (omega (arith, a, same_sum, released.average, routed.average)))

  batch_loop-Averaged :
      (fuel i : ℕ) (s : Run6) → Averaged s → IfOk Averaged (batch_loop env p fuel i s)
  unfolding batch_loop
  batch_loop-Averaged zero i s a = tt
  batch_loop-Averaged (suc fuel) i s a = elim (Bool-cases (leb (i + p.batch) (length s.addrs))) [
    | inl e ↦ rw e (
        IfOk-bind Averaged Averaged (batch_round env p i s) (batch_loop env p fuel (i + p.batch))
          (batch_round-Averaged i s a) (batch_loop-Averaged fuel (i + p.batch)))
    | inr e ↦ rw e a
  ]

  pub measure_all-Averaged :
      (lookups : ℕ) (s : Run6)
      → measure_all env p (start6 env p lookups) ≡ ok s
      → s.average ≡ sum s.results % 2 ^ 64
  unfolding measure_all
  measure_all-Averaged lookups s e =
      IfOk-ok Averaged (measure_all env p (start6 env p lookups)) s e (
        IfOk-bind Averaged Averaged (search_loop env p p.max_loop_count (start6 env p lookups)) _
          (search_loop-Averaged p.max_loop_count (start6 env p lookups) (omega arith))
          (λ s' a. elim (Bool-cases (ltb 1 p.batch)) [
            | inl many ↦ rw many (batch_loop-Averaged (length s'.addrs + 1) 0 s' a)
            | inr one ↦ rw one a
          ]))
