-- ===== src/Bench6/Search.antt =====
-- The loop that searches addresses in `do_bench` of the IPv6 module.
use network_lab.Common.{
  ℕ, zero, suc, ◌≤◌, ◌<◌, ◌≡◌, [], ◌∷◌, Returns, Returns-bind, arith, length, length-append, ltb,
  leb, Bool-cases, inl, inr, if◌then◌else◌, true, false, Bool, refl,
}
use network_lab.Addr6.{next_address, Position}
use network_lab.Bench6.{
  Env6, Plan6, Run6, search_round, search_loop, record_value, collect_address, measure_lookup,
  route, dst_release, elapsed6, total6, results_room, addrs_room,
}

module _ (env : Env6) (p : Plan6) where
  -- Between two rounds of the search: no destination is held, and only one of the arrays fills.
  pub record Searched (s : Run6) : Type 0 where
    pub free : s.held ≡ 0
    pub addrs_le : length s.addrs ≤ p.loop_count
    pub results_le : length s.results ≤ p.loop_count
    pub alone : 1 < p.batch → length s.results ≡ 0

  abbrev pub move : Bool → Position → Run6 → Run6
  move scan q s = if scan then record s { position = q } else s

  move-Searched :
      (scan : Bool) (q : Position) (s : Run6)
      → Searched s
      → Searched (move scan q s)
        × ((move scan q s).addrs ≡ s.addrs)
        × ((move scan q s).results ≡ s.results)
  move-Searched true q s i = (
    record { free = i.free; addrs_le = i.addrs_le; results_le = i.results_le; alone = i.alone },
    refl,
    refl,
  )
  move-Searched false q s i = (i, refl, refl)

  module _ (fits : p.loop_count ≤ results_room p) (fits_addrs : p.loop_count ≤ addrs_room p) where
    collect_address-Searched :
        (s : Run6)
        → Searched s
        → length s.addrs < p.loop_count
        → Returns Searched (collect_address env p s)
    unfolding collect_address route dst_release
    collect_address-Searched s i h = ground (
      arith,
      fits_addrs,
      i.free,
      i.results_le,
      i.alone,
      length-append s.addrs (s.position.daddr ∷ []),
    )

    measure_lookup-Searched :
        (s : Run6)
        → Searched s
        → p.batch ≤ 1
        → length s.results < p.loop_count
        → Returns Searched (measure_lookup env p s)
    unfolding measure_lookup record_value route dst_release
    measure_lookup-Searched s i b h =
        ground (arith, fits, i.free, i.addrs_le, length-append s.results (elapsed6 env p s ∷ []))

    search_round-Searched :
        (s : Run6)
        → Searched s
        → total6 env p s < p.loop_count
        → Returns Searched (search_round env p s)
    unfolding search_round total6
    search_round-Searched s i h =
        let q = next_address p.first p.last p.delta s.position in
        let s' = move p.scan q s in
        let (i', addrs, results) = move-Searched p.scan q s i in
        elim (Bool-cases (ltb 1 p.batch)) [
          | inl e ↦ rw e (collect_address-Searched s' i' (rw addrs (rw e at h)))
          | inr e ↦
              rw e (measure_lookup-Searched s' i' (ground (arith, e)) (rw results (rw e at h)))
        ]

    pub search_loop-Searched :
        (rounds : ℕ) (s : Run6) → Searched s → Returns Searched (search_loop env p rounds s)
    unfolding search_loop
    search_loop-Searched zero s i = i
    search_loop-Searched (suc rounds) s i = elim (Bool-cases (leb p.loop_count (total6 env p s))) [
      | inl e ↦ rw e i
      | inr e ↦ rw e (
          Returns-bind Searched Searched (search_round env p s) (search_loop env p rounds)
            (search_round-Searched s i (ground (arith, e))) (search_loop-Searched rounds))
    ]
