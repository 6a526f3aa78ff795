-- ===== src/Bench6/Measured.antt =====
-- The search of `do_bench` (IPv6) keeps the hits that it is to keep.
use network_lab.Common.{
  ℕ, zero, suc, ◌+◌, ◌*◌, ◌≤◌, ◌<◌, ◌≡◌, refl, ap, sym, ◌∙◌, inl, inr, Bool, true, false, List, [],
  ◌∷◌, ◌++◌, append-nil, ◌==ℤ◌, ltb, leb, lt→ltb, Bool-cases, if◌then◌else◌, length, leb→le,
  Returns, Returns-mono, Returns-ok, arith,
}
use network_lab.Addr6.{next_address}
use network_lab.Bench6.{
  Env6, Plan6, Run6, search_round, search_loop, record_value, collect_address, measure_lookup,
  route, dst_release, current, elapsed6, total6, results_room, addrs_room,
}
use network_lab.Bench6.Reference.{Hit, moved, is_reached, cycles}
use network_lab.Bench6.Ahead.{ahead, ahead-full, ahead-zero, ahead-next}
use network_lab.Bench6.Search.{move}

module _ (env : Env6) (p : Plan6) where
  move-moved :
      (scan : Bool) (s : Run6)
      → move env p scan (next_address p.first p.last p.delta s.position) s
        ≡ record s { position = moved env p scan s.position }
  move-moved true s = refl
  move-moved false s = refl

  -- The state at the address of the round.
  abbrev arrived : Run6 → Run6
  arrived s = record s { position = moved env p p.scan s.position }

  search_round-arrived :
      (s : Run6)
      → search_round env p s ≡ (
          if ltb 1 p.batch
          then collect_address env p (arrived s)
          else measure_lookup env p (arrived s))
  unfolding search_round
  search_round-arrived s =
      ap (λ s'. if ltb 1 p.batch then collect_address env p s' else measure_lookup env p s')
        (move-moved p.scan s)

  -- What a round does, but for what it keeps.
  record Stepped (s s' : Run6) (readings : ℕ) : Type 0 where
    position : s'.position ≡ moved env p p.scan s.position
    lookups : s'.lookups ≡ s.lookups + 1
    readings_lem : s'.readings ≡ s.readings + readings

  -- A round from `s` keeps `b` if its lookup finds a network.
  abbrev IsKept : {B : Type 0} → Run6 → B → (kept next : List B) → Type 0
  IsKept s b kept next =
      next
      ≡ kept ++ (if is_reached env p s.lookups (moved env p p.scan s.position) then b ∷ [] else [])

  module _ (single : ltb 1 p.batch ≡ false) where
    total6-single : (s : Run6) → total6 env p s ≡ length s.results
    unfolding total6
    total6-single s = rw single refl

    single_round :
        (s : Run6)
        → length s.results < results_room p
        → Returns
            (λ s'. Stepped s s' 2 × IsKept s (cycles env p s.readings) s.results s'.results)
            (search_round env p s)
    unfolding measure_lookup record_value current route dst_release elapsed6 is_reached cycles
    single_round s room =
        let q = moved env p p.scan s.position in
        let here = lt→ltb _ _ room in
        rw (search_round-arrived s, single)
          (elim (Bool-cases (
            env.route_error s.lookups (record p.flow { daddr = q.daddr })
            ==ℤ env.net_unreachable)) [
              | inl e ↦ rw e (
                record { position = refl; lookups = refl; readings_lem = refl },
                sym (append-nil s.results),
              )
              | inr e ↦
                  rw (e, here)
                    (record { position = refl; lookups = refl; readings_lem = refl }, refl)
            ])

    -- The time of a hit.
    abbrev pub time : Hit → ℕ
    time h = cycles env p (2 * h.tried)

    pub single_loop :
        p.loop_count ≤ results_room p
        → (rounds tried : ℕ) (s : Run6) → s.readings ≡ 2 * tried
        → Returns
            (λ s'. s'.results ≡ ahead env p time rounds tried s.lookups s.position s.results)
            (search_loop env p rounds s)
    unfolding search_loop
    single_loop fits zero tried s r = ahead-zero env p time tried s.lookups s.position s.results
    single_loop fits (suc rounds) tried s r =
        elim (Bool-cases (leb p.loop_count (length s.results))) [
          | inl e ↦
              rw (total6-single s, e)
                (sym (
                  ahead-full env p time (suc rounds) tried s.lookups s.position s.results
                    (leb→le _ _ e)))
          | inr e ↦
              let below : length s.results < p.loop_count = ground arith in
              let (s', run, (st, kept)) =
                Returns-ok
                  (λ s'. Stepped s s' 2 × IsKept s (cycles env p s.readings) s.results s'.results)
                  (search_round env p s) (single_round s (omega (arith, fits))) in
              let readings : s'.readings ≡ 2 * (tried + 1) = omega (arith, st.readings_lem, r) in
              let rest =
                rw (st.lookups, st.position) at (single_loop fits rounds (tried + 1) s' readings) in
              let time_eq = ap (cycles env p) r in
              rw (total6-single s, e, run)
                (Returns-mono _ _ (search_loop env p rounds s') rest (λ s'' h.
                  h
                  ∙ ahead-next env p time rounds tried s.lookups s.position s.results below
                      s'.results (cycles env p s.readings) time_eq kept))
        ]

  module _ (many : ltb 1 p.batch ≡ true) where
    total6-many : (s : Run6) → total6 env p s ≡ length s.addrs
    unfolding total6
    total6-many s = rw many refl

    many_round :
        (s : Run6)
        → length s.addrs < addrs_room p
        → Returns
            (λ s'.
              Stepped s s' 0
              × (s'.results ≡ s.results)
              × IsKept s (moved env p p.scan s.position).daddr s.addrs s'.addrs)
            (search_round env p s)
    unfolding collect_address current route dst_release is_reached
    many_round s room =
        let q = moved env p p.scan s.position in
        let here = lt→ltb _ _ room in
        rw (search_round-arrived s, many)
          (elim (Bool-cases (
            env.route_error s.lookups (record p.flow { daddr = q.daddr })
            ==ℤ env.net_unreachable)) [
              | inl e ↦ rw e (
                record { position = refl; lookups = refl; readings_lem = omega arith },
                refl,
                sym (append-nil s.addrs),
              )
              | inr e ↦
                  rw (e, here)
                    (
                      record { position = refl; lookups = refl; readings_lem = omega arith },
                      refl,
                      refl,
                    )
            ])

    pub many_loop :
        p.loop_count ≤ addrs_room p
        → (rounds tried : ℕ) (s : Run6)
        → Returns
            (λ s'.
              (s'.addrs ≡ ahead env p (λ h. h.daddr) rounds tried s.lookups s.position s.addrs)
              × (s'.results ≡ s.results)
              × (s'.readings ≡ s.readings))
            (search_loop env p rounds s)
    unfolding search_loop
    many_loop fits zero tried s =
        (ahead-zero env p (λ h. h.daddr) tried s.lookups s.position s.addrs, refl, refl)
    many_loop fits (suc rounds) tried s = elim (Bool-cases (leb p.loop_count (length s.addrs))) [
      | inl e ↦
          rw (total6-many s, e)
            (
              sym (
                  ahead-full env p (λ h. h.daddr) (suc rounds) tried s.lookups s.position s.addrs
                    (leb→le _ _ e)),
              refl,
              refl,
            )
      | inr e ↦
          let below : length s.addrs < p.loop_count = ground arith in
          let q = moved env p p.scan s.position in
          let (s', run, (st, same, kept)) =
            Returns-ok
              (λ s'. Stepped s s' 0 × (s'.results ≡ s.results) × IsKept s q.daddr s.addrs s'.addrs)
              (search_round env p s) (many_round s (omega (arith, fits))) in
          let rest = rw (st.lookups, st.position) at (many_loop fits rounds (tried + 1) s') in
          let readings : s'.readings ≡ s.readings = omega (arith, st.readings_lem) in
          rw (total6-many s, e, run)
            (Returns-mono _ _ (search_loop env p rounds s') rest (λ s'' h. (
              h.0
                  ∙ ahead-next env p (λ h. h.daddr) rounds tried s.lookups s.position s.addrs below
                      s'.addrs q.daddr refl kept,
              h.1 ∙ same,
              h.2 ∙ readings,
            )))
    ]
