-- ===== src/Bench6/Batches.antt =====
-- The loop over the batches in `do_bench` of the IPv6 module.
use native.Mathlib.Nat.{mul-div_right, mul-le-mul}
use network_lab.Common.{
  ℕ, zero, suc, ◌+◌, ◌-◌, ◌*◌, ◌≤◌, ◌<◌, ◌≡◌, List, [], ◌∷◌, ok, Returns, Returns-bind, arith,
  length, length-append, get_elem?-some, leb, Bool-cases, inl, inr, lt→ltb, ◌+◌, ap, ◌∙◌, ◌++◌, ◌/◌,
  refl, ◌%◌, ◌^◌,
}
use network_lab.Addr6.{Words}
use network_lab.Bench6.{
  Env6, Plan6, Run6, Flow6, record_value, fill_batch, route_batch, release_batch, batch_round,
  batch_loop, route, dst_release, flows_room, elapsed6, results_room,
}

module _ (env : Env6) (p : Plan6) where
  flows_room-eq : p.batch < 2 ^ 48 → flows_room env p ≡ p.batch
  unfolding flows_room
  flows_room-eq small =
      let size = env.flow_size_lt in
      let product : env.flow_size * p.batch ≤ (2 ^ 16 - 1) * (2 ^ 48 - 1) =
        mul-le-mul {n₂ = 2 ^ 16 - 1} {m₂ = 2 ^ 48 - 1} (omega arith) (omega arith) in
      let whole : env.flow_size * p.batch % 2 ^ 64 ≡ env.flow_size * p.batch = omega arith in
      rw whole (mul-div_right p.batch env.flow_size_pos)

  pub fill_batch-Returns :
      p.batch < 2 ^ 48
      → (rounds i : ℕ) (addrs : List Words) → rounds ≤ p.batch
      → i + rounds ≤ length addrs
      → Returns (λ flows. length flows ≡ rounds) (fill_batch env p rounds i addrs)
  unfolding fill_batch
  fill_batch-Returns bound zero i addrs few h = omega arith
  fill_batch-Returns bound (suc rounds) i addrs few h =
      let (a, e) = get_elem?-some addrs i (omega arith) in
      let room =
        lt→ltb (p.batch - suc rounds) (flows_room env p)
          (omega (arith, few, flows_room-eq bound)) in
      rw (e, fill_batch, room)
        (Returns-bind (λ flows. length flows ≡ rounds) (λ flows. length flows ≡ suc rounds)
          (fill_batch env p rounds (i + 1) addrs)
          (λ flows. ok (record p.flow { daddr = a } ∷ flows))
          (fill_batch-Returns bound rounds (i + 1) addrs (omega arith) (omega arith))
          (λ flows l. omega (arith, l)))

  -- A batch holds a destination for each of its flows, and releases them all.
  pub record Same (s s' : Run6) (left : ℕ) : Type 0 where
    pub results : s'.results ≡ s.results
    pub average : s'.average ≡ s.average
    pub addrs : s'.addrs ≡ s.addrs
    pub held : s'.held ≡ left

  pub route_batch-Same :
      (flows : List Flow6) (s : Run6) → Same s (route_batch env p flows s) (s.held + length flows)
  unfolding route_batch route
  route_batch-Same [] s = record {
    results = refl;
    average = refl;
    addrs = refl;
    held = omega arith;
  }
  route_batch-Same (f ∷ flows) s =
      let rest = route_batch-Same flows (record s { lookups = s.lookups + 1; held = s.held + 1 }) in
      record {
        results = rest.results;
        average = rest.average;
        addrs = rest.addrs;
        held = omega (arith, rest.held);
      }

  pub release_batch-Same :
      (rounds : ℕ) (s : Run6) → Same s (release_batch env p rounds s) (s.held - rounds)
  unfolding release_batch dst_release
  release_batch-Same zero s = record {
    results = refl;
    average = refl;
    addrs = refl;
    held = omega arith;
  }
  release_batch-Same (suc rounds) s =
      let rest = release_batch-Same rounds (record s { held = s.held - 1 }) in
      record {
        results = rest.results;
        average = rest.average;
        addrs = rest.addrs;
        held = omega (arith, rest.held);
      }

  -- Between two batches: each result stands for a whole batch of the addresses before `i`.
  pub record Batched (total i : ℕ) (s : Run6) : Type 0 where
    pub free : s.held ≡ 0
    pub count : length s.addrs ≡ total
    pub results : length s.results * p.batch ≡ i
    pub inside : i ≤ total

  module _ (total : ℕ) (fits : total ≤ results_room p) (bounded : total < 2 ^ 48)
      (many : 1 < p.batch) where
    record_value-Batched :
        (v i : ℕ) (s : Run6)
        → Batched total i s
        → i + p.batch ≤ total
        → Returns (Batched total (i + p.batch)) (record_value env p v s)
    unfolding record_value
    record_value-Batched v i s b h =
        let free = b.free in
        let le = b.count in
        let whole : (length s.results + 1) * p.batch ≡ i + p.batch = grind (arith, b.results) in
        let room : length s.results < results_room p = grind (arith, whole) in
        let more : length (s.results ++ v ∷ []) ≡ length s.results + 1 =
          omega (arith, length-append s.results (v ∷ [])) in
        rw (lt→ltb _ _ room)
          (record { free = free; count = le; results = rw more whole; inside = h })

    batch_round-Batched :
        (i : ℕ) (s : Run6)
        → Batched total i s
        → i + p.batch ≤ total
        → Returns (Batched total (i + p.batch)) (batch_round env p i s)
    unfolding batch_round
    batch_round-Batched i s b h =
        Returns-bind (λ flows. length flows ≡ p.batch) (Batched total (i + p.batch))
          (fill_batch env p p.batch i s.addrs) _
          (fill_batch-Returns (omega arith) p.batch i s.addrs (omega arith)
            (omega (arith, b.count, h)))
          (λ flows l.
            let routed = route_batch-Same flows s in
            let s1 = route_batch env p flows s in
            let released = release_batch-Same p.batch s1 in
            let same_addrs = released.addrs ∙ routed.addrs in
            let same_results = released.results ∙ routed.results in
            let count : length (release_batch env p p.batch s1).addrs ≡ length s.addrs =
              ap length same_addrs in
            let written : length (release_batch env p p.batch s1).results ≡ length s.results =
              ap length same_results in
            record_value-Batched (elapsed6 env p s / p.batch) i
              (record (release_batch env p p.batch s1) { readings = s.readings + 2 })
              (record {
                free = omega (arith, l, routed.held, released.held, b.free);
                count = omega (arith, count, b.count);
                results = rw written b.results;
                inside = b.inside;
              })
              h)

    pub batch_loop-Batched :
        (fuel i : ℕ) (s : Run6)
        → total - i < fuel
        → Batched total i s
        → Returns
            (λ s'. (s'.held ≡ 0) × (length s'.results * p.batch ≤ total))
            (batch_loop env p fuel i s)
    unfolding batch_loop
    batch_loop-Batched zero i s h b = absurd (omega arith)
    batch_loop-Batched (suc fuel) i s h b =
        let more = b.count in
        elim (Bool-cases (leb (i + p.batch) (length s.addrs))) [
          | inl e ↦
              let next : i + p.batch ≤ total = ground (arith, e, more) in
              rw e (
                Returns-bind (Batched total (i + p.batch))
                  (λ s'. (s'.held ≡ 0) × (length s'.results * p.batch ≤ total))
                  (batch_round env p i s) (batch_loop env p fuel (i + p.batch))
                  (batch_round-Batched i s b next)
                  (λ s' b'. batch_loop-Batched fuel (i + p.batch) s' (omega arith) b'))
          | inr e ↦ rw e (b.free, omega (arith, b.results, b.inside))
        ]
