-- ===== src/Bench6/Safety.antt =====
-- The bounds of the arrays of the IPv6 benchmark, and the references on destinations.
use network_lab.Common.{
  ℕ, zero, suc, ◌+◌, ◌-◌, ◌*◌, ◌≤◌, ◌<◌, ◌≡◌, [], ◌∷◌, fault, Returns, Returns-bind, Returns-mono,
  arith, length, length-append, ltb, leb, Bool-cases, inl, inr, lt→ltb, ltb→lt, ltb_false→le,
  le→ltb_false, bad_write, ◌==ℤ◌, Returns-ok, false, refl, ◌^◌,
}
use network_lab.Addr6.{next_address}
use network_lab.Bench6.{
  Env6, Plan6, Run6, Flow6, search_loop, record_value, measure_lookup, batch_loop, measure_all,
  start6, route, dst_release, elapsed6, total6, current, Warmup6, warm6, broken6, warmup6,
  results_room, addrs_room,
}
use network_lab.Bench6.Search.{Searched, search_loop-Searched, move}
use network_lab.Bench6.Batches.{batch_loop-Batched}

-- Before the search: no destination is held, and the arrays are empty.
pub record Fresh (s : Run6) : Type 0 where
  pub free : s.held ≡ 0
  pub addrs : length s.addrs ≡ 0
  pub results : length s.results ≡ 0

-- The sizes that are asked for do not wrap below 2 ^ 48 entries.
pub rooms : (p : Plan6) → p.room < 2 ^ 48 → (results_room p ≡ p.room) × (addrs_room p ≡ p.room)
unfolding results_room addrs_room
rooms p small = (omega arith, omega arith)

module _ (env : Env6) (p : Plan6) where
  pub measure_all-Fresh :
      (s0 : Run6)
      → p.loop_count ≤ p.room
      → p.room < 2 ^ 48
      → 0 < p.batch
      → Fresh s0
      → Returns
          (λ s. (s.held ≡ 0) × (length s.results * p.batch ≤ p.loop_count))
          (measure_all env p s0)
  unfolding measure_all
  measure_all-Fresh s0 fits small pos f =
      let (rooms_eq, addrs_eq) = rooms p small in
      Returns-bind (Searched env p)
        (λ s. (s.held ≡ 0) × (length s.results * p.batch ≤ p.loop_count))
        (search_loop env p p.max_loop_count s0) _
        (search_loop-Searched env p (omega (arith, rooms_eq)) (omega (arith, addrs_eq))
          p.max_loop_count s0
          (record {
            free = f.free;
            addrs_le = omega (arith, f.addrs);
            results_le = omega (arith, f.results);
            alone = λ m. f.results;
          }))
        (λ s i. elim (Bool-cases (ltb 1 p.batch)) [
          | inl e ↦
              let many : 1 < p.batch = ltb→lt _ _ e in
              let empty = i.alone many in
              let few = i.addrs_le in
              rw e (
                Returns-mono (λ s'. (s'.held ≡ 0) × (length s'.results * p.batch ≤ length s.addrs))
                  (λ s'. (s'.held ≡ 0) × (length s'.results * p.batch ≤ p.loop_count))
                  (batch_loop env p (length s.addrs + 1) 0 s)
                  (batch_loop-Batched env p (length s.addrs) (omega (arith, rooms_eq)) (omega arith)
                    many (length s.addrs + 1) 0 s (omega arith)
                    (record {
                      free = i.free;
                      count = refl;
                      results = grind (arith, empty);
                      inside = omega arith;
                    }))
                  (λ s' h. (h.0, omega (arith, h.1))))
          | inr e ↦
              let one : p.batch ≡ 1 = ground (arith, e) in
              let few = i.results_le in rw e (i.free, rw one (omega (arith, few)))
        ])

  -- Where the arrays were allocated for at least `loop_count` and fewer than 2 ^ 48 entries, and
  -- the batch is at least 1, and whatever the lookups and the cycle counter answer, the IPv6
  -- benchmark goes from its first address to the release of its mutex without a fault: every write
  -- is within its array, and every address of a batch is one that was collected. It ends with no
  -- destination held, and with results for no more lookups than `loop_count`.
  pub measure_all-Returns :
      (lookups : ℕ)
      → p.loop_count ≤ p.room
      → p.room < 2 ^ 48
      → 0 < p.batch
      → Returns
          (λ s. (s.held ≡ 0) × (length s.results * p.batch ≤ p.loop_count))
          (measure_all env p (start6 env p lookups))
  measure_all-Returns lookups fits small pos =
      measure_all-Fresh (start6 env p lookups) fits small pos
        (record { free = omega arith; addrs = omega arith; results = omega arith })

module _ (env : Env6) (p : Plan6) (one : p.batch ≤ 1) where
  -- Every lookup finds a route.
  module _
      (reach : (n : ℕ) (f : Flow6) → (env.route_error n f ==ℤ env.net_unreachable) ≡ false) where
    measure_lookup-ok :
        (s : Run6)
        → length s.results < results_room p
        → Returns (λ s'. length s'.results ≡ length s.results + 1) (measure_lookup env p s)
    unfolding measure_lookup record_value current route dst_release
    measure_lookup-ok s h =
        rw (reach s.lookups (current env p s), lt→ltb _ _ h)
          (omega (arith, length-append s.results (elapsed6 env p s ∷ [])))

    measure_lookup-bad_write :
        (s : Run6) → results_room p ≤ length s.results → measure_lookup env p s ≡ fault bad_write
    unfolding measure_lookup record_value current route dst_release
    measure_lookup-bad_write s h = rw (reach s.lookups (current env p s), le→ltb_false _ _ h) refl

    -- Where `loop_count` is raised between the allocation of the results and the loop that fills
    -- them, every lookup finds a route, no batches are made, and there are more rounds than the
    -- results still have room for, the loop writes behind the array.
    pub search_loop-bad_write :
        (rounds : ℕ) (s : Run6)
        → results_room p < p.loop_count
        → length s.results ≤ results_room p
        → results_room p < length s.results + rounds
        → search_loop env p rounds s ≡ fault bad_write
    unfolding search_loop total6
    search_loop-bad_write zero s raised le many = absurd (omega arith)
    search_loop-bad_write (suc rounds) s raised le many =
        let q = next_address p.first p.last p.delta s.position in
        let s' = move env p p.scan q s in
        let more : leb p.loop_count (length s.results) ≡ false = ground arith in
        let single : ltb 1 p.batch ≡ false = ground arith in
        let same : length s'.results ≡ length s.results = ground arith in
        rw (single, more)
          (elim (Bool-cases (ltb (length s'.results) (results_room p))) [
            | inl e ↦
                let (s3, run, grown) =
                  Returns-ok (λ s3. length s3.results ≡ length s'.results + 1)
                    (measure_lookup env p s') (measure_lookup-ok s' (ltb→lt _ _ e)) in
                rw run (
                  search_loop-bad_write rounds s3 raised (ground (arith, e, grown, same))
                    (omega (arith, grown, same)))
            | inr e ↦ rw (measure_lookup-bad_write s' (ltb_false→le _ _ e)) refl
          ])

-- The variables behind the warm-up, however it ends.
abbrev pub behind : Warmup6 → Run6
behind (warm6 s) = s
behind (broken6 err s) = s

-- The warm-up of the IPv6 benchmark ends with as many destinations held as it started with, whether
-- a lookup fails or not.
pub warmup6-held :
    (env : Env6) (rounds : ℕ) (flow : Flow6) (s : Run6)
    → (behind (warmup6 env rounds flow s)).held ≡ s.held
unfolding warmup6 route dst_release
warmup6-held env zero flow s = refl
warmup6-held env (suc rounds) flow s =
    let s' : Run6 = record s { lookups = s.lookups + 1; held = s.held + 1 - 1 } in
    let rest = warmup6-held env rounds flow s' in ground (arith, rest)
