-- ===== src/Bench4/Measured.antt =====
-- The loop of `do_bench` (IPv4) measures what it is to measure.
use network_lab.Common.{
  ℕ, zero, suc, ◌+◌, ◌*◌, ◌/◌, ◌≤◌, ◌<◌, ◌≡◌, refl, inl, inr, true, false, not, List, [], ◌∷◌, ◌++◌,
  append_assoc, append-nil, sym, ap, ◌∙◌, ok, Returns, Returns-mono, Returns-ok, arith, leb, leb→le,
  lt→ltb, ◌==◌, ==_iff, ◌==ℤ◌, Bool-cases, if◌then◌else◌, length, length-append,
}
use network_lab.Bench4.{
  Env, Flow, Plan, Loop, elapsed, measure_one, measure_batch, add_to_batch, measure, batched_room,
  begin, round, loop, lookup_batch, any_unreachable,
}
use network_lab.Bench4.Reference.{target, targets, all_reached, cycles, outcome, outcomes}
use network_lab.Bench4.Range.{offset, address-offset}
use network_lab.Bench4.Results.{
  IsSound, Room, record_result-eq, batched_room-eq, round-Room, round-scan, round-no_scan,
  nil_of_length,
}

-- The search among the results of a batch finds nothing where each of its lookups found a network.
any_unreachable_iff :
    (env : Env) (n : ℕ) (batch : List Flow)
    → any_unreachable env (lookup_batch env n batch) ≡ not (all_reached env n batch)
unfolding any_unreachable lookup_batch all_reached
any_unreachable_iff env n [] = refl
any_unreachable_iff env n (f ∷ fs) =
    let rest = any_unreachable_iff env (n + 1) fs in
    elim (Bool-cases (env.fib_lookup n f ==ℤ env.net_unreachable)) [
      | inl e ↦ rw e refl
      | inr e ↦ rw e rest
    ]

elapsed-eq-cycles : (env : Env) (n : ℕ) → elapsed env n ≡ cycles env n
unfolding elapsed cycles
elapsed-eq-cycles env n = refl

module _ (env : Env) (p : Plan) where
  -- The state behind a flow that is looked up or waits.
  unfoldable after : Loop → Loop
  unfolding outcome
  after s =
      let batch = s.batched ++ s.flow ∷ [] in
      if length batch == p.batch
      then record s {
        results = s.results ++ outcome env p s.lookups s.readings batch;
        batched = [];
        lookups = s.lookups + p.batch;
        readings = s.readings + 2;
      }
      else record s { batched = batch }

  -- The flow differs from that of the plan in the address at most.
  abbrev IsAhead : Loop → Type 0
  IsAhead s = (s.flow ≡ record p.flow { daddr = s.flow.daddr }) × (p.scan ≡ false → s.flow ≡ p.flow)

  unfoldable ahead : Loop → List Flow → List ℕ
  unfolding outcomes
  ahead s fs = s.results ++ outcomes env p s.lookups s.readings s.batched fs

  target-no_scan : (i : ℕ) → p.scan ≡ false → target env p i ≡ p.flow ∷ []
  unfolding target
  target-no_scan i e = simp e

  module _ (i : ℕ) (e : p.scan ≡ true) where
    abbrev daddr : ℕ
    daddr = env.htonl (env.ntohl p.start + offset env p i)

    target-loopback : env.is_loopback daddr ≡ true → target env p i ≡ []
    unfolding target
    target-loopback b = simp (e, b)

    target-address :
        env.is_loopback daddr ≡ false → target env p i ≡ (record p.flow { daddr = daddr }) ∷ []
    unfolding target
    target-address b = simp (e, b)

  module _ (sound : IsSound env p) where
    add_to_batch-after :
        (i : ℕ) (s : Loop) → i < p.count → Room p i s → add_to_batch env p s ≡ ok (after s)
    unfolding add_to_batch measure_batch after outcome
    add_to_batch-after i s h r =
        let fits =
          lt→ltb (length s.batched) (batched_room env p)
            (omega (arith, r.partial, batched_room-eq env p sound)) in
        let batch = s.batched ++ s.flow ∷ [] in
        let grown : length batch ≡ length s.batched + 1 =
          omega (arith, length-append s.batched (s.flow ∷ [])) in
        let s' : Loop = record s {
          batched = [];
          lookups = s.lookups + p.batch;
          readings = s.readings + 2;
        } in
        rw fits (elim (Bool-cases (length batch == p.batch)) [
          | inr e ↦ rw e refl
          | inl e ↦
              let e' = (==_iff (length batch) p.batch).0 e in
              let full : length s.results * p.batch + p.batch ≤ i + 1 =
                omega (arith, r.rounds, grown, e') in
              rw (e, any_unreachable_iff env s.lookups batch, elapsed-eq-cycles env s.readings)
                (elim (Bool-cases (all_reached env s.lookups batch)) [
                  | inr u ↦ rw u (rw (append-nil s.results) refl)
                  | inl u ↦
                      rw u
                        (record_result-eq env p sound i (cycles env s.readings / p.batch) s' h full)
                ])
        ])

    measure_one-after :
        (i : ℕ) (s : Loop)
        → p.batch ≡ 1
        → i < p.count
        → Room p i s
        → measure_one env p s ≡ ok (after s)
    unfolding measure_one after outcome all_reached
    measure_one-after i s one h r =
        let empty : s.batched ≡ [] = nil_of_length s.batched (omega (arith, r.partial)) in
        let s' : Loop = record s { lookups = s.lookups + 1; readings = s.readings + 2 } in
        let full : length s.results * p.batch + p.batch ≤ i + 1 = omega (arith, r.rounds) in
        let whole : cycles env s.readings / 1 ≡ cycles env s.readings = omega arith in
        rw (elapsed-eq-cycles env s.readings)
          (elim (Bool-cases (env.fib_lookup s.lookups s.flow ==ℤ env.net_unreachable)) [
            | inl e ↦ rw (e, empty, one) (rw e (rw (append-nil s.results) refl))
            | inr e ↦
                rw (e, record_result-eq env p sound i (cycles env s.readings) s' h full)
                  (rw (empty, one) (rw (e, whole) refl))
          ])

    measure-after : (i : ℕ) (s : Loop) → i < p.count → Room p i s → measure env p s ≡ ok (after s)
    unfolding measure
    measure-after i s h r = elim (Bool-cases (leb p.batch 1)) [
      | inl e ↦
          let small = leb→le p.batch 1 e in
          let pos = sound.batch_pos in rw e (measure_one-after i s (omega arith) h r)
      | inr e ↦ rw e (add_to_batch-after i s h r)
    ]

    -- A round at a time: the results of the loop are those so far and the outcomes of what is to come.
    ahead-after : (s : Loop) (fs : List Flow) → ahead (after s) fs ≡ ahead s (s.flow ∷ fs)
    unfolding ahead after outcomes
    ahead-after s fs = elim (Bool-cases (length (s.batched ++ s.flow ∷ []) == p.batch)) [
      | inl e ↦
          rw e (
            append_assoc s.results (outcome env p s.lookups s.readings (s.batched ++ s.flow ∷ []))
              _)
      | inr e ↦ rw e refl
    ]

    after-IsAhead : (s : Loop) → IsAhead s → IsAhead (after s)
    unfolding after
    after-IsAhead s h = elim (Bool-cases (length (s.batched ++ s.flow ∷ []) == p.batch)) [
      | inl e ↦ rw e h
      | inr e ↦ rw e h
    ]

    round-target :
        (i : ℕ) (s : Loop) (fs : List Flow)
        → i < p.count
        → Room p i s
        → IsAhead s
        → Returns
            (λ s'. IsAhead s' × (ahead s' fs ≡ ahead s (target env p i ++ fs)))
            (round env p i s)
    unfolding ahead
    round-target i s fs h r a = elim (Bool-cases p.scan) [
      | inr e ↦
          rw (round-no_scan env p sound i s e, measure-after i s h r, target-no_scan i e)
            (after-IsAhead s a, ahead-after s fs ∙ ap (λ (f : Flow). ahead s (f ∷ fs)) (a.1 e))
      | inl e ↦
          let daddr = env.htonl (env.ntohl p.start + offset env p i) in
          let found = address-offset env p sound.fits i (sound.range e) h in
          rw (round-scan env p sound i daddr s e found) (elim (Bool-cases (env.is_loopback daddr)) [
            | inl b ↦ rw (b, target-loopback i e b) (a, refl)
            | inr b ↦
                let s' : Loop = record s { flow = record s.flow { daddr = daddr } } in
                let r' : Room p i s' = record { rounds = r.rounds; partial = r.partial } in
                let same : s'.flow ≡ record p.flow { daddr = daddr } =
                  ap (λ (f : Flow). record f { daddr = daddr }) a.0 in
                rw (b, measure-after i s' h r', target-address i e b)
                  (
                    after-IsAhead s' (same, λ f. absurd (cc)),
                    ahead-after s' fs ∙ ap (λ (f : Flow). ahead s (f ∷ fs)) same,
                  )
          ])
    ]

    loop-targets :
        (rounds i : ℕ) (s : Loop)
        → i + rounds ≡ p.count
        → Room p i s
        → IsAhead s
        → Returns (λ s'. s'.results ≡ ahead s (targets env p rounds i)) (loop env p rounds i s)
    unfolding loop targets ahead outcomes
    loop-targets zero i s e r a = sym (append-nil s.results)
    loop-targets (suc rounds) i s e r a =
        let fs = targets env p rounds (i + 1) in
        let (s', run, (a', same)) =
          Returns-ok (λ s'. IsAhead s' × (ahead s' fs ≡ ahead s (target env p i ++ fs)))
            (round env p i s) (round-target i s fs (omega arith) r a) in
        let r' = rw run at (round-Room env p sound i s (omega arith) r) in
        rw run (
          Returns-mono (λ s''. s''.results ≡ ahead s' fs) _ (loop env p rounds (i + 1) s')
            (loop-targets rounds (i + 1) s' (omega arith) r' a') (λ s'' h. h ∙ same))

    -- Under a sound plan (a batch of at least 1, fewer than 2 ^ 60 rounds, flows of a batch whose
    -- size does not wrap, a range that is not empty wherever it is scanned and does not wrap), the
    -- loop ends without a fault, and its results are those of an independent description: of the
    -- flows of all rounds, in order and without loopback addresses, each whole batch whose lookups
    -- all find a network has one result, the cycles between its two readings divided by the batch.
    pub loop-eq-outcomes :
        (n : ℕ)
        → Returns
            (λ s. s.results ≡ outcomes env p n 0 [] (targets env p p.count 0))
            (loop env p p.count 0 (begin env p n))
    unfolding ahead outcomes
    loop-eq-outcomes n =
        loop-targets p.count 0 (begin env p n) (omega arith)
          (record { rounds = omega arith; partial = sound.batch_pos }) (refl, λ e. refl)
