-- ===== src/Bench4/Results.antt =====
-- The loop of `do_bench` (IPv4) and the arrays that it fills.
use native.Mathlib.Nat.{le-div_iff_mul-le, div-mul-le_self, mul-div_right}
use network_lab.Common.{
  ℕ, zero, suc, ◌+◌, ◌*◌, ◌/◌, ◌%◌, ◌^◌, ◌≤◌, ◌<◌, ◌≡◌, refl, true, false, List, [], ◌∷◌, ◌++◌, ok,
  fault, divide_by_zero, Returns, Returns-bind, Returns-mono, subst, arith, ltb, leb, ◌==◌, ==_iff,
  ◌==ℤ◌, leb→le, lt→ltb, le→ltb_false, Bool-cases, inl, inr, if◌then◌else◌, length, length-append,
}
use network_lab.Bench4.{
  Env, Flow, Plan, Loop, capacity, batched_room, elapsed, record_result, measure_one, add_to_batch,
  order_range, plan, measure, begin, address, round, loop, lookup_batch, any_unreachable,
}
use network_lab.Bench4.Range.{order_range-id, address-InRange}
use network_lab.Sysfs.V4.{Config, IsValid}

-- At the start of round `i`: each result stands for a whole batch of rounds.
pub record Room (p : Plan) (i : ℕ) (s : Loop) : Type 0 where
  pub rounds : length s.results * p.batch + length s.batched ≤ i
  pub partial : length s.batched < p.batch

-- What the configuration and the range guarantee.
pub record IsSound (env : Env) (p : Plan) : Type 0 where
  pub batch_pos : 0 < p.batch
  -- below it the size that `kmalloc` is asked for does not wrap
  pub count_lt : p.count < 2 ^ 60
  -- nor does the size of the flows of a batch
  pub batch_fits : env.flow_size * p.batch < 2 ^ 64
  pub range : p.scan ≡ true → 0 < p.delta
  pub fits : env.ntohl p.start + p.delta < 2 ^ 32

pub nil_of_length : (fs : List Flow) → length fs ≡ 0 → fs ≡ []
nil_of_length [] h = refl
nil_of_length (f ∷ fs) h = absurd (omega arith)

module _ (env : Env) (p : Plan) (sound : IsSound env p) where
  capacity-eq : capacity env p ≡ p.count / p.batch + 1
  unfolding capacity
  capacity-eq =
      let pos = sound.batch_pos in
      let few : p.count / p.batch * p.batch ≤ p.count = div-mul-le_self p.count p.batch in
      let small : p.count / p.batch ≤ p.count = grind arith in
      let fits = sound.count_lt in omega arith

  pub batched_room-eq : batched_room env p ≡ p.batch
  unfolding batched_room
  batched_room-eq =
      let fits = sound.batch_fits in
      let whole : env.flow_size * p.batch % 2 ^ 64 ≡ env.flow_size * p.batch = omega arith in
      rw whole (mul-div_right p.batch env.flow_size_pos)

  -- A batch that ends at round `i` finds room for its result.
  pub record_result-eq :
      (i value : ℕ) (s : Loop)
      → i < p.count
      → length s.results * p.batch + p.batch ≤ i + 1
      → record_result env p value s ≡ ok (record s { results = s.results ++ value ∷ [] })
  unfolding record_result
  record_result-eq i value s h room =
      let pos = sound.batch_pos in
      let below : length s.results + 1 ≤ p.count / p.batch =
        (le-div_iff_mul-le {k = p.batch} {x = length s.results + 1} {y = p.count} pos).1
          (omega arith) in
      let yes_room : ltb (length s.results) (capacity env p) ≡ true =
        lt→ltb _ _ (omega (arith, capacity-eq)) in
      rw yes_room refl

  -- A batch that ends at round `i` leaves room for its result.
  record_result-Room :
      (i value : ℕ) (s : Loop)
      → i < p.count
      → length s.results * p.batch + p.batch ≤ i + 1
      → s.batched ≡ []
      → Returns (Room p (i + 1)) (record_result env p value s)
  record_result-Room i value s h room empty =
      let pos = sound.batch_pos in
      let one : length (s.results ++ value ∷ []) ≡ length s.results + 1 =
        omega (arith, length-append s.results (value ∷ [])) in
      rw (record_result-eq i value s h room)
        (record { rounds = rw (one, empty) (omega arith); partial = rw empty pos })

  measure_one-Room :
      (i : ℕ) (s : Loop)
      → p.batch ≡ 1
      → i < p.count
      → Room p i s
      → Returns (Room p (i + 1)) (measure_one env p s)
  unfolding measure_one
  measure_one-Room i s one h r =
      let empty : s.batched ≡ [] = nil_of_length s.batched (omega (arith, r.partial)) in
      let s' : Loop = record s { lookups = s.lookups + 1; readings = s.readings + 2 } in
      let full : length s.results * p.batch + p.batch ≤ i + 1 = omega (arith, r.rounds) in
      elim (Bool-cases (env.fib_lookup s.lookups s.flow ==ℤ env.net_unreachable)) [
        | inl e ↦ rw e (record { rounds = omega (arith, r.rounds); partial = r.partial })
        | inr e ↦ rw e (record_result-Room i (elapsed env s.readings) s' h full empty)
      ]

  add_to_batch-Room :
      (i : ℕ) (s : Loop)
      → i < p.count
      → Room p i s
      → Returns (Room p (i + 1)) (add_to_batch env p s)
  unfolding add_to_batch
  add_to_batch-Room i s h r =
      let fits =
        lt→ltb (length s.batched) (batched_room env p)
          (omega (arith, r.partial, batched_room-eq)) in
      let grown : length (s.batched ++ s.flow ∷ []) ≡ length s.batched + 1 =
        omega (arith, length-append s.batched (s.flow ∷ [])) in
      let s' : Loop = record s { batched = s.batched ++ s.flow ∷ [] } in
      let s'' : Loop = record s {
        batched = [];
        lookups = s.lookups + p.batch;
        readings = s.readings + 2;
      } in
      rw fits (elim (Bool-cases (length s'.batched == p.batch)) [
        | inl e ↦
            let e' = (==_iff (length s'.batched) p.batch).0 e in
            let full : length s.results * p.batch + p.batch ≤ i + 1 =
              omega (arith, r.rounds, grown, e') in
            rw e (elim (Bool-cases (any_unreachable env (lookup_batch env s.lookups s'.batched))) [
              | inl u ↦ rw u (record { rounds = omega arith; partial = sound.batch_pos })
              | inr u ↦
                  rw u (record_result-Room i (elapsed env s.readings / p.batch) s'' h full refl)
            ])
        | inr e ↦ rw e (record {
          rounds = omega (arith, r.rounds, grown);
          partial = ground (arith, r.partial, grown);
        })
      ])

  pub measure-Room :
      (i : ℕ) (s : Loop) → i < p.count → Room p i s → Returns (Room p (i + 1)) (measure env p s)
  unfolding measure
  measure-Room i s h r = elim (Bool-cases (leb p.batch 1)) [
    | inl e ↦
        let small = leb→le p.batch 1 e in
        let pos = sound.batch_pos in rw e (measure_one-Room i s (omega arith) h r)
    | inr e ↦ rw e (add_to_batch-Room i s h r)
  ]

  pub round-scan :
      (i a : ℕ) (s : Loop)
      → p.scan ≡ true
      → address env p i ≡ ok a
      → round env p i s ≡ (
          if env.is_loopback a
          then ok s
          else measure env p (record s { flow = record s.flow { daddr = a } }))
  unfolding round
  round-scan i a s e f = simp (e, f)

  pub round-no_scan : (i : ℕ) (s : Loop) → p.scan ≡ false → round env p i s ≡ measure env p s
  unfolding round
  round-no_scan i s e = simp e

  pub round-Room :
      (i : ℕ) (s : Loop) → i < p.count → Room p i s → Returns (Room p (i + 1)) (round env p i s)
  round-Room i s h r = elim (Bool-cases p.scan) [
    | inl e ↦
        let (a, found, _, _) = address-InRange env p sound.fits i (sound.range e) h in
        rw (round-scan i a s e found) (elim (Bool-cases (env.is_loopback a)) [
          | inl b ↦ rw b (record { rounds = omega (arith, r.rounds); partial = r.partial })
          | inr b ↦ rw b (
              measure-Room i (record s { flow = record s.flow { daddr = a } }) h
                (record { rounds = r.rounds; partial = r.partial }))
        ])
    | inr e ↦ rw (round-no_scan i s e) (measure-Room i s h r)
  ]

  loop-Room :
      (rounds i : ℕ) (s : Loop)
      → i + rounds ≡ p.count
      → Room p i s
      → Returns (Room p p.count) (loop env p rounds i s)
  unfolding loop
  loop-Room zero i s e r = subst (λ n. Room p n s) (omega arith) r
  loop-Room (suc rounds) i s e r =
      Returns-bind (Room p (i + 1)) (Room p p.count) (round env p i s)
        (λ s'. loop env p rounds (i + 1) s') (round-Room i s (omega arith) r)
        (λ s' r'. loop-Room rounds (i + 1) s' (omega arith) r')

  -- Under a sound plan (a batch of at least 1, fewer than 2 ^ 60 rounds, flows of a batch whose size
  -- does not wrap, a range that is not empty wherever it is scanned and does not wrap), and whatever
  -- the lookups and the cycle counter answer, the loop runs through all its rounds without a fault,
  -- and ends with at most one result for each whole batch of rounds.
  pub loop-Returns :
      (n : ℕ)
      → Returns (λ s. length s.results ≤ p.count / p.batch) (loop env p p.count 0 (begin env p n))
  loop-Returns n =
      let pos = sound.batch_pos in
      Returns-mono (Room p p.count) (λ s. length s.results ≤ p.count / p.batch)
        (loop env p p.count 0 (begin env p n))
        (loop-Room p.count 0 (begin env p n) (omega arith)
          (record { rounds = omega arith; partial = pos }))
        (λ s r.
          (le-div_iff_mul-le {k = p.batch} {x = length s.results} {y = p.count} pos).1
            (omega (arith, r.rounds)))

-- Where the range is empty or upside down, the number of rounds is not 0, and the stack holds true
-- where `scan` is never set, the first round of the benchmark's loop divides by 0.
pub loop-divide_by_zero :
    (env : Env) (c : Config) (rounds : ℕ) (s : Loop)
    → env.ntohl c.flow_dst_ipaddr_e ≤ env.ntohl c.flow_dst_ipaddr_s
    → env.stale_scan ≡ true
    → 0 < c.loop_count
    → loop env (plan env (order_range env c)) (suc rounds) 0 s ≡ fault divide_by_zero
unfolding loop round plan address
loop-divide_by_zero env c rounds s down stale some_rounds =
    let none_between = le→ltb_false _ _ down in
    let short : ltb 0 c.loop_count ≡ true = lt→ltb _ _ some_rounds in
    rw (order_range-id env c, none_between, stale, short)

-- From a valid configuration with fewer than 2 ^ 60 rounds, whose first address is below its last
-- one, the plan of the benchmark is sound.
pub plan-IsSound :
    (env : Env) (c : Config)
    → IsValid c
    → c.loop_count < 2 ^ 60
    → env.flow_size * c.batch_count < 2 ^ 64
    → env.ntohl c.flow_dst_ipaddr_s < env.ntohl c.flow_dst_ipaddr_e
    → IsSound env (plan env (order_range env c))
unfolding plan
plan-IsSound env c valid small batch_small up =
    let yes_between = lt→ltb _ _ up in
    rw (order_range-id env c, yes_between)
      (record {
        batch_pos = valid.batch_count_ok.0;
        count_lt = small;
        batch_fits = batch_small;
        range = λ e. omega arith;
        fits = omega (arith, env.ntohl_bound c.flow_dst_ipaddr_e);
      })
