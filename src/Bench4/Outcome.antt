-- ===== src/Bench4/Outcome.antt =====
-- The whole of `do_bench` (IPv4): how a run can end.
use native.Mathlib.Nat.{div-mul-le_self}
use network_lab.Common.{
  ℕ, ◌*◌, ◌/◌, ◌^◌, ◌≤◌, ◌<◌, ◌≡◌, inl, inr, refl, Bool, true, false, not, ◌&&◌, ◌||◌, Exec, ok,
  ◌>>=◌, Returns-ok, Ends, Ends-mono, Ends-bind, arith, ltb, Bool-cases, length,
}
use network_lab.Sorting.{Sorter}
use network_lab.Printk.{Printer, Page, Fits, print, blank, print-Fits}
use network_lab.Printk
use network_lab.Display.{Log, display_statistics}
use network_lab.Display.Safety.{blank-Fits, display_statistics-Ends}
use network_lab.Sysfs.{World, mutex_lock, mutex_unlock, get_config, modify}
use network_lab.Sysfs.V4.{Config, IsValid}
use network_lab.Bench4.{
  Env, Plan, Loop, Warmup, warm, broken, warmup, order_range, plan, loop, begin, bench, do_bench,
}
use network_lab.Bench4.Range.{order_range-id}
use network_lab.Bench4.Results.{IsSound, loop-Returns, plan-IsSound}

-- A run over the plan measured from one to nineteen results.
abbrev pub HasFewResults : Env → Plan → Type 0
HasFewResults env p =
    (n : ℕ) × (s : Loop) × (loop env p p.count 0 (begin env p n) ≡ ok s)
    × (0 < length s.results)
    × (length s.results < 20)

module _ (env : Env) (k : Printer) (log : Log) (sorter : Sorter) (p : Plan) (verbose : Bool) where
  module _ (sound : IsSound env p) (few : 95 * p.count < 2 ^ 32)
      (got : env.mad_allocated ≡ true) where
    report-Ends :
        (n : ℕ)
        → Ends (HasFewResults env p) (Fits k) (
            loop env p p.count 0 (begin env p n) >>= λ s.
            display_statistics k log sorter env.mad_allocated s.results
              (length s.results)
              p.batch
              verbose)
    report-Ends n =
        let (s, e, le) =
          Returns-ok (λ s. length s.results ≤ p.count / p.batch)
            (loop env p p.count 0 (begin env p n)) (loop-Returns env p sound n) in
        let whole : p.count / p.batch * p.batch ≤ p.count = div-mul-le_self p.count p.batch in
        let pos = sound.batch_pos in
        let lookups : length s.results * p.batch ≤ p.count = grind (arith, le, whole) in
        let count : length s.results ≤ p.count = grind (arith, lookups, pos) in
        rw e (
          Ends-mono ((0 < length s.results) × (length s.results < 20)) (HasFewResults env p)
            (Fits k)
            (display_statistics k log sorter env.mad_allocated s.results (length s.results) p.batch
              verbose)
            (λ h. (n, s, e, h.0, h.1))
            (display_statistics-Ends k log sorter s.results p.batch env.mad_allocated verbose got
              (omega arith) (omega (arith, lookups, sound.count_lt))))

    after_warmup : Warmup → Exec Page
    after_warmup u = elim u [
      | broken err ↦ ok (print k (Printk.lookup_error err) blank)
      | warm n ↦ loop env p p.count 0 (begin env p n) >>= λ s.
          display_statistics k log sorter env.mad_allocated s.results (length s.results) p.batch
            verbose
    ]

    after_warmup-Ends : (u : Warmup) → Ends (HasFewResults env p) (Fits k) (after_warmup u)
    unfolding after_warmup
    after_warmup-Ends (broken err) =
        inl (print-Fits k (Printk.lookup_error err) blank (blank-Fits k log sorter))
    after_warmup-Ends (warm n) = report-Ends n

    bench-Ends : Ends (HasFewResults env p) (Fits k) (bench env k log sorter p verbose)
    unfolding bench after_warmup
    bench-Ends =
        elim (Bool-cases
          (not env.results_allocated || ltb 1 p.batch && not env.batched_allocated)) [
            | inl e ↦ rw e (inl (print-Fits k Printk.no_memory blank (blank-Fits k log sorter)))
            | inr e ↦ rw e (after_warmup-Ends (warmup env p.warmup 0 p.flow))
          ]

-- From valid variables of the IPv4 module with a free mutex, where 95 times `loop_count` is below 2
-- ^ 32, the flows of a batch take less than 2 ^ 64 bytes, the first address is below the last one,
-- and the allocation in `mad` succeeds, a whole run ends with a report that fits the page and
-- leaves variables, mutex and references as they were, whatever the other allocations, the lookups
-- and the cycle counter answer. The only other way to end is a read behind the values, and only
-- where the loop over the plan keeps from one to nineteen results.
pub do_bench-Ends :
    (env : Env) (k : Printer) (log : Log) (sorter : Sorter) (verbose : Bool) (c : Config) (held : ℕ)
    → IsValid c
    → 95 * c.loop_count < 2 ^ 32
    → env.flow_size * c.batch_count < 2 ^ 64
    → env.ntohl c.flow_dst_ipaddr_s < env.ntohl c.flow_dst_ipaddr_e
    → env.mad_allocated ≡ true
    → let w : World Config = record { config = c; locked = false; references = held } in
      Ends
        (HasFewResults env (plan env (order_range env c)))
        (λ r. Fits k r.0 × (r.1 ≡ w))
        (do_bench env k log sorter verbose w)
unfolding do_bench mutex_lock mutex_unlock get_config modify
do_bench-Ends env k log sorter verbose c held valid few batch_small up got =
    let w : World Config = record { config = c; locked = false; references = held } in
    let sound = plan-IsSound env c valid (omega (arith, few)) batch_small up in
    let p = plan env (order_range env c) in
    let same = order_range-id env c in
    Ends-bind (HasFewResults env p) (Fits k) (λ r. Fits k r.0 × (r.1 ≡ w))
      (bench env k log sorter p verbose)
      (λ page. ok (page, record { config = order_range env c; locked = false; references = held }))
      (bench-Ends env k log sorter p verbose sound (rw same (unfold plan in few)) got)
      (λ page f. (f, rw same refl))
