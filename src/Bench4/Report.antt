-- ===== src/Bench4/Report.antt =====
-- The whole of `do_bench` (IPv4): what a run reports.
use native.Mathlib.Nat.{div-mul-le_self}
use network_lab.Common.{
  ℕ, ◌*◌, ◌-◌, ◌/◌, ◌^◌, ◌≤◌, ◌<◌, ◌≡◌, refl, Bool, true, false, not, ◌&&◌, ◌||◌, List, [], ok,
  Returns, Returns-ok, Returns-bind, arith, ltb, length,
}
use network_lab.Sorting.{Sorter}
use network_lab.Sorting.Order.{IsWithin}
use network_lab.Printk.{Printer}
use network_lab.Display.{Log, display_statistics}
use network_lab.Display.Outcome.{IsReport, display_statistics-IsReport}
use network_lab.Sysfs.{World, mutex_lock, mutex_unlock, get_config, modify}
use network_lab.Sysfs.V4.{Config, IsValid}
use network_lab.Bench4.{Env, Plan, warm, warmup, order_range, plan, loop, begin, bench, do_bench}
use network_lab.Bench4.Range.{order_range-id}
use network_lab.Bench4.Reference.{targets, outcomes}
use network_lab.Bench4.Results.{IsSound, loop-Returns, plan-IsSound}
use network_lab.Bench4.Measured.{loop-eq-outcomes}

-- What a run over the plan measures whose warm-up leaves `n` as the number of the next lookup.
abbrev pub measured : Env → Plan → ℕ → List ℕ
measured env p n = outcomes env p n 0 [] (targets env p p.count 0)

module _ (env : Env) (k : Printer) (log : Log) (sorter : Sorter) (verbose : Bool) (p : Plan)
    (n : ℕ) where
  module _ (sound : IsSound env p) (few : 95 * p.count < 2 ^ 32)
      (got : env.results_allocated ≡ true) (got_batch : env.batched_allocated ≡ true)
      (got_mad : env.mad_allocated ≡ true) (warmed : warmup env p.warmup 0 p.flow ≡ warm n) where
    statistics-IsReport :
        (results xs : List ℕ)
        → results ≡ xs
        → length xs * p.batch ≤ p.count
        → 20 ≤ length xs
        → IsWithin 0 (2 ^ 63 - 1) xs
        → Returns (IsReport k log xs p.batch verbose) (
            display_statistics k log sorter env.mad_allocated results
              (length results)
              p.batch
              verbose)
    statistics-IsReport results xs e lookups many within =
        let pos = sound.batch_pos in
        let count : length xs ≤ p.count = grind (arith, lookups, pos) in
        rw (e, got_mad)
          (display_statistics-IsReport k log sorter xs p.batch (omega (arith, few, count)) within
            (omega (arith, lookups, sound.count_lt)) verbose many)

    bench-IsReport :
        20 ≤ length (measured env p n)
        → IsWithin 0 (2 ^ 63 - 1) (measured env p n)
        → Returns
            (IsReport k log (measured env p n) p.batch verbose)
            (bench env k log sorter p verbose)
    unfolding bench
    bench-IsReport many within =
        let (s, run, same) =
          Returns-ok (λ s. s.results ≡ measured env p n) (loop env p p.count 0 (begin env p n))
            (loop-eq-outcomes env p sound n) in
        let bound : length s.results ≤ p.count / p.batch = rw run at (loop-Returns env p sound n) in
        let whole : p.count / p.batch * p.batch ≤ p.count = div-mul-le_self p.count p.batch in
        let lookups : length s.results * p.batch ≤ p.count = grind (arith, bound, whole) in
        let room : (not env.results_allocated || ltb 1 p.batch && not env.batched_allocated)
            ≡ false =
          rw (got, got_batch) (ground arith) in
        rw (room, warmed, run)
          (statistics-IsReport s.results (measured env p n) same (rw same at lookups) many within)

-- The plan of a run with the variables `c`.
abbrev pub plan_of : Env → Config → Plan
plan_of env c = plan env (order_range env c)

-- From valid variables of the IPv4 module with a free mutex, where 95 times `loop_count` is below 2
-- ^ 32, the flows of a batch take less than 2 ^ 64 bytes, the first address is below the last one,
-- all allocations succeed, and the warm-up ends without an error, a whole run whose measured values
-- (those of the independent description of its loop) are at least twenty and below 2 ^ 63 returns.
-- Its page is the right report of those values, with the histogram if it is asked for, and
-- variables, mutex and references are as they were.
pub do_bench-IsReport :
    (env : Env) (k : Printer) (log : Log) (sorter : Sorter) (verbose : Bool) (c : Config)
    (held n : ℕ)
    → IsValid c
    → 95 * c.loop_count < 2 ^ 32
    → env.flow_size * c.batch_count < 2 ^ 64
    → env.ntohl c.flow_dst_ipaddr_s < env.ntohl c.flow_dst_ipaddr_e
    → env.results_allocated ≡ true
    → env.batched_allocated ≡ true
    → env.mad_allocated ≡ true
    → warmup env (plan_of env c).warmup 0 (plan_of env c).flow ≡ warm n
    → 20 ≤ length (measured env (plan_of env c) n)
    → IsWithin 0 (2 ^ 63 - 1) (measured env (plan_of env c) n)
    → let w : World Config = record { config = c; locked = false; references = held } in
      Returns
        (λ r.
          IsReport k log (measured env (plan_of env c) n) (plan_of env c).batch verbose r.0
          × (r.1 ≡ w))
        (do_bench env k log sorter verbose w)
unfolding do_bench mutex_lock mutex_unlock get_config modify
do_bench-IsReport env k log sorter verbose c held n valid few batch_small up got got_batch got_mad
      warmed many within =
    let w : World Config = record { config = c; locked = false; references = held } in
    let p = plan_of env c in
    let same = order_range-id env c in
    let sound = plan-IsSound env c valid (omega (arith, few)) batch_small up in
    Returns-bind (IsReport k log (measured env p n) p.batch verbose)
      (λ r. IsReport k log (measured env p n) (plan_of env c).batch verbose r.0 × (r.1 ≡ w))
      (bench env k log sorter p verbose)
      (λ page. ok (page, record { config = order_range env c; locked = false; references = held }))
      (bench-IsReport env k log sorter verbose p n sound (rw same (unfold plan in few)) got
        got_batch got_mad warmed many within)
      (λ page h. (h, rw same refl))
