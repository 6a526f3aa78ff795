-- ===== src/Lifecycle/Runs.antt =====
-- What a run of each of the three benchmarks leaves behind, where it returns.
use network_lab.Common.{
  ℕ, ◌≡◌, refl, subst, true, false, not, Bool, Bool-cases, inl, inr, ℤ, Option, Exec, ok, fault,
  IfOk, IfOk-bind, IfOk-any, ◌>>=◌,
}
use network_lab.Sorting.{Sorter}
use network_lab.Printk.{Printer, Page}
use network_lab.Display.{Log}
use network_lab.Sysfs.{World, mutex_lock, mutex_unlock, get_config, modify, pure}
use network_lab.Sysfs.V4
use network_lab.Sysfs.V6
use network_lab.Sysfs.Old
use network_lab.Bench4.{Env, plan, bench, order_range, do_bench}
use network_lab.Bench4.Range.{order_range-id}
use network_lab.Bench6.{Env6, Plan6, Warmup6, warm6, broken6, plan6, warmup6, measure_all, start6}
use network_lab.Bench6.Whole.{lacks_memory, finish6, after_warmup6, do_bench6_beside}
use network_lab.Older.{
  older_plan, older_warmup, older_loop, older_finish, after_older_warmup, older_bench_beside,
}

-- A page, a free mutex, and the variables as they were.
abbrev pub Leaves : {V : Type 0} → V → Page × World V → Type 0
Leaves c r = (r.1.locked ≡ false) × (r.1.config ≡ c)

-- A page printed in a state that is left as it is.
page-Leaves :
    {V : Type 0} (w : World V) (m : Exec Page)
    → w.locked ≡ false
    → IfOk (Leaves w.config) (m >>= λ page. ok (page, w))
page-Leaves w (ok page) free = (free, refl)
page-Leaves w (fault f) free = tt

module _ (k : Printer) (log : Log) (sorter : Sorter) (verbose : Bool) where
  pub do_bench-Leaves :
      (env : Env) (w : World V4.Config)
      → w.locked ≡ false
      → IfOk (Leaves w.config) (do_bench env k log sorter verbose w)
  unfolding do_bench mutex_lock mutex_unlock modify get_config
  do_bench-Leaves env w free =
      let w' = record w { config = order_range env w.config; locked = false } in
      let run = bench env k log sorter (plan env w'.config) verbose in
      rw free (
        subst (λ c. IfOk (Leaves c) (run >>= λ page. ok (page, w'))) (order_range-id env w.config)
          (page-Leaves w' run refl))

  module _ (env : Env6) (fuel : ℕ) where
    after_warmup6-Leaves :
        (p : Plan6) (u : Warmup6) (w : World V6.Config)
        → IfOk (Leaves w.config) (after_warmup6 env k log sorter fuel verbose p u w)
    unfolding after_warmup6 mutex_unlock
    after_warmup6-Leaves p (broken6 err s) w = (refl, refl)
    after_warmup6-Leaves p (warm6 s) w =
        IfOk-bind (λ s'. Unit {0}) (Leaves w.config) (measure_all env p s) _ (IfOk-any _)
          (λ s' t.
            page-Leaves (record w { locked = false }) (finish6 env k log sorter fuel verbose p s')
              refl)

    pub do_bench6-Leaves :
        (w : World V6.Config)
        → w.locked ≡ false
        → IfOk (Leaves w.config) (do_bench6_beside env k log sorter fuel verbose (pure tt) w)
    unfolding do_bench6_beside mutex_lock get_config
    do_bench6-Leaves w free =
        elim (Bool-cases (lacks_memory env k log sorter fuel verbose w.config.batch_count)) [
          | inl e ↦ rw e (free, refl)
          | inr e ↦
              let p = plan6 env w.config.loop_count w.config.batch_count w.config in
              rw (e, free)
                (after_warmup6-Leaves p (warmup6 env p.warmup_count p.flow (start6 env p 0))
                  (record w { locked = true }))
        ]

    module _ (released : ℕ → Option ℤ) where
      after_older_warmup-Leaves :
          (p : Plan6) (u : Warmup6) (w : World Old.Config)
          → IfOk (Leaves w.config) (after_older_warmup env released k log sorter fuel verbose p u w)
      unfolding after_older_warmup mutex_unlock
      after_older_warmup-Leaves p (broken6 err s) w = (refl, refl)
      after_older_warmup-Leaves p (warm6 s) w =
          IfOk-bind (λ s'. Unit {0}) (Leaves w.config)
            (older_loop env released p p.max_loop_count s) _ (IfOk-any _)
            (λ s' t.
              page-Leaves (record w { locked = false })
                (older_finish env released k log sorter fuel verbose s') refl)

      pub older_bench-Leaves :
          (w : World Old.Config)
          → w.locked ≡ false
          → IfOk
              (Leaves w.config)
              (older_bench_beside env released k log sorter fuel verbose (pure tt) w)
      unfolding older_bench_beside mutex_lock get_config
      older_bench-Leaves w free = elim (Bool-cases (not env.results_allocated)) [
        | inl e ↦ rw e (free, refl)
        | inr e ↦
            let p = older_plan env released w.config.loop_count w.config in
            rw (e, free)
              (IfOk-bind (λ u. Unit {0}) (Leaves w.config)
                (older_warmup env released p.warmup_count p.flow (start6 env p 0)) _ (IfOk-any _)
                (λ u t. after_older_warmup-Leaves p u (record w { locked = true })))
      ]
