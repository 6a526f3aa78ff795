-- ===== src/Bench6/Whole.antt =====
-- The whole of `do_bench` (IPv6): its allocations, the mutex, and the report.
use network_lab.Common.{
  ℕ, ◌>>=◌, ok, Bool, true, false, not, ◌&&◌, ◌||◌, ltb, if◌then◌else◌, Exec, length,
}
use network_lab.Sorting.{Sorter}
use network_lab.Printk.{Printer, Page, print, blank}
use network_lab.Printk
use network_lab.Display.{Log}
use network_lab.Fib6.{collect_depth}
use network_lab.Sysfs.{World, Sys, mutex_lock, mutex_unlock, get_config, pure}
use network_lab.Sysfs as Sysfs
use network_lab.Sysfs.V6.{Config}
use network_lab.Bench6.{
  Env6, Plan6, Run6, Warmup6, warm6, broken6, plan6, warmup6, measure_all, start6,
}
use network_lab.Bench6.Report.{report6}

module _ (env : Env6) (k : Printer) (log : Log) (sorter : Sorter) (fuel : ℕ) (verbose : Bool) where
  -- The test behind the allocations; without batches only `results` is asked for.
  unfoldable pub lacks_memory : ℕ → Bool
  lacks_memory batch =
      not env.results_allocated
      || ltb 1 batch
        && (not env.addrs_allocated || (not env.flows_allocated || not env.dsts_allocated))

  -- `fuel` bounds the rounds of `collect_depth`.
  unfoldable pub finish6 : Plan6 → Run6 → Exec Page
  unfolding report6 collect_depth
  finish6 p s =
      report6 Printk.summary k log sorter env.mad_allocated
        (collect_depth env.subtrees fuel env.table env.root) env.table_id s.results
        (length s.results) s.average p.batch verbose

  -- From behind the warm-up, with the mutex held.
  unfoldable pub after_warmup6 : Plan6 → Warmup6 → Sys Config Page
  unfolding measure_all mutex_unlock finish6
  after_warmup6 p (broken6 err s) =
      Sysfs.◌>>◌ mutex_unlock (pure (print k (Printk.lookup_error err) blank))
  after_warmup6 p (warm6 s) = λ w. measure_all env p s >>= λ s'.
      Sysfs.◌>>◌ mutex_unlock (λ w'. finish6 p s' >>= λ page. ok (page, w')) w

  -- `batch_count` and `loop_count` are read before the mutex is taken, and the latter again behind.
  -- `others` is what other callers do to the module in between.
  unfoldable pub do_bench6_beside : Sys Config (Unit {0}) → Sys Config Page
  unfolding lacks_memory mutex_lock get_config after_warmup6 plan6 warmup6
  do_bench6_beside others = Sysfs.◌>>=◌ get_config λ before.
      if lacks_memory before.batch_count
      then pure (print k Printk.no_memory blank)
      else Sysfs.◌>>◌ others (
          Sysfs.◌>>◌ mutex_lock (
            Sysfs.◌>>=◌ get_config λ c.
              let p = plan6 env before.loop_count before.batch_count c in
              after_warmup6 p (warmup6 env p.warmup_count p.flow (start6 env p 0))))

module _ (env : Env6) (k : Printer) (log : Log) (sorter : Sorter) (fuel : ℕ) where
  unfoldable pub run_show : Sys Config (Unit {0}) → Sys Config Page
  run_show others = do_bench6_beside env k log sorter fuel false others

  unfoldable pub run_verbose_show : Sys Config (Unit {0}) → Sys Config Page
  run_verbose_show others = do_bench6_beside env k log sorter fuel true others
