-- ===== src/Bench4/Verbose.antt =====
-- The files `run` and `run_verbose` of the IPv4 module.
use network_lab.Common.{
  Bool, true, false, not, inl, inr, Bool-cases, ltb, ◌&&◌, ◌||◌, length, Exec, ◌>>=◌, ok, IfOk,
  Returns,
}
use network_lab.Sorting.{Sorter}
use network_lab.Printk.{Printer, Page, print, blank}
use network_lab.Printk
use network_lab.Display.{Log, display_statistics}
use network_lab.Display.Prefix.{
  StartsWith, StartsWith-self, IsShorter, beside-IsShorter, Returns-alike,
  display_statistics-StartsWith,
}
use network_lab.Sysfs.{World, mutex_lock, mutex_unlock, modify, get_config}
use network_lab.Sysfs.V4.{Config}
use network_lab.Bench4.{
  Env, Plan, Warmup, broken, warm, warmup, loop, begin, bench, plan, order_range, do_bench,
  run_show, run_verbose_show,
}

module _ (env : Env) (k : Printer) (log : Log) (sorter : Sorter) where
  bench-StartsWith :
      (p : Plan)
      → IfOk
          (λ long. Returns (λ short. StartsWith short long) (bench env k log sorter p false))
          (bench env k log sorter p true)
  unfolding bench
  bench-StartsWith p =
      elim (Bool-cases (not env.results_allocated || ltb 1 p.batch && not env.batched_allocated)) [
        | inl e ↦ rw e (StartsWith-self _)
        | inr e ↦ rw e (elim (warmup env p.warmup 0 p.flow) as (λ u. After u) [
          | broken err ↦ StartsWith-self _
          | warm n ↦ Returns-alike StartsWith (loop env p p.count 0 (begin env p n)) _ _ λ s.
              display_statistics-StartsWith k log sorter env.mad_allocated s.results
                (length s.results) p.batch
        ])
      ]
    where
      after : Warmup → Bool → Exec Page
      after u verbose = elim u [
        | broken err ↦ ok (print k (Printk.lookup_error err) blank)
        | warm n ↦ loop env p p.count 0 (begin env p n) >>= λ s.
            display_statistics k log sorter env.mad_allocated s.results (length s.results) p.batch
              verbose
      ]

      After : Warmup → Type 0
      After u =
          IfOk (λ long. Returns (λ short. StartsWith short long) (after u false)) (after u true)

  -- From any state of the IPv4 module, and whatever its calls of the kernel answer, where a read of
  -- `run_verbose` returns, a read of `run` from the same state returns as well. It leaves the same
  -- variables, mutex and references, and its page is the start of the page of `run_verbose`.
  pub run_show-StartsWith :
      (w : World Config)
      → IsShorter (run_show env k log sorter w) (run_verbose_show env k log sorter w)
  unfolding run_show run_verbose_show do_bench mutex_lock mutex_unlock modify get_config
  run_show-StartsWith w = elim (Bool-cases w.locked) [
    | inl e ↦ rw e tt
    | inr e ↦ rw e (
        let p = plan env (order_range env w.config) in
        beside-IsShorter _ (bench env k log sorter p false) (bench env k log sorter p true)
          (bench-StartsWith p))
  ]
