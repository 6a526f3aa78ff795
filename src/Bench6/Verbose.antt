-- ===== src/Bench6/Verbose.antt =====
-- The files `run` and `run_verbose` of the IPv6 module.
use network_lab.Common.{
  ℕ, ◌-◌, ◌%◌, ◌^◌, ◌==◌, ◌≡◌, refl, Bool, true, false, inl, inr, Bool-cases, List, length, Exec,
  ok, fault, IfOk, Returns,
}
use network_lab.Sorting.{Sorter, compare}
use network_lab.Stats.{percentile, read}
use network_lab.Printk.{Printer, Page, Piece, Summary, print, blank}
use network_lab.Printk
use network_lab.Display.{Log}
use network_lab.Display.Prefix.{
  StartsWith, StartsWith-self, IsShorter, beside-IsShorter, Returns-alike,
  show_histogram-StartsWith,
}
use network_lab.Fib6.{Depths}
use network_lab.Sysfs.{World, Sys, and_then, mutex_lock, mutex_unlock, get_config}
use network_lab.Sysfs.V6.{Config}
use network_lab.Bench6.{Env6, Plan6, Warmup6, warm6, broken6, plan6, warmup6, measure_all, start6}
use network_lab.Bench6.Report.{mad6, report6}
use network_lab.Bench6.Whole.{
  lacks_memory, finish6, after_warmup6, do_bench6_beside, run_show, run_verbose_show,
}

-- Two runs that go on alike from the same result and the same state.
and_then-alike :
    {A W : Type 0} (m : Exec (A × World W)) (f g : A → Sys W Page)
    → ((a : A) (w : World W) → IsShorter (f a w) (g a w))
    → IsShorter (and_then m f) (and_then m g)
and_then-alike (ok (a, w)) f g h = h a w
and_then-alike (fault x) f g h = tt

module _ (k : Printer) (log : Log) (sorter : Sorter) where
  report6-StartsWith :
      (head : Summary → Piece) (allocated : Bool) (depths : Exec Depths) (table_id : ℕ)
      (values : List ℕ) (total sum batch : ℕ)
      → IfOk
          (λ long.
            Returns
              (λ short. StartsWith short long)
              (report6 head k log sorter allocated depths table_id values total sum batch false))
          (report6 head k log sorter allocated depths table_id values total sum batch true)
  unfolding report6
  report6-StartsWith head allocated depths table_id values total sum batch =
      let results = sorter.sort compare values in
      let n = total % 2 ^ 32 in
      elim (Bool-cases (total == 0)) [
        | inl e ↦ rw e (StartsWith-self _)
        | inr e ↦ rw e (
            Returns-alike StartsWith (percentile 95 results n) _ _ λ p95.
              Returns-alike StartsWith (percentile 90 results n) _ _ λ p90.
                Returns-alike StartsWith (percentile 50 results n) _ _ λ p50.
                  Returns-alike StartsWith (read results 0) _ _ λ low.
                    Returns-alike StartsWith (read results (total - 1)) _ _ λ high.
                      Returns-alike StartsWith (mad6 sorter allocated results p50 n) _ _ λ distance.
                        Returns-alike StartsWith depths _ _
                          λ d. show_histogram-StartsWith k log results total 1 low p95 _)
      ]

  module _ (env : Env6) (fuel : ℕ) where
    after_warmup6-IsShorter :
        (p : Plan6) (u : Warmup6) (w : World Config)
        → IsShorter
            (after_warmup6 env k log sorter fuel false p u w)
            (after_warmup6 env k log sorter fuel true p u w)
    unfolding after_warmup6 mutex_unlock finish6
    after_warmup6-IsShorter p (broken6 err s) w = (StartsWith-self _, refl)
    after_warmup6-IsShorter p (warm6 s) w =
        Returns-alike
          (λ (a : Page × World Config) (b : Page × World Config). StartsWith a.0 b.0 × (a.1 ≡ b.1))
          (measure_all env p s) _ _
          λ s'.
            beside-IsShorter _ (finish6 env k log sorter fuel false p s')
              (finish6 env k log sorter fuel true p s')
              (report6-StartsWith Printk.summary env.mad_allocated _ env.table_id s'.results
                (length s'.results) s'.average p.batch)

    -- From any state of the IPv6 module, whatever its calls of the kernel answer, and whatever
    -- other callers do between its allocations and its mutex, where a read of `run_verbose`
    -- returns, a read of `run` from the same state returns as well. It leaves the same variables,
    -- mutex and references, and its page is the start of the page of `run_verbose`.
    pub run_show-IsShorter :
        (others : Sys Config (Unit {0})) (w : World Config)
        → IsShorter
            (run_show env k log sorter fuel others w)
            (run_verbose_show env k log sorter fuel others w)
    unfolding run_show run_verbose_show do_bench6_beside lacks_memory get_config
    run_show-IsShorter others w =
        elim (Bool-cases (lacks_memory env k log sorter fuel true w.config.batch_count)) [
          | inl e ↦ rw e (StartsWith-self _, refl)
          | inr e ↦ rw e (
              and_then-alike (others w) _ _ λ _ w1. and_then-alike (mutex_lock w1) _ _ λ _ w2.
                let p = plan6 env w.config.loop_count w.config.batch_count w2.config in
                after_warmup6-IsShorter p (warmup6 env p.warmup_count p.flow (start6 env p 0)) w2)
        ]
