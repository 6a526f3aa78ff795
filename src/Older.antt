-- ===== src/Older.antt =====
-- `do_bench` of lab-routes-ipv6/kbench_mod.c, the IPv6 module before it had batches.
pub mod Equal
pub mod Outcome
use network_lab.Common.{
  ℕ, zero, suc, ◌+◌, ◌≡◌, true, false, ◌==ℤ◌, pos, not, ◌&&◌, ℤ, Bool, Option, none, some, Exec, ok,
  fault, use_after_free, ◌>>=◌, leb, if◌then◌else◌, length,
}
use network_lab.Sorting.{Sorter}
use network_lab.Addr6.{subtract, scans, scan_step, next_address}
use network_lab.Printk.{Printer, Page, print, blank}
use network_lab.Printk
use network_lab.Display.{Log}
use network_lab.Fib6.{collect_depth}
use network_lab.Sysfs.{Sys, mutex_lock, mutex_unlock, get_config, pure}
use network_lab.Sysfs as Sysfs
use network_lab.Sysfs.Old.{Config}
use network_lab.Bench6.{
  Env6, Plan6, Run6, Flow6, Warmup6, warm6, broken6, host_words, route, dst_release, current,
  elapsed6, record_value, start6,
}
use network_lab.Bench6.Report.{report6}

-- `released n` is what `dst->error` reads behind the release of the destination of lookup `n`, where
-- something else still holds that destination, and nothing where the release freed it.
module _ (env : Env6) (released : ℕ → Option ℤ) where
  -- As the plan of the newer module, whose batch of 1 stands for no batches.
  unfoldable pub older_plan : (room : ℕ) → Config → Plan6
  unfolding host_words
  older_plan room c =
      let first = host_words env c.flow_dst_ipaddr_s in
      let last = host_words env c.flow_dst_ipaddr_e in
      let difference = subtract first last in
      let raw = difference.words in
      record {
        room = room;
        warmup_count = c.warmup_count;
        loop_count = c.loop_count;
        max_loop_count = c.max_loop_count;
        batch = 1;
        scan = if scans difference then true else env.stale_scan;
        first = first;
        last = last;
        delta =
            if scans difference
            then scan_step raw c.loop_count
            else host_words env
                (record { word0 = raw.w0; word1 = raw.w1; word2 = raw.w2; word3 = raw.w3 });
        flow = record {
          oif = c.flow_oif;
          iif = c.flow_iif;
          mark = c.flow_mark;
          label = c.flow_label;
          daddr = first;
          saddr = host_words env c.flow_src_ipaddr;
        };
      }

  -- `dst->error` behind `dst_release(dst)`
  unfoldable pub read_released : Option ℤ → Run6 → Exec Warmup6
  read_released none s = fault use_after_free
  read_released (some err) s = ok (broken6 err s)

  -- The warm-up reports what the released destination reads, and not the error that it saw.
  unfoldable pub older_warmup : ℕ → Flow6 → Run6 → Exec Warmup6
  unfolding route dst_release read_released
  older_warmup zero flow s = ok (warm6 s)
  older_warmup (suc rounds) flow s =
      let err = env.route_error s.lookups flow in
      let s' = dst_release env (route env s) in
      let rest = older_warmup rounds flow s' in
      if not (err ==ℤ pos 0) && not (err ==ℤ env.net_unreachable)
      then read_released (released s.lookups) s'
      else rest

  module _ (p : Plan6) where
    unfoldable pub older_round : Run6 → Exec Run6
    unfolding route dst_release current elapsed6 record_value
    older_round s =
        let s' : Run6 =
          if p.scan
          then record s { position = next_address p.first p.last p.delta s.position }
          else s in
        let measured : Run6 = record (dst_release env (route env s')) {
          readings = s'.readings + 2;
        } in
        if env.route_error s'.lookups (current env p s') ==ℤ env.net_unreachable
        then ok measured
        else record_value env p (elapsed6 env p s') measured

    unfoldable pub older_loop : ℕ → Run6 → Exec Run6
    unfolding older_round
    older_loop zero s = ok s
    older_loop (suc rounds) s =
        let rest = older_round s >>= older_loop rounds in
        if leb p.loop_count (length s.results) then ok s else rest

  module _ (k : Printer) (log : Log) (sorter : Sorter) (fuel : ℕ) (verbose : Bool) where
    unfoldable pub older_finish : Run6 → Exec Page
    unfolding report6 collect_depth
    older_finish s =
        report6 Printk.plain_summary k log sorter env.mad_allocated
          (collect_depth env.subtrees fuel env.table env.root) env.table_id s.results
          (length s.results) s.average 1 verbose

    -- From behind the warm-up, with the mutex held.
    unfoldable pub after_older_warmup : Plan6 → Warmup6 → Sys Config Page
    unfolding older_loop mutex_unlock older_finish
    after_older_warmup p (broken6 err s) =
        Sysfs.◌>>◌ mutex_unlock (pure (print k (Printk.lookup_error err) blank))
    after_older_warmup p (warm6 s) = λ w. older_loop p p.max_loop_count s >>= λ s'.
        Sysfs.◌>>◌ mutex_unlock (λ w'. older_finish s' >>= λ page. ok (page, w')) w

    -- `loop_count` is read before the mutex is taken, and again behind. `others` is what other callers
    -- do to the module in between.
    unfoldable pub older_bench_beside : Sys Config (Unit {0}) → Sys Config Page
    unfolding mutex_lock get_config after_older_warmup older_plan older_warmup
    older_bench_beside others = Sysfs.◌>>=◌ get_config λ before.
        if not env.results_allocated
        then pure (print k Printk.no_memory blank)
        else Sysfs.◌>>◌ others (
            Sysfs.◌>>◌ mutex_lock (
              Sysfs.◌>>=◌ get_config λ c.
                let p = older_plan before.loop_count c in
                λ w. older_warmup p.warmup_count p.flow (start6 env p 0) >>= λ u.
                after_older_warmup p u w))

  module _ (k : Printer) (log : Log) (sorter : Sorter) (fuel : ℕ) where
    unfoldable pub run_show : Sys Config (Unit {0}) → Sys Config Page
    run_show others = older_bench_beside k log sorter fuel false others

    unfoldable pub run_verbose_show : Sys Config (Unit {0}) → Sys Config Page
    run_verbose_show others = older_bench_beside k log sorter fuel true others
