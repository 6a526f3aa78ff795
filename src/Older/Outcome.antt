-- ===== src/Older/Outcome.antt =====
-- The whole of `do_bench` of the older IPv6 module: how a run can end.
use network_lab.Common.{
  List, map, ◌⊎◌, Ends-weaken, ℕ, zero, suc, ◌+◌, ◌*◌, ◌^◌, ◌≤◌, ◌<◌, ◌≡◌, ap, refl, inl, inr, ℤ,
  pos, ◌==ℤ◌, Option, none, some, Exec, fault, use_after_free, ◌>>=◌, true, false, not, ◌&&◌, ok,
  Returns, Returns-ok, Ends, Ends-mono, Ends-bind, Ends-next, Bool, Bool-cases, arith, length,
}
use network_lab.Sorting.{Sorter}
use network_lab.Printk.{Printer, Page, Summary, Fits, print, blank, print-Fits}
use network_lab.Printk
use network_lab.Display.{Log}
use network_lab.Display.Row.{shown}
use network_lab.Display.Safety.{blank-Fits}
use network_lab.Fib6.{Depths, collect_depth}
use network_lab.Fib6.Tree.{Tree, IsTree, size}
use network_lab.Fib6.Collect.{collect_depth-route_depths}
use network_lab.Sysfs.{Kernel, World, Sys, and_then, pure, mutex_lock, mutex_unlock, get_config}
use network_lab.Sysfs.Old.{Config, Request, serve_all}
use network_lab.Sysfs.V6.{Reply}
use network_lab.Sysfs.V6.Laws.{IsReady, serve_all-IsReady_v6}
use network_lab.Sysfs.Old.Simulation.{widen, widen_world, widen_request, serve_all-widen}
use network_lab.Bench6.{
  Env6, Plan6, Run6, Flow6, Warmup6, warm6, broken6, plan6, start6, route, dst_release,
}
use network_lab.Bench6.Safety.{measure_all-Returns}
use network_lab.Bench6.Page.{report6-Ends}
use network_lab.Older.{
  older_plan, read_released, older_warmup, older_loop, older_finish, after_older_warmup,
  older_bench_beside,
}
use network_lab.Older.Equal.{older_loop-eq-measure_all}

plain-shown : (s : Summary) → shown (Printk.plain_summary s) ≡ 0
unfolding shown
plain-shown s = refl

-- Requests of other callers, whose replies go to them.
abbrev pub serving_older : Kernel → Printer → List Request → Sys Config (Unit {0})
serving_older kernel k rs w = and_then (serve_all kernel k rs w) (λ replies. pure tt)

module _ (env : Env6) (released : ℕ → Option ℤ) where
  -- A run over the plan measured from one to nineteen results.
  abbrev pub HasFewOlder : Plan6 → Type 0
  HasFewOlder p =
      (s : Run6) × (older_loop env released p p.max_loop_count (start6 env p p.warmup_count) ≡ ok s)
      × (0 < length s.results)
      × (length s.results < 20)

  -- One of the first `bound` lookups found an error, and its destination went with its release.
  abbrev pub HasFreed : Flow6 → (bound : ℕ) → Type 0
  HasFreed flow bound =
      (n : ℕ) × (n < bound)
      × (released n ≡ none)
      × ((not (env.route_error n flow ==ℤ pos 0)
            && not (env.route_error n flow ==ℤ env.net_unreachable))
          ≡ true)

  abbrev IsWarm : Plan6 → Flow6 → ℕ → Exec Warmup6 → Type 0
  IsWarm p flow n (ok (broken6 err s)) = Unit
  IsWarm p flow n (ok (warm6 s)) = s ≡ start6 env p n
  IsWarm p flow n (fault f) = HasFreed flow n × (f ≡ use_after_free)

  read_released-IsWarm :
      (p : Plan6) (flow : Flow6) (n : ℕ) (r : Option ℤ) (s : Run6)
      → (r ≡ none → HasFreed flow n)
      → IsWarm p flow n (read_released env released r s)
  unfolding read_released
  read_released-IsWarm p flow n none s freed = (freed refl, refl)
  read_released-IsWarm p flow n (some err) s freed = tt

  older_warmup-IsWarm :
      (p : Plan6) (flow : Flow6) (rounds n : ℕ)
      → IsWarm p flow (n + rounds) (older_warmup env released rounds flow (start6 env p n))
  unfolding older_warmup route dst_release
  older_warmup-IsWarm p flow zero n = ap (start6 env p) (omega arith)
  older_warmup-IsWarm p flow (suc rounds) n =
      let next : n + 1 + rounds ≡ n + suc rounds = omega arith in
      let rest = rw next at (older_warmup-IsWarm p flow rounds (n + 1)) in
      let err = env.route_error n flow in
      elim (Bool-cases (not (err ==ℤ pos 0) && not (err ==ℤ env.net_unreachable))) [
        | inl e ↦ rw e (
            read_released-IsWarm p flow (n + suc rounds) (released n) _
              (λ freed. (n, omega arith, freed, e)))
        | inr e ↦ rw e rest
      ]

  older_loop-Returns :
      (room : ℕ) (c : Config) (lookups : ℕ)
      → c.loop_count ≤ room
      → room < 2 ^ 48
      → let p = older_plan env released room c in
        Returns
          (λ s. (s.held ≡ 0) × (length s.results * 1 ≤ c.loop_count))
          (older_loop env released p c.max_loop_count (start6 env p lookups))
  unfolding plan6 older_plan
  older_loop-Returns room c lookups fits bounded =
      let p = plan6 env room 1 (widen c) in
      rw (older_loop-eq-measure_all env released room c (start6 env p lookups)) at
        (measure_all-Returns env p lookups (omega arith) (omega arith) (omega arith))

  module _ (k : Printer) (log : Log) (sorter : Sorter) (fuel : ℕ) (verbose : Bool)
      (d : Depths) where
    module _ (got : env.mad_allocated ≡ true) (room : ℕ) (c : Config) (fits : c.loop_count ≤ room)
        (bounded : room < 2 ^ 48) (w : World Config)
        (walk : collect_depth env.subtrees fuel env.table env.root ≡ ok d)
        (few : 95 * c.loop_count < 2 ^ 32) where
      abbrev the_plan : Plan6
      the_plan = older_plan env released room c

      abbrev IsDone : Page × World Config → Type 0
      IsDone r = Fits k r.0 × (r.1 ≡ record w { locked = false })

      older_finish-Ends :
          (s : Run6)
          → 95 * length s.results < 2 ^ 32
          → Ends
              ((0 < length s.results) × (length s.results < 20))
              (Fits k)
              (older_finish env released k log sorter fuel verbose s)
      unfolding older_finish
      older_finish-Ends s short =
          rw (got, walk)
            (report6-Ends Printk.plain_summary plain-shown k log sorter s.results d env.table_id
              s.average 1 verbose short)

      measured-Ends : Ends (HasFewOlder the_plan) IsDone (
          after_older_warmup env released k log sorter fuel verbose the_plan
            (warm6 (start6 env the_plan the_plan.warmup_count))
            w)
      unfolding after_older_warmup mutex_unlock
      measured-Ends =
          let p = the_plan in
          let (s, e, bound) =
            Returns-ok (λ s. (s.held ≡ 0) × (length s.results * 1 ≤ c.loop_count))
              (older_loop env released p p.max_loop_count (start6 env p p.warmup_count))
              (unfold older_plan in older_loop-Returns room c p.warmup_count fits bounded) in
          Ends-next (HasFewOlder p) IsDone
            (older_loop env released p p.max_loop_count (start6 env p p.warmup_count)) s _ e
            (Ends-bind (HasFewOlder p) (Fits k) IsDone
              (older_finish env released k log sorter fuel verbose s)
              (λ page. ok (page, record w { locked = false }))
              (Ends-mono ((0 < length s.results) × (length s.results < 20)) (HasFewOlder p) (Fits k)
                (older_finish env released k log sorter fuel verbose s) (λ h. (s, e, h.0, h.1))
                (older_finish-Ends s (omega (arith, few, bound))))
              (λ page f. (f, refl)))

      -- A run reads a destination that is gone, for a reason.
      abbrev pub ReadsFreed : Exec (Page × World Config) → Type 0
      ReadsFreed m = HasFreed the_plan.flow the_plan.warmup_count × (m ≡ fault use_after_free)

      after_older_warmup-Ends :
          (m : Exec Warmup6)
          → IsWarm the_plan the_plan.flow the_plan.warmup_count m
          → Ends
              (HasFewOlder the_plan)
              IsDone
              (m >>= λ u. after_older_warmup env released k log sorter fuel verbose the_plan u w)
            ⊎ ReadsFreed
                (m >>= λ u. after_older_warmup env released k log sorter fuel verbose the_plan u w)
      unfolding after_older_warmup mutex_unlock
      after_older_warmup-Ends (ok (broken6 err s)) warm =
          inl (inl (print-Fits k (Printk.lookup_error err) blank (blank-Fits k log sorter), refl))
      after_older_warmup-Ends (ok (warm6 s)) warm = inl (rw warm measured-Ends)
      after_older_warmup-Ends (fault f) warm = inr (warm.0, ap fault warm.1)

-- The variables that the handlers of the module leave behind are ready for a run.
abbrev IsReadyOlder : World Config → Type 0
IsReadyOlder w = IsReady (widen_world w)

serve_all-IsReadyOlder :
    (kernel : Kernel) (k : Printer) (rs : List Request) (replies : List Reply) (w w' : World Config)
    → IsReadyOlder w
    → serve_all kernel k rs w ≡ ok (replies, w')
    → IsReadyOlder w'
serve_all-IsReadyOlder kernel k rs replies w w' ready served =
    let served6 = rw served at (serve_all-widen kernel k rs w) in
    rw served6 at (serve_all-IsReady_v6 kernel k (map widen_request rs) (widen_world w) ready)

-- From a free mutex and variables of the older IPv6 module that are valid for the newer one with a
-- batch of 1, where `loop_count` is below 2 ^ 48 and, behind the requests of other callers, 95
-- times `loop_count` is below 2 ^ 32, the routing table is a tree of fewer than 2 ^ 29 nodes that
-- the fuel is enough for, and the allocation in `mad` succeeds, a whole run ends in one of three
-- ways, even where other callers read and write attributes between its allocation and its mutex, as
-- long as they leave no greater `loop_count`. It ends with a report that fits the page, and with
-- variables, mutex and references as they were before or behind those requests; or with a read
-- behind the values, and that only where the loop over the plan keeps from one to nineteen results;
-- or with a read of a destination that its release freed, and that only where a lookup of the
-- warm-up found another error than -ENETUNREACH.
pub older_bench_beside-Ends :
    (env : Env6) (released : ℕ → Option ℤ) (kernel : Kernel) (k : Printer) (log : Log)
    (sorter : Sorter) (verbose : Bool) (tree : Tree) (fuel : ℕ) (rs : List Request)
    (replies : List Reply) (w w' : World Config)
    → IsReady (widen_world w)
    → serve_all kernel k rs w ≡ ok (replies, w')
    → w'.config.loop_count ≤ w.config.loop_count
    → w.config.loop_count < 2 ^ 48
    → 95 * w'.config.loop_count < 2 ^ 32
    → IsTree env.subtrees env.table env.root tree
    → size tree < 2 ^ 29
    → 3 * size tree + 2 ≤ fuel
    → env.mad_allocated ≡ true
    → let p = older_plan env released w.config.loop_count w'.config in
      let run =
        older_bench_beside env released k log sorter fuel verbose (serving_older kernel k rs) w in
      Ends (HasFewOlder env released p) (λ r. Fits k r.0 × ((r.1 ≡ w) ⊎ (r.1 ≡ w'))) run
      ⊎ (HasFreed env released p.flow w'.config.warmup_count × (run ≡ fault use_after_free))
unfolding older_bench_beside mutex_lock get_config
older_bench_beside-Ends env released kernel k log sorter verbose tree fuel rs replies w w' ready
      served fewer bounded few is_tree small enough got =
    let c = w'.config in
    let p = older_plan env released w.config.loop_count c in
    let free : w'.locked ≡ false =
      (serve_all-IsReadyOlder kernel k rs replies w w' ready served).free in
    let walk =
      collect_depth-route_depths env.subtrees env.table env.root tree fuel is_tree small enough in
    let start : 0 + p.warmup_count ≡ p.warmup_count = omega arith in
    elim (Bool-cases env.results_allocated) [
      | inl e ↦
          let run =
            after_older_warmup-Ends env released k log sorter fuel verbose _ got w.config.loop_count
              c fewer bounded (record w' { locked = true }) walk few
              (older_warmup env released p.warmup_count p.flow (start6 env p 0))
              (rw start at (older_warmup-IsWarm env released p p.flow p.warmup_count 0)) in
          rw (e, served, free) (weaken _ run)
      | inr e ↦
          rw e (inl (inl (print-Fits k Printk.no_memory blank (blank-Fits k log sorter), inl refl)))
    ]
  where
    weaken :
        (m : Exec (Page × World Config))
        → Ends
            (HasFewOlder env released (older_plan env released w.config.loop_count w'.config))
            (λ r. Fits k r.0 × (r.1 ≡ record w' { locked = false }))
            m
          ⊎ (HasFreed env released
                (older_plan env released w.config.loop_count w'.config).flow
                w'.config.warmup_count
              × (m ≡ fault use_after_free))
        → Ends
            (HasFewOlder env released (older_plan env released w.config.loop_count w'.config))
            (λ r. Fits k r.0 × ((r.1 ≡ w) ⊎ (r.1 ≡ record w' { locked = false })))
            m
          ⊎ (HasFreed env released
                (older_plan env released w.config.loop_count w'.config).flow
                w'.config.warmup_count
              × (m ≡ fault use_after_free))
    weaken m (inl run) = inl (Ends-weaken _ _ _ m run (λ r h. (h.0, inr h.1)))
    weaken m (inr freed) = inr freed
