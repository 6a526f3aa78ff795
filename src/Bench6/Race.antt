-- ===== src/Bench6/Race.antt =====
-- Runs of `do_bench` (IPv6) beside other callers, who use its attributes between its allocations and
-- its mutex.
use network_lab.Common.{
  ℕ, zero, suc, ◌+◌, ◌*◌, ◌^◌, ◌≤◌, ◌<◌, ◌≡◌, refl, inl, inr, Bool, true, false, List, ok, fault,
  bad_write, Ends, Ends-weaken, ◌==ℤ◌, ap, ℤ, Bool-cases, pos, arith, ◌⊎◌,
}
use network_lab.Sorting.{Sorter}
use network_lab.Printk.{Printer, Page, Fits, print, blank, print-Fits}
use network_lab.Printk
use network_lab.Display.{Log}
use network_lab.Display.Safety.{blank-Fits}
use network_lab.Fib6.Tree.{Tree, IsTree, size}
use network_lab.Fib6.Collect.{collect_depth-route_depths}
use network_lab.Sysfs.{Kernel, World, Sys, and_then, pure, mutex_lock, get_config}
use network_lab.Sysfs.V6.{Config, Request, Reply, serve_all}
use network_lab.Sysfs.V6.Laws.{IsReady, serve_all-IsReady_v6}
use network_lab.Bench6.{
  Env6, Plan6, Flow6, warm6, plan6, warmup6, measure_all, start6, route, dst_release, results_room,
}
use network_lab.Bench6.Whole.{lacks_memory, after_warmup6, do_bench6_beside}
use network_lab.Bench6.Safety.{search_loop-bad_write}
use network_lab.Bench6.Outcome.{HasFewResults6, warmup6-IsWarm, after_warmup6-Ends}

-- Requests of other callers, whose replies go to them.
abbrev pub serving : Kernel → Printer → List Request → Sys Config (Unit {0})
serving kernel k rs w = and_then (serve_all kernel k rs w) (λ replies. pure tt)

-- From a free mutex and valid variables of the IPv6 module, where `loop_count` is below 2 ^ 48 and,
-- behind those requests of other callers, 95 times `loop_count` is below 2 ^ 32, the routing table
-- is a tree of fewer than 2 ^ 29 nodes that the fuel is enough for, and the allocation in `mad`
-- succeeds, a whole run ends with a report that fits the page, whatever the other allocations, the
-- lookups and the cycle counter answer, and even where other callers read and write attributes
-- between its allocations and its mutex, as long as they leave no greater `loop_count`. It leaves
-- variables, mutex and references as they were before or behind those requests. The only other way
-- to end is a read behind the values, and only where the search over the plan keeps from one to
-- nineteen results.
pub do_bench6_beside-Ends :
    (env : Env6) (kernel : Kernel) (k : Printer) (log : Log) (sorter : Sorter) (verbose : Bool)
    (tree : Tree) (fuel : ℕ) (rs : List Request) (replies : List Reply) (w w' : World Config)
    → IsReady w
    → serve_all kernel k rs w ≡ ok (replies, w')
    → w'.config.loop_count ≤ w.config.loop_count
    → w.config.loop_count < 2 ^ 48
    → 95 * w'.config.loop_count < 2 ^ 32
    → IsTree env.subtrees env.table env.root tree
    → size tree < 2 ^ 29
    → 3 * size tree + 2 ≤ fuel
    → env.mad_allocated ≡ true
    → Ends
        (HasFewResults6 env (plan6 env w.config.loop_count w.config.batch_count w'.config))
        (λ r. Fits k r.0 × ((r.1 ≡ w) ⊎ (r.1 ≡ w')))
        (do_bench6_beside env k log sorter fuel verbose (serving kernel k rs) w)
unfolding do_bench6_beside mutex_lock get_config plan6
do_bench6_beside-Ends env kernel k log sorter verbose tree fuel rs replies w w' ready served fewer
      bounded few is_tree small enough got =
    let p = plan6 env w.config.loop_count w.config.batch_count w'.config in
    let ready' : IsReady w' = rw served at (serve_all-IsReady_v6 kernel k rs w ready) in
    let free = ready'.free in
    let walk =
      collect_depth-route_depths env.subtrees env.table env.root tree fuel is_tree small enough in
    let none : 0 + p.warmup_count ≡ p.warmup_count = omega arith in
    elim (Bool-cases (lacks_memory env k log sorter fuel verbose w.config.batch_count)) [
      | inl e ↦ rw e (inl (print-Fits k Printk.no_memory blank (blank-Fits k log sorter), inl refl))
      | inr e ↦
          let run =
            after_warmup6-Ends env k log sorter fuel verbose got _ walk p
              (warmup6 env p.warmup_count p.flow (start6 env p 0)) (record w' { locked = true })
              fewer bounded ready.valid.batch_count_ok.0 few
              (rw none at (warmup6-IsWarm env p p.flow p.warmup_count 0)) in
          rw (e, served, free)
            (Ends-weaken (HasFewResults6 env p)
              (λ r. Fits k r.0 × (r.1 ≡ record w' { locked = false }))
              (λ r. Fits k r.0 × ((r.1 ≡ w) ⊎ (r.1 ≡ record w' { locked = false })))
              (after_warmup6 env k log sorter fuel verbose p
                (warmup6 env p.warmup_count p.flow (start6 env p 0)) (record w' { locked = true }))
              run (λ r h. (h.0, inr h.1)))
    ]

not_zero : (a : ℤ) → ¬ (a ≡ pos 0) → (pos 0 ==ℤ a) ≡ false
not_zero a h = ground (arith, h)

module _ (env : Env6) (found : (n : ℕ) (f : Flow6) → env.route_error n f ≡ pos 0) where
  warmup6-warm :
      (p : Plan6) (flow : Flow6) (rounds n : ℕ)
      → warmup6 env rounds flow (start6 env p n) ≡ warm6 (start6 env p (n + rounds))
  unfolding warmup6 route dst_release
  warmup6-warm p flow zero n = ap (λ m. warm6 (start6 env p m)) (omega arith)
  warmup6-warm p flow (suc rounds) n =
      let next : n + 1 + rounds ≡ n + suc rounds = omega arith in
      rw found (rw next at (warmup6-warm p flow rounds (n + 1)))

  enough_memory :
      (k : Printer) (log : Log) (sorter : Sorter) (fuel : ℕ) (verbose : Bool) (batch : ℕ)
      → env.results_allocated ≡ true
      → batch ≡ 1
      → lacks_memory env k log sorter fuel verbose batch ≡ false
  unfolding lacks_memory
  enough_memory k log sorter fuel verbose batch got single = rw (got, single) refl

  reached :
      (n : ℕ) (f : Flow6)
      → ¬ (env.net_unreachable ≡ pos 0)
      → (env.route_error n f ==ℤ env.net_unreachable) ≡ false
  reached n f nonzero = rw found (not_zero env.net_unreachable nonzero)

  -- From a free mutex and valid variables of the IPv6 module with a batch of 1, where every lookup
  -- finds a route, the results are allocated and -ENETUNREACH is not 0, the run writes behind the
  -- array of the results wherever that array, of 8 times the first `loop_count` modulo 2 ^ 64
  -- bytes, has less room than the `loop_count` and the `max_loop_count` that other callers leave
  -- between the allocation and the mutex. So it does where they raise the count, and, without
  -- others, where the size wraps.
  pub do_bench6_beside-bad_write :
      (kernel : Kernel) (k : Printer) (log : Log) (sorter : Sorter) (verbose : Bool) (fuel : ℕ)
      (rs : List Request) (replies : List Reply) (w w' : World Config)
      → IsReady w
      → serve_all kernel k rs w ≡ ok (replies, w')
      → w.config.batch_count ≡ 1
      → results_room (plan6 env w.config.loop_count w.config.batch_count w'.config)
        < w'.config.loop_count
      → results_room (plan6 env w.config.loop_count w.config.batch_count w'.config)
        < w'.config.max_loop_count
      → env.results_allocated ≡ true
      → ¬ (env.net_unreachable ≡ pos 0)
      → do_bench6_beside env k log sorter fuel verbose (serving kernel k rs) w ≡ fault bad_write
  unfolding do_bench6_beside mutex_lock get_config plan6 after_warmup6 measure_all
  do_bench6_beside-bad_write kernel k log sorter verbose fuel rs replies w w' ready served single
        more rounds got reachable =
      let p = plan6 env w.config.loop_count w.config.batch_count w'.config in
      let ready' : IsReady w' = rw served at (serve_all-IsReady_v6 kernel k rs w ready) in
      let free = ready'.free in
      let run =
        search_loop-bad_write env p (omega (arith, single)) (λ n f. reached n f reachable)
          p.max_loop_count (start6 env p p.warmup_count) (omega arith) (omega arith)
          (omega arith) in
      let none : 0 + p.warmup_count ≡ p.warmup_count = omega arith in
      rw
        (
          enough_memory k log sorter fuel verbose w.config.batch_count got single,
          served,
          free,
          warmup6-warm p p.flow p.warmup_count 0,
          none,
          run,
        )
        refl
