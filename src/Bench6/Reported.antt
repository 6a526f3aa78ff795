-- ===== src/Bench6/Reported.antt =====
-- The whole of `do_bench` (IPv6): what a run reports.
use native.Mathlib.Nat.{le-mul_of_pos_right}
use network_lab.Common.{
  ℕ, ◌+◌, ◌-◌, ◌*◌, ◌/◌, ◌^◌, ◌≤◌, ◌<◌, ◌≡◌, refl, sym, subst, ◌∙◌, Bool, true, false, List, ok,
  Returns, Returns-ok, Returns-bind, arith, sum, length,
}
use network_lab.Sorting.{Sorter}
use network_lab.Sorting.Order.{IsWithin}
use network_lab.Printk.{Printer, Page}
use network_lab.Printk
use network_lab.Display.{Log}
use network_lab.Fib6.{Depths}
use network_lab.Fib6.Tree.{Tree, IsTree, size, route_depths}
use network_lab.Fib6.Collect.{maximum}
use network_lab.Sysfs.{Kernel, World, mutex_lock, mutex_unlock, get_config}
use network_lab.Sysfs.V6.{Config, Request, Reply, serve_all}
use network_lab.Sysfs.V6.Laws.{IsReady, serve_all-IsReady_v6}
use network_lab.Bench6.{Env6, Plan6, warm6, plan6, warmup6, measure_all, start6}
use network_lab.Bench6.Whole.{lacks_memory, finish6, after_warmup6, do_bench6_beside}
use network_lab.Bench6.Page.{IsReport6}
use network_lab.Bench6.Outcome.{finish6-IsReport6}
use network_lab.Bench6.Race.{serving}
use network_lab.Bench6.Reference.{measured6}
use network_lab.Bench6.Safety.{measure_all-Returns}
use network_lab.Bench6.Timed.{measure_all-eq-measured6}

count_le : (n b total : ℕ) → 0 < b → n * b ≤ total → n ≤ total
count_le n b total pos h = omega (arith, h, le-mul_of_pos_right n pos)

-- The plan of a run with the variables of `w` as its allocations read them, and of `w'` as the rest does.
abbrev pub plan_beside : Env6 → (w w' : World Config) → Plan6
plan_beside env w w' = plan6 env w.config.loop_count w.config.batch_count w'.config

-- The depths that a report is to print.
abbrev pub depths_of : Tree → Depths
depths_of tree =
    let depths = route_depths 0 tree in
    record { avgdepth = sum depths * 10 / length depths; maxdepth = maximum depths }

module _ (env : Env6) (k : Printer) (log : Log) (sorter : Sorter) (verbose : Bool) (tree : Tree)
    (fuel : ℕ) where
  module _ (is_tree : IsTree env.subtrees env.table env.root tree) (few_nodes : size tree < 2 ^ 29)
      (enough : 3 * size tree + 2 ≤ fuel) (got : env.mad_allocated ≡ true) where
    module _ (p : Plan6) (fits : p.loop_count ≤ p.room) (bounded : p.room < 2 ^ 48)
        (pos : 0 < p.batch) (few : 95 * p.loop_count < 2 ^ 32) (values : List ℕ)
        (same : values ≡ measured6 env p p.warmup_count) (many : 20 ≤ length values)
        (within : IsWithin 0 (2 ^ 63 - 1) values) (small : sum values < 2 ^ 64) where
      after_warmup6-IsReport6 :
          (w : World Config)
          → Returns
              (λ r.
                IsReport6 Printk.summary k log values
                  (depths_of tree)
                  env.table_id
                  p.batch
                  verbose
                  r.0
                × (r.1 ≡ record w { locked = false }))
              (after_warmup6 env k log sorter fuel verbose p
                (warm6 (start6 env p p.warmup_count))
                w)
      unfolding after_warmup6 mutex_unlock
      after_warmup6-IsReport6 w =
          let d = depths_of tree in
          let (s, run, kept) =
            Returns-ok (λ s. s.results ≡ measured6 env p p.warmup_count)
              (measure_all env p (start6 env p p.warmup_count))
              (measure_all-eq-measured6 env p p.warmup_count fits bounded pos) in
          let bound = rw run at (measure_all-Returns env p p.warmup_count fits bounded pos) in
          let e : s.results ≡ values = kept ∙ sym same in
          let count : length s.results ≤ p.loop_count = count_le _ p.batch _ pos bound.1 in
          let report =
            finish6-IsReport6 env k log sorter tree fuel p.warmup_count verbose p s run
              (omega (arith, few, count)) (rw e many) (rw e within) (rw e small) is_tree few_nodes
              enough got in
          rw run (
            Returns-bind (IsReport6 Printk.summary k log s.results d env.table_id p.batch verbose)
              (λ r.
                IsReport6 Printk.summary k log values d env.table_id p.batch verbose r.0
                × (r.1 ≡ record w { locked = false }))
              (finish6 env k log sorter fuel verbose p s)
              (λ page. ok (page, record w { locked = false })) report
              (λ page h. (
                subst (λ xs. IsReport6 Printk.summary k log xs d env.table_id p.batch verbose page)
                    e h,
                refl,
              )))

-- From a free mutex and valid variables of the IPv6 module, where `loop_count` is below 2 ^ 48,
-- other callers leave no greater one between the allocations and the mutex, 95 times the one they
-- leave is below 2 ^ 32, all allocations succeed, the routing table is a tree of fewer than 2 ^ 29
-- nodes that the fuel is enough for, and the warm-up ends without an error, a whole run whose
-- measured values (those of the independent description of its search and its batches) are at least
-- twenty, below 2 ^ 63, and with a sum below 2 ^ 64, returns. Its page is the right report of those
-- values and of the depths of the tree's routes, with the histogram if it is asked for. Variables,
-- mutex and references are as they were behind the requests of the other callers.
pub do_bench6_beside-IsReport6 :
    (env : Env6) (kernel : Kernel) (k : Printer) (log : Log) (sorter : Sorter) (verbose : Bool)
    (tree : Tree) (fuel : ℕ) (rs : List Request) (replies : List Reply) (w w' : World Config)
    → IsReady w
    → serve_all kernel k rs w ≡ ok (replies, w')
    → w'.config.loop_count ≤ w.config.loop_count
    → w.config.loop_count < 2 ^ 48
    → 95 * w'.config.loop_count < 2 ^ 32
    → IsTree env.subtrees env.table env.root tree
    → size tree < 2 ^ 29
    → 3 * size tree + 2 ≤ fuel
    → env.mad_allocated ≡ true
    → lacks_memory env k log sorter fuel verbose w.config.batch_count ≡ false
    → warmup6 env w'.config.warmup_count
        (plan_beside env w w').flow
        (start6 env (plan_beside env w w') 0)
      ≡ warm6 (start6 env (plan_beside env w w') w'.config.warmup_count)
    → 20 ≤ length (measured6 env (plan_beside env w w') w'.config.warmup_count)
    → IsWithin 0 (2 ^ 63 - 1) (measured6 env (plan_beside env w w') w'.config.warmup_count)
    → sum (measured6 env (plan_beside env w w') w'.config.warmup_count) < 2 ^ 64
    → Returns
        (λ r.
          IsReport6 Printk.summary k log
            (measured6 env (plan_beside env w w') w'.config.warmup_count)
            (depths_of tree)
            env.table_id
            w.config.batch_count
            verbose
            r.0
          × (r.1 ≡ w'))
        (do_bench6_beside env k log sorter fuel verbose (serving kernel k rs) w)
unfolding do_bench6_beside mutex_lock get_config plan6
do_bench6_beside-IsReport6 env kernel k log sorter verbose tree fuel rs replies w w' ready served
      fewer bounded few is_tree few_nodes enough got room warmed many within small =
    let p = plan_beside env w w' in
    let ready' : IsReady w' = rw served at (serve_all-IsReady_v6 kernel k rs w ready) in
    let free = ready'.free in
    let run =
      after_warmup6-IsReport6 env k log sorter verbose tree fuel is_tree few_nodes enough got p
        fewer bounded ready.valid.batch_count_ok.0 few _ refl many within small
        (record w' { locked = true }) in
    rw (room, served, free, warmed) run
