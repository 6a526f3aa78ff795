-- ===== src/Bench6/Outcome.antt =====
-- The whole of `do_bench` (IPv6): how a run can end.
use network_lab.Common.{
  ℕ, zero, suc, ◌+◌, ◌-◌, ◌*◌, ◌/◌, ◌^◌, ◌≤◌, ◌<◌, ◌≡◌, ap, refl, inl, inr, Bool, true, false, ok,
  Returns, Returns-ok, Ends, Ends-mono, Ends-bind, Ends-next, Bool-cases, not, ◌&&◌, ◌==ℤ◌, pos,
  arith, sum, length,
}
use network_lab.Sorting.{Sorter}
use network_lab.Sorting.Order.{IsWithin}
use network_lab.Printk.{Printer, Page, Summary, Fits, print, blank, print-Fits}
use network_lab.Printk
use network_lab.Display.{Log}
use network_lab.Display.Row.{shown}
use network_lab.Display.Rendering.{note, IsLine}
use network_lab.Display.Safety.{blank-Fits}
use network_lab.Fib6.{Depths, collect_depth}
use network_lab.Fib6.Tree.{Tree, IsTree, size, route_depths}
use network_lab.Fib6.Collect.{collect_depth-route_depths, maximum}
use network_lab.Sysfs.{World, mutex_unlock}
use network_lab.Sysfs.V6.{Config}
use network_lab.Bench6.{
  Env6, Plan6, Run6, Flow6, Warmup6, warm6, broken6, warmup6, measure_all, start6, route,
  dst_release,
}
use network_lab.Bench6.Whole.{finish6, after_warmup6}
use network_lab.Bench6.Safety.{measure_all-Returns}
use network_lab.Bench6.Page.{report6-Ends, full_report-IsReport6, IsReport6}
use network_lab.Bench6.Sum.{measure_all-Averaged}

summary-shown : (s : Summary) → shown (Printk.summary s) ≡ 0
unfolding shown
summary-shown s = refl

summary-IsLine : (s : Summary) → IsLine (Printk.summary s)
unfolding note
summary-IsLine s lines = refl

-- A run over the plan measured from one to nineteen results.
abbrev pub HasFewResults6 : Env6 → Plan6 → Type 0
HasFewResults6 env p =
    (s : Run6) × (measure_all env p (start6 env p p.warmup_count) ≡ ok s)
    × (0 < length s.results)
    × (length s.results < 20)

-- A warm-up is stopped by an error, or leaves the start of the search.
abbrev pub IsWarm : Env6 → Plan6 → ℕ → Warmup6 → Type 0
IsWarm env p n (broken6 err s) = Unit
IsWarm env p n (warm6 s) = s ≡ start6 env p n

pub warmup6-IsWarm :
    (env : Env6) (p : Plan6) (flow : Flow6) (rounds n : ℕ)
    → IsWarm env p (n + rounds) (warmup6 env rounds flow (start6 env p n))
unfolding warmup6 route dst_release
warmup6-IsWarm env p flow zero n = ap (start6 env p) (omega arith)
warmup6-IsWarm env p flow (suc rounds) n =
    let next : n + 1 + rounds ≡ n + suc rounds = omega arith in
    let rest = rw next at (warmup6-IsWarm env p flow rounds (n + 1)) in
    let err = env.route_error n flow in
    elim (Bool-cases (not (err ==ℤ pos 0) && not (err ==ℤ env.net_unreachable))) [
      | inl e ↦ rw e tt
      | inr e ↦ rw e rest
    ]

module _ (env : Env6) (k : Printer) (log : Log) (sorter : Sorter) (fuel : ℕ) (verbose : Bool) where
  module _ (got : env.mad_allocated ≡ true) (d : Depths)
      (walk : collect_depth env.subtrees fuel env.table env.root ≡ ok d) where
    finish6-Ends :
        (p : Plan6) (s : Run6)
        → 95 * length s.results < 2 ^ 32
        → Ends
            ((0 < length s.results) × (length s.results < 20))
            (Fits k)
            (finish6 env k log sorter fuel verbose p s)
    unfolding finish6
    finish6-Ends p s few =
        rw (got, walk)
          (report6-Ends Printk.summary summary-shown k log sorter s.results d env.table_id s.average
            p.batch verbose few)

    measured-Ends :
        (p : Plan6) (w : World Config)
        → p.loop_count ≤ p.room
        → p.room < 2 ^ 48
        → 0 < p.batch
        → 95 * p.loop_count < 2 ^ 32
        → Ends
            (HasFewResults6 env p)
            (λ r. Fits k r.0 × (r.1 ≡ record w { locked = false }))
            (after_warmup6 env k log sorter fuel verbose p (warm6 (start6 env p p.warmup_count)) w)
    unfolding after_warmup6 mutex_unlock
    measured-Ends p w room bounded some_batch small =
        let (s, e, bound) =
          Returns-ok (λ s. (s.held ≡ 0) × (length s.results * p.batch ≤ p.loop_count))
            (measure_all env p (start6 env p p.warmup_count))
            (measure_all-Returns env p p.warmup_count room bounded some_batch) in
        let count : length s.results ≤ p.loop_count = grind (arith, bound.1, some_batch) in
        let q = λ (r : Page × World Config). Fits k r.0 × (r.1 ≡ record w { locked = false }) in
        Ends-next (HasFewResults6 env p) q (measure_all env p (start6 env p p.warmup_count)) s _ e (
          Ends-bind (HasFewResults6 env p) (Fits k) q (finish6 env k log sorter fuel verbose p s)
            (λ page. ok (page, record w { locked = false }))
            (Ends-mono ((0 < length s.results) × (length s.results < 20)) (HasFewResults6 env p)
              (Fits k) (finish6 env k log sorter fuel verbose p s) (λ h. (s, e, h.0, h.1))
              (finish6-Ends p s (omega (arith, small, count))))
            (λ page f. (f, refl)))

    pub after_warmup6-Ends :
        (p : Plan6) (u : Warmup6) (w : World Config)
        → p.loop_count ≤ p.room
        → p.room < 2 ^ 48
        → 0 < p.batch
        → 95 * p.loop_count < 2 ^ 32
        → IsWarm env p p.warmup_count u
        → Ends
            (HasFewResults6 env p)
            (λ r. Fits k r.0 × (r.1 ≡ record w { locked = false }))
            (after_warmup6 env k log sorter fuel verbose p u w)
    unfolding after_warmup6 mutex_unlock
    after_warmup6-Ends p (broken6 err s) w room bounded some_batch small warm =
        inl (print-Fits k (Printk.lookup_error err) blank (blank-Fits k log sorter), refl)
    after_warmup6-Ends p (warm6 s) w room bounded some_batch small warm =
        rw warm (measured-Ends p w room bounded some_batch small)

-- Behind a search that kept at least twenty results below 2 ^ 63, with a sum below 2 ^ 64 and 95
-- times their number below 2 ^ 32, over a tree of fewer than 2 ^ 29 nodes that the fuel is enough
-- for, and where the allocation in `mad` succeeds, the report fits the page and starts with two
-- lines: the right summary of the results, whose average is that of the results although it is kept
-- as a running sum, and the mean depth (in tenths) and the greatest depth of the routes of the
-- table. Without a histogram nothing else is on the page. With one, its rows follow: each shows how
-- many results are in its range, with the bars for those and for all results up to it, and no
-- result up to the 95th percentile is behind the last row unless the page is full.
pub finish6-IsReport6 :
    (env : Env6) (k : Printer) (log : Log) (sorter : Sorter) (tree : Tree) (fuel lookups : ℕ)
    (verbose : Bool) (p : Plan6) (s : Run6)
    → measure_all env p (start6 env p lookups) ≡ ok s
    → 95 * length s.results < 2 ^ 32
    → 20 ≤ length s.results
    → IsWithin 0 (2 ^ 63 - 1) s.results
    → sum s.results < 2 ^ 64
    → IsTree env.subtrees env.table env.root tree
    → size tree < 2 ^ 29
    → 3 * size tree + 2 ≤ fuel
    → env.mad_allocated ≡ true
    → let depths = route_depths 0 tree in
      let d : Depths = record {
        avgdepth = sum depths * 10 / length depths;
        maxdepth = maximum depths;
      } in
      Returns
        (IsReport6 Printk.summary k log s.results d env.table_id p.batch verbose)
        (finish6 env k log sorter fuel verbose p s)
unfolding finish6
finish6-IsReport6 env k log sorter tree fuel lookups verbose p s run few many w fits is_tree small
      enough got =
    let walk =
      collect_depth-route_depths env.subtrees env.table env.root tree fuel is_tree small enough in
    rw (got, walk, measure_all-Averaged env p lookups s run)
      (full_report-IsReport6 Printk.summary summary-shown summary-IsLine k log sorter s.results _
        env.table_id p.batch few many w fits verbose)
