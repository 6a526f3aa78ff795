-- ===== src/Fib6/Collect.antt =====
-- The result of `collect_depth` over a tree, against the depths of its routes.
use Prim.Native.Nat.{max}
use native.Mathlib.Nat.{div-zero}
use network_lab.Common.{
  ℕ, ◌+◌, ◌-◌, ◌*◌, ◌/◌, ◌^◌, ◌≤◌, ◌<◌, ◌≡◌, ◌≢◌, ap, Bool, false, some, List, [], ◌∷◌, ◌++◌, ok,
  if◌then◌else◌, arith, length, length-append, sum, sum-append,
}
use network_lab.Fib6.{
  Ptr, Node, Heap, fws_u, Tally, Walk, stop, visit, fws_init, step, conclude, no_routes,
  collect_depth,
}
use network_lab.Fib6.Steps.{run-stop}
use network_lab.Fib6.Tree.{
  Tree, empty, branch, size, route_depths, visit_all, IsTree, rounds, rounds-le,
}
use network_lab.Fib6.Rounds.{at}
use network_lab.Fib6.Traversal.{pass, pass_node}

abbrev pub maximum : List ℕ → ℕ
maximum [] = 0
maximum (d ∷ ds) = max d (maximum ds)

-- What `visit_all` adds up, where nothing overflows.
record Adds (ds : List ℕ) (t t' : Tally) : Type 0 where
  total : t'.total ≡ t.total + sum ds
  count : t'.count ≡ t.count + length ds
  deepest : t'.deepest ≡ max t.deepest (maximum ds)

visit-Adds :
    (d : ℕ) (t : Tally) → t.total + d < 2 ^ 64 → t.count + 1 < 2 ^ 32 → Adds (d ∷ []) t (visit d t)
unfolding visit
visit-Adds d t h k = ground arith

visit_all-Adds :
    (ds : List ℕ) (t : Tally)
    → t.total + sum ds < 2 ^ 64
    → t.count + length ds < 2 ^ 32
    → Adds ds t (visit_all ds t)
visit_all-Adds [] t h k = record { total = omega arith; count = omega arith; deepest = omega arith }
visit_all-Adds (d ∷ ds) t h k =
    let one = visit-Adds d t (omega arith) (omega arith) in
    let rest =
      visit_all-Adds ds (visit d t) (omega (arith, one.total)) (omega (arith, one.count)) in
    record {
      total = omega (arith, one.total, rest.total);
      count = omega (arith, one.count, rest.count);
      deepest = omega (arith, one.deepest, rest.deepest);
    }

-- There are no more routes than nodes, and none is deeper than there are nodes.
record Small (d : ℕ) (tree : Tree) : Type 0 where
  count : length (route_depths d tree) ≤ size tree
  total : sum (route_depths d tree) ≤ length (route_depths d tree) * (d + size tree)

join-Small :
    (d : ℕ) (b : Bool) (l r : Tree) → Small (d + 1) l → Small (d + 1) r → Small d (branch b l r)
join-Small d b l r left right =
    let dl = route_depths (d + 1) l in
    let dr = route_depths (d + 1) r in
    let here = if b then d ∷ [] else [] in
    let bound : ℕ = d + (1 + size l + size r) in
    let widen_l : length dl * (d + 1 + size l) ≤ length dl * bound = grind arith in
    let widen_r : length dr * (d + 1 + size r) ≤ length dr * bound = grind arith in
    let few : length here ≤ 1 = ground arith in
    let own : sum here ≤ length here * bound = ground arith in
    record {
      count =
          omega
            (arith, left.count, right.count, length-append (dl ++ dr) here, length-append dl dr);
      total = omega (
        arith,
        left.total,
        right.total,
        length-append (dl ++ dr) here,
        length-append dl dr,
        sum-append (dl ++ dr) here,
        sum-append dl dr,
        ap (λ (n : ℕ). n * bound) (length-append (dl ++ dr) here),
        ap (λ (n : ℕ). n * bound) (length-append dl dr),
      );
    }

route_depths-Small : (tree : Tree) (d : ℕ) → Small d tree
route_depths-Small empty d = record { count = omega arith; total = omega arith }
route_depths-Small (branch b l r) d =
    join-Small d b l r (route_depths-Small l (d + 1)) (route_depths-Small r (d + 1))

conclude_lem :
    (t : Tally) (total count deepest : ℕ)
    → t.total ≡ total
    → t.count ≡ count
    → t.deepest ≡ deepest
    → total * 10 < 2 ^ 64
    → conclude t ≡ record { avgdepth = total * 10 / count; maxdepth = deepest }
unfolding conclude
conclude_lem t total count deepest e f g small = ground (arith, div-zero (total * 10))

conclude-visit_all :
    (ds : List ℕ) (n : ℕ)
    → length ds ≤ n
    → sum ds ≤ length ds * n
    → n < 2 ^ 29
    → conclude (visit_all ds no_routes)
      ≡ record { avgdepth = sum ds * 10 / length ds; maxdepth = maximum ds }
conclude-visit_all ds n few low small =
    let square : length ds * n ≤ n * n = grind arith in
    let square' : n * n ≤ 2 ^ 29 * n = grind arith in
    let adds = visit_all-Adds ds no_routes (omega arith) (omega arith) in
    conclude_lem (visit_all ds no_routes) (sum ds) (length ds) (maximum ds)
      (omega (arith, adds.total)) (omega (arith, adds.count)) (omega (arith, adds.deepest))
      (omega arith)

step-null :
    (subtrees : Bool) (h : Heap) (root : Ptr) (w : Walk)
    → w.node ≡ 0
    → step subtrees h root w ≡ ok (stop w)
unfolding step
step-null subtrees h root w e = ground arith

step-root :
    (subtrees : Bool) (h : Heap) (root : Ptr) (n : Node) (leaf : Bool) (d : ℕ) (t : Tally)
    → h root ≡ some n
    → root ≢ 0
    → step subtrees h root (at root fws_u leaf d t) ≡ ok (stop (at root fws_u leaf d t))
unfolding step
step-root subtrees h root n leaf d t e z = ground arith

-- From the root of a heap that holds a tree of fewer than 2 ^ 29 nodes, in a kernel without
-- subtrees or where none of its nodes has one, and with fuel for three rounds a node and two more,
-- the walk ends without a fault. It returns ten times the mean depth of the nodes with routes,
-- rounded down (0 where there are none), and the depth of the deepest one.
pub collect_depth-route_depths :
    (subtrees : Bool) (h : Heap) (root : Ptr) (tree : Tree) (fuel : ℕ)
    → IsTree subtrees h root tree
    → size tree < 2 ^ 29
    → 3 * size tree + 2 ≤ fuel
    → collect_depth subtrees fuel h root
      ≡ ok (record {
        avgdepth = sum (route_depths 0 tree) * 10 / length (route_depths 0 tree);
        maxdepth = maximum (route_depths 0 tree);
      })
unfolding collect_depth
collect_depth-route_depths subtrees h root empty fuel null small enough =
    let w = at root (fws_init subtrees h root) false 0 no_routes in
    rw (run-stop subtrees h root w w (step-null subtrees h root w null) fuel (omega arith))
      (ap ok (conclude-visit_all [] 0 (omega arith) (omega arith) (omega arith)))
collect_depth-route_depths subtrees h root (branch b l r) fuel (n, i, e, bl, br) small enough =
    let w = at root (fws_init subtrees h root) false 0 no_routes in
    let depths = route_depths 0 (branch b l r) in
    let (leaf', reach) =
      pass_node subtrees h root root n.parent n i 0 b l r no_routes e (omega arith) bl br
        (pass subtrees h root l n.left root 1 no_routes (omega arith) bl)
        (pass subtrees h root r n.right root 1 (visit_all (route_depths 1 l) no_routes)
          (omega arith) br)
        false in
    let end = at root fws_u leaf' 0 (visit_all depths no_routes) in
    let count = rounds-le (branch b l r) in
    let bounds = route_depths-Small (branch b l r) 0 in
    rw
      (
        reach fuel (omega arith),
        run-stop subtrees h root end end
            (step-root subtrees h root n leaf' 0 (visit_all depths no_routes) i.found i.not_null)
            (fuel - rounds (branch b l r)) (omega arith),
      )
      (ap ok (
        conclude-visit_all depths (size (branch b l r)) bounds.count (omega (arith, bounds.total))
          small))
