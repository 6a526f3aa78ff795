-- ===== src/Examples/Routes.antt =====
-- A walk over four nodes, and one over a node with a subtree.
use network_lab.Common.{
  ◌-◌, ◌^◌, ◌≡◌, refl, Bool, true, false, none, some, [], ◌∷◌, ok, arith, ◌==◌, if◌then◌else◌,
}
use network_lab.Fib6.{Ptr, Node, Heap, fws_s, fws_l, no_routes, collect_depth}
use network_lab.Fib6.Tree.{Tree, empty, branch, IsTree, visit_all}
use network_lab.Fib6.Rounds.{at}
use network_lab.Fib6.Steps.{Reaches}
use network_lab.Fib6.Collect.{collect_depth-route_depths}
use network_lab.Fib6.Subtree.{Hangs, subtree-depth}

abbrev pub node : Ptr → Ptr → Ptr → Bool → Node
node parent left right route = record {
  left = left;
  right = right;
  parent = parent;
  subtree = 0;
  has_leaf = route;
  is_route = route;
}

-- The default route at the root, one route at depth 1, and one at depth 2.
abbrev pub heap : Heap
heap p =
    if p == 1
    then some (node 0 2 3 true)
    else if p == 2
    then some (node 1 0 0 true)
    else if p == 3
    then some (node 1 4 0 false)
    else if p == 4
    then some (node 3 0 0 true)
    else none

abbrev pub tree : Tree
tree = branch true (branch true empty empty) (branch false (branch true empty empty) empty)

pub heap-IsTree : IsTree true heap 1 tree
heap-IsTree = (
  node 0 2 3 true,
  ground arith,
  refl,
  (node 1 0 0 true, ground arith, omega arith, refl, refl, refl),
  (
    node 1 4 0 false,
    ground arith,
    omega arith,
    refl,
    (node 3 0 0 true, ground arith, omega arith, refl, refl, refl),
    refl,
  ),
)

collect_depth-route_depths_example :
    collect_depth true 14 heap 1 ≡ ok (record { avgdepth = 10; maxdepth = 2 })
collect_depth-route_depths_example =
    collect_depth-route_depths true heap 1 tree 14 heap-IsTree (omega arith) (omega arith)

-- The root with a route of its own, and a subtree of one node with a route.
abbrev above : Node
above = record (node 0 0 0 true) { subtree = 2 }

abbrev hung : Node
hung = node 1 0 0 true

abbrev two : Heap
two p = if p == 1 then some above else if p == 2 then some hung else none

two-Hangs : Hangs two 1 1 2 above hung
two-Hangs = record {
  found = refl;
  not_null = omega arith;
  link = refl;
  holds = ground arith;
  inner = omega arith;
  no_left = refl;
  no_right = refl;
}

subtree-depth_example :
    (leaf' : Bool) × Reaches true two 1 3
      (at 1 fws_s false 0 no_routes)
      (at 1 fws_l leaf' (2 ^ 64 - 1) (visit_all (0 ∷ []) no_routes))
subtree-depth_example = subtree-depth two 1 1 2 above hung two-Hangs 0 true false no_routes refl
