-- ===== src/Fib6/Tree.antt =====
-- The tree that a heap holds, and the depths of its routes in the order of the walk.
use network_lab.Common.{
  ℕ, ◌+◌, ◌*◌, ◌≤◌, ◌≡◌, ◌≢◌, refl, Bool, true, false, ◌&&◌, some, List, [], ◌∷◌, ◌++◌,
  if◌then◌else◌, arith,
}
use network_lab.Fib6.{Ptr, Node, Heap, Tally, visit}

-- A routing tree: `true` marks a node that holds routes.
pub data Tree : Type 0 where
  empty : Tree
  branch : Bool → Tree → Tree → Tree

abbrev pub size : Tree → ℕ
size empty = 0
size (branch b l r) = 1 + size l + size r

-- The depths of the nodes with routes, each behind those below it, from the depth `d` of the root.
abbrev pub route_depths : ℕ → Tree → List ℕ
route_depths d empty = []
route_depths d (branch b l r) =
    route_depths (d + 1) l ++ route_depths (d + 1) r ++ (if b then d ∷ [] else [])

-- The tally behind a list of depths.
abbrev pub visit_all : List ℕ → Tally → Tally
visit_all [] t = t
visit_all (d ∷ ds) t = visit_all ds (visit d t)

pub visit_all-append :
    (xs ys : List ℕ) (t : Tally) → visit_all (xs ++ ys) t ≡ visit_all ys (visit_all xs t)
visit_all-append [] ys t = refl
visit_all-append (x ∷ xs) ys t = visit_all-append xs ys (visit x t)

-- What the walk asks of the node of a tree. In a kernel with subtrees this node has none.
pub record Holds (subtrees : Bool) (h : Heap) (p parent : Ptr) (n : Node) : Type 0 where
  pub found : h p ≡ some n
  pub not_null : p ≢ 0
  pub back : n.parent ≡ parent
  pub apart : n.right ≢ 0 → n.left ≢ n.right
  pub plain : subtrees ≡ true → n.subtree ≡ 0

-- From `p`, below the root of the walk, the heap holds the tree.
abbrev pub Below : Bool → Heap → Ptr → Ptr → Ptr → Tree → Type 0
Below subtrees h root parent p empty = p ≡ 0
Below subtrees h root parent p (branch b l r) =
    (n : Node) × Holds subtrees h p parent n
    × (p ≢ root)
    × ((n.has_leaf && n.is_route) ≡ b)
    × Below subtrees h root p n.left l
    × Below subtrees h root p n.right r

-- From its root, whose own parent nothing asks for, the heap holds the tree.
abbrev pub IsTree : Bool → Heap → Ptr → Tree → Type 0
IsTree subtrees h root empty = root ≡ 0
IsTree subtrees h root (branch b l r) =
    (n : Node) × Holds subtrees h root n.parent n
    × ((n.has_leaf && n.is_route) ≡ b)
    × Below subtrees h root root n.left l
    × Below subtrees h root root n.right r

-- The way down to a child and the way up again.
abbrev pub link : Tree → ℕ
link empty = 0
link (branch b l r) = 2

-- The rounds from a node's entry until its own `FWS_U`.
abbrev pub rounds : Tree → ℕ
rounds empty = 0
rounds (branch b l r) = (rounds l + link l) + ((rounds r + link r) + (if b then 1 else 0))

pub rounds-le : (t : Tree) → rounds t + link t ≤ 3 * size t
rounds-le empty = omega arith
rounds-le (branch true l r) = omega (arith, rounds-le l, rounds-le r)
rounds-le (branch false l r) = omega (arith, rounds-le l, rounds-le r)
