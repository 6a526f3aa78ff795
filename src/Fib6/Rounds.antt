-- ===== src/Fib6/Rounds.antt =====
-- The rounds of the walk at a node: down to a child, past the routes, and up to the parent.
use network_lab.Common.{ℕ, ◌+◌, ◌%◌, ◌^◌, ◌<◌, ◌≡◌, ◌≢◌, Bool, true, false, ◌&&◌, ok, arith}
use network_lab.Fib6.{
  Ptr, Node, Heap, WalkState, fws_l, fws_r, fws_c, fws_u, Tally, Walk, next, visit, fws_init, step,
}
use network_lab.Fib6.Tree.{Holds}

abbrev pub at : Ptr → WalkState → Bool → ℕ → Tally → Walk
at p s leaf d t = record { node = p; state = s; leaf = leaf; depth = d; tally = t }

module _ (subtrees : Bool) (h : Heap) (root : Ptr) where
  module _ (p parent : Ptr) (n : Node) (i : Holds subtrees h p parent n) where
    pub step-init :
        (leaf : Bool) (d : ℕ) (t : Tally)
        → step subtrees h root (at p (fws_init subtrees h root) leaf d t)
          ≡ step subtrees h root (at p fws_l leaf d t)
    unfolding step
    step-init leaf d t = ground (arith, i.found, i.plain)

    pub step-left :
        (leaf : Bool) (d : ℕ) (t : Tally)
        → n.left ≢ 0
        → step subtrees h root (at p fws_l leaf d t)
          ≡ ok (next (at n.left (fws_init subtrees h root) leaf ((d + 1) % 2 ^ 64) t))
    unfolding step
    step-left leaf d t e = ground (arith, i.found)

    pub step-no_left :
        (leaf : Bool) (d : ℕ) (t : Tally)
        → n.left ≡ 0
        → step subtrees h root (at p fws_l leaf d t) ≡ step subtrees h root (at p fws_r leaf d t)
    unfolding step
    step-no_left leaf d t e = ground (arith, i.found)

    pub step-right :
        (leaf : Bool) (d : ℕ) (t : Tally)
        → n.right ≢ 0
        → step subtrees h root (at p fws_r leaf d t)
          ≡ ok (next (at n.right (fws_init subtrees h root) leaf ((d + 1) % 2 ^ 64) t))
    unfolding step
    step-right leaf d t e = ground (arith, i.found)

    pub step-no_right :
        (leaf : Bool) (d : ℕ) (t : Tally)
        → n.right ≡ 0
        → step subtrees h root (at p fws_r leaf d t)
          ≡ step subtrees h root (at p fws_c n.has_leaf d t)
    unfolding step
    step-no_right leaf d t e = ground (arith, i.found)

    pub step-count :
        (d : ℕ) (t : Tally)
        → (n.has_leaf && n.is_route) ≡ true
        → step subtrees h root (at p fws_c n.has_leaf d t)
          ≡ ok (next (at p fws_c false d (visit d t)))
    unfolding step
    step-count d t e = ground (arith, i.found)

    pub step-no_count :
        (leaf : Bool) (d : ℕ) (t : Tally)
        → (leaf && n.is_route) ≡ false
        → step subtrees h root (at p fws_c leaf d t) ≡ step subtrees h root (at p fws_u leaf d t)
    unfolding step
    step-no_count leaf d t e = ground (arith, i.found)

  module _ (p parent c : Ptr) (n m : Node) (i : Holds subtrees h p parent n)
      (j : Holds subtrees h c p m) (inner : c ≢ root) where
    pub step-up_left :
        (leaf : Bool) (d : ℕ) (t : Tally)
        → n.left ≡ c
        → d + 1 < 2 ^ 64
        → step subtrees h root (at c fws_u leaf (d + 1) t) ≡ ok (next (at p fws_r leaf d t))
    unfolding step
    step-up_left leaf d t e small =
        ground (arith, i.found, j.found, i.plain, i.not_null, j.not_null, j.back)

    pub step-up_right :
        (leaf : Bool) (d : ℕ) (t : Tally)
        → n.right ≡ c
        → d + 1 < 2 ^ 64
        → step subtrees h root (at c fws_u leaf (d + 1) t) ≡ ok (next (at p fws_c n.has_leaf d t))
    unfolding step
    step-up_right leaf d t e small =
        ground (arith, i.found, j.found, i.plain, i.apart, i.not_null, j.not_null, j.back)
