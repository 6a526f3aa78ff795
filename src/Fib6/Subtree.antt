-- ===== src/Fib6/Subtree.antt =====
-- What the walk does with a subtree, in a kernel that has them.
use network_lab.Common.{
  ℕ, ◌+◌, ◌-◌, ◌%◌, ◌^◌, ◌≡◌, ◌≢◌, Bool, true, ◌&&◌, some, [], ◌∷◌, ok, if◌then◌else◌, arith,
}
use network_lab.Fib6.{Ptr, Node, Heap, fws_s, fws_l, fws_r, fws_c, fws_u, Tally, next, step}
use network_lab.Fib6.Steps.{Reaches, Reaches-start, Reaches-trans, Reaches-next}
use network_lab.Fib6.Tree.{visit_all, Holds}
use network_lab.Fib6.Rounds.{at, step-init, step-no_left, step-no_right}
use network_lab.Fib6.Traversal.{pass_routes}

-- A node `p` with a subtree whose root, `s`, has no children.
pub record Hangs (h : Heap) (root p s : Ptr) (n m : Node) : Type 0 where
  pub found : h p ≡ some n
  pub not_null : p ≢ 0
  pub link : n.subtree ≡ s
  pub holds : Holds true h s p m
  pub inner : s ≢ root
  pub no_left : m.left ≡ 0
  pub no_right : m.right ≡ 0

module _ (h : Heap) (root p s : Ptr) (n m : Node) (i : Hangs h root p s n m) (d : ℕ) where
  step-subtree :
      (leaf : Bool) (t : Tally)
      → step true h root (at p fws_s leaf d t) ≡ ok (next (at s fws_s leaf d t))
  unfolding step
  step-subtree leaf t = ground (arith, i.found, i.not_null, i.link, i.holds.not_null)

  step-up_subtree :
      (leaf : Bool) (t : Tally)
      → step true h root (at s fws_u leaf d t)
        ≡ ok (next (at p fws_l leaf ((d + 2 ^ 64 - 1) % 2 ^ 64) t))
  unfolding step
  step-up_subtree leaf t =
      ground (arith, i.found, i.inner, i.link, i.holds.found, i.holds.not_null, i.holds.back)

  -- In a kernel with subtrees, the walk enters a subtree of one node without a step down in
  -- `depth`, counts its routes at the depth of the node above, and takes one off `depth` when it
  -- leaves, which wraps to 2 ^ 64 - 1 at depth 0.
  pub subtree-depth :
      (b leaf : Bool) (t : Tally)
      → (m.has_leaf && m.is_route) ≡ b
      → (leaf' : Bool) × Reaches true h root
          (1 + ((if b then 1 else 0) + 1))
          (at p fws_s leaf d t)
          (at p fws_l leaf' ((d + 2 ^ 64 - 1) % 2 ^ 64) (visit_all (if b then d ∷ [] else []) t))
  subtree-depth b leaf t e =
      let rounds : ℕ = if b then 1 else 0 in
      let t' = visit_all (if b then d ∷ [] else []) t in
      let (leaf', routes) = pass_routes true h root s p m i.holds d b t e in
      let w0 = at s fws_s leaf d t in
      let w1 = at s fws_l leaf d t in
      let w2 = at s fws_r leaf d t in
      let w3 = at s fws_c m.has_leaf d t in
      let w4 = at s fws_u leaf' d t' in
      let w5 = at p fws_l leaf' ((d + 2 ^ 64 - 1) % 2 ^ 64) t' in
      let through =
        Reaches-start true h root w0 w1 w4 rounds (step-init true h root s p m i.holds leaf d t) (
          Reaches-start true h root w1 w2 w4 rounds
            (step-no_left true h root s p m i.holds leaf d t i.no_left)
            (Reaches-start true h root w2 w3 w4 rounds
              (step-no_right true h root s p m i.holds leaf d t i.no_right) routes)) in
      (
        leaf',
        Reaches-trans true h root (at p fws_s leaf d t) w0 w5 1 (rounds + 1)
            (Reaches-next true h root (at p fws_s leaf d t) w0 (step-subtree leaf t))
            (Reaches-trans true h root w0 w4 w5 rounds 1 through
              (Reaches-next true h root w4 w5 (step-up_subtree leaf' t'))),
      )
