-- ===== src/Fib6/Traversal.antt =====
-- The walk of `collect_depth` over a tree, by induction on the tree.
use network_lab.Common.{
  ℕ, ◌+◌, ◌%◌, ◌^◌, ◌<◌, ◌≡◌, refl, ap, ◌∙◌, Bool, true, false, ◌&&◌, List, [], ◌∷◌, ◌++◌,
  if◌then◌else◌, arith,
}
use network_lab.Fib6.{Ptr, Node, Heap, fws_l, fws_r, fws_c, fws_u, Tally, visit, fws_init}
use network_lab.Fib6.Steps.{
  Reaches, Reaches-next, Reaches-same, Reaches-trans, Reaches-round_trip, Reaches-start,
}
use network_lab.Fib6.Tree.{
  Tree, empty, branch, size, route_depths, visit_all, visit_all-append, Holds, Below, link, rounds,
}
use network_lab.Fib6.Rounds.{
  at, step-init, step-left, step-no_left, step-right, step-no_right, step-count, step-no_count,
  step-up_left, step-up_right,
}

module _ (subtrees : Bool) (h : Heap) (root : Ptr) where
  -- From its entry the walk gets to its own `FWS_U`, with the routes below counted.
  abbrev Passes : Ptr → ℕ → ℕ → Tally → List ℕ → Type 0
  Passes p c d t depths =
      (leaf : Bool)
      → (leaf' : Bool) × Reaches subtrees h root c (at p (fws_init subtrees h root) leaf d t)
          (at p fws_u leaf' d (visit_all depths t))

  -- The same for a child that may be missing.
  abbrev PassesChild : Ptr → ℕ → Tally → Tree → Type 0
  PassesChild p d t empty = Unit
  PassesChild p d t (branch b l r) =
      Passes p (rounds (branch b l r)) d t (route_depths d (branch b l r))

  module _ (p parent : Ptr) (n : Node) (i : Holds subtrees h p parent n) (d : ℕ) where
    pass_left :
        (l : Tree) (t : Tally) (leaf : Bool)
        → d + 1 < 2 ^ 64
        → Below subtrees h root p n.left l
        → PassesChild n.left (d + 1) t l
        → (leaf' : Bool) × Reaches subtrees h root
            (rounds l + link l)
            (at p fws_l leaf d t)
            (at p fws_r leaf' d (visit_all (route_depths (d + 1) l) t))
    pass_left empty t leaf small e c = (
      leaf,
      Reaches-same subtrees h root (at p fws_l leaf d t) (at p fws_r leaf d t)
          (step-no_left subtrees h root p parent n i leaf d t e),
    )
    pass_left (branch b l r) t leaf small (m, j, inner, _, _, _) c =
        let (leaf', through) = c leaf in
        let depths = route_depths (d + 1) (branch b l r) in
        let fits : (d + 1) % 2 ^ 64 ≡ d + 1 = omega arith in
        (
          leaf',
          Reaches-round_trip subtrees h root (at p fws_l leaf d t)
              (at n.left (fws_init subtrees h root) leaf (d + 1) t)
              (at n.left fws_u leaf' (d + 1) (visit_all depths t))
              (at p fws_r leaf' d (visit_all depths t)) (rounds (branch b l r))
              (rw fits at (step-left subtrees h root p parent n i leaf d t j.not_null)) through
              (step-up_left subtrees h root p parent n.left n m i j inner leaf' d
                (visit_all depths t) refl small),
        )

    pass_right :
        (r : Tree) (t : Tally) (leaf : Bool)
        → d + 1 < 2 ^ 64
        → Below subtrees h root p n.right r
        → PassesChild n.right (d + 1) t r
        → Reaches subtrees h root
            (rounds r + link r)
            (at p fws_r leaf d t)
            (at p fws_c n.has_leaf d (visit_all (route_depths (d + 1) r) t))
    pass_right empty t leaf small e c =
        Reaches-same subtrees h root (at p fws_r leaf d t) (at p fws_c n.has_leaf d t)
          (step-no_right subtrees h root p parent n i leaf d t e)
    pass_right (branch b l r) t leaf small (m, j, inner, _, _, _) c =
        let (leaf', through) = c leaf in
        let depths = route_depths (d + 1) (branch b l r) in
        let fits : (d + 1) % 2 ^ 64 ≡ d + 1 = omega arith in
        Reaches-round_trip subtrees h root (at p fws_r leaf d t)
          (at n.right (fws_init subtrees h root) leaf (d + 1) t)
          (at n.right fws_u leaf' (d + 1) (visit_all depths t))
          (at p fws_c n.has_leaf d (visit_all depths t)) (rounds (branch b l r))
          (rw fits at (step-right subtrees h root p parent n i leaf d t j.not_null)) through
          (step-up_right subtrees h root p parent n.right n m i j inner leaf' d (visit_all depths t)
            refl small)

    pub pass_routes :
        (b : Bool) (t : Tally)
        → (n.has_leaf && n.is_route) ≡ b
        → (leaf' : Bool) × Reaches subtrees h root
            (if b then 1 else 0)
            (at p fws_c n.has_leaf d t)
            (at p fws_u leaf' d (visit_all (if b then d ∷ [] else []) t))
    pass_routes true t e = (
      false,
      Reaches-trans subtrees h root (at p fws_c n.has_leaf d t) (at p fws_c false d (visit d t))
          (at p fws_u false d (visit d t)) 1 0
          (Reaches-next subtrees h root _ _ (step-count subtrees h root p parent n i d t e))
          (Reaches-same subtrees h root _ _
            (step-no_count subtrees h root p parent n i false d (visit d t) refl)),
    )
    pass_routes false t e = (
      n.has_leaf,
      Reaches-same subtrees h root (at p fws_c n.has_leaf d t) (at p fws_u n.has_leaf d t)
          (step-no_count subtrees h root p parent n i n.has_leaf d t e),
    )

    -- A node with both of its links.
    pub pass_node :
        (b : Bool) (l r : Tree) (t : Tally)
        → (n.has_leaf && n.is_route) ≡ b
        → d + 1 < 2 ^ 64
        → Below subtrees h root p n.left l
        → Below subtrees h root p n.right r
        → PassesChild n.left (d + 1) t l
        → PassesChild n.right (d + 1) (visit_all (route_depths (d + 1) l) t) r
        → Passes p (rounds (branch b l r)) d t (route_depths d (branch b l r))
    pass_node b l r t e small bl br cl cr leaf =
        let dl = route_depths (d + 1) l in
        let dr = route_depths (d + 1) r in
        let here = if b then d ∷ [] else [] in
        let (leaf1, left) = pass_left l t leaf small bl cl in
        let right = pass_right r (visit_all dl t) leaf1 small br cr in
        let (leaf2, routes) = pass_routes b (visit_all dr (visit_all dl t)) e in
        let w0 = at p fws_l leaf d t in
        let w1 = at p fws_r leaf1 d (visit_all dl t) in
        let w2 = at p fws_c n.has_leaf d (visit_all dr (visit_all dl t)) in
        let w3 = at p fws_u leaf2 d (visit_all here (visit_all dr (visit_all dl t))) in
        let whole =
          Reaches-trans subtrees h root w0 w1 w3 (rounds l + link l)
            (rounds r + link r + (if b then 1 else 0)) left
            (Reaches-trans subtrees h root w1 w2 w3 (rounds r + link r) (if b then 1 else 0) right
              routes) in
        let counted : visit_all (dl ++ dr ++ here) t
            ≡ visit_all here (visit_all dr (visit_all dl t)) =
          visit_all-append (dl ++ dr) here t ∙ ap (visit_all here) (visit_all-append dl dr t) in
        (
          leaf2,
          rw counted (
              Reaches-start subtrees h root (at p (fws_init subtrees h root) leaf d t) w0 w3
                (rounds (branch b l r)) (step-init subtrees h root p parent n i leaf d t) whole),
        )

  pub pass :
      (tree : Tree) (p parent : Ptr) (d : ℕ) (t : Tally)
      → d + size tree < 2 ^ 64
      → Below subtrees h root parent p tree
      → PassesChild p d t tree
  pass empty p parent d t small b = tt
  pass (branch b l r) p parent d t small (n, i, inner, e, bl, br) =
      pass_node p parent n i d b l r t e (omega arith) bl br
        (pass l n.left p (d + 1) t (omega arith) bl)
        (pass r n.right p (d + 1) (visit_all (route_depths (d + 1) l) t) (omega arith) br)
