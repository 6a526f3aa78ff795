-- ===== src/Fib6.antt =====
-- `collect_depth` of the IPv6 module: a walk over the kernel's routing tree that follows parent
-- pointers instead of a stack. Nodes stand at addresses, and 0 is NULL.
pub mod Steps
pub mod Tree
pub mod Rounds
pub mod Traversal
pub mod Collect
pub mod Subtree
use network_lab.Common.{
  ℕ, zero, suc, ◌+◌, ◌-◌, ◌*◌, ◌/◌, ◌%◌, ◌^◌, Bool, true, false, not, ◌&&◌, Option, none, some,
  Exec, ok, fault, null_pointer, out_of_fuel, ◌>>=◌, ltb, ◌==◌, if◌then◌else◌,
}

abbrev pub Ptr : Type 0
Ptr = ℕ

-- The fields of `struct fib6_node` that the walk reads. `has_leaf` says whether `leaf` points to
-- routes, and `is_route` whether `fn_flags` has RTN_RTINFO.
pub record Node : Type 0 where
  pub left : Ptr
  pub right : Ptr
  pub parent : Ptr
  pub subtree : Ptr
  pub has_leaf : Bool
  pub is_route : Bool

abbrev pub Heap : Type 0
Heap = Ptr → Option Node

unfoldable pub load : Heap → Ptr → Exec Node
load h p = elim (h p) [ none ↦ fault null_pointer | some n ↦ ok n ]

pub data WalkState : Type 0 where
  fws_s fws_l fws_r fws_c fws_u : WalkState

-- `totdepth`, `count` and `*maxdepth`
pub record Tally : Type 0 where
  pub total : ℕ
  pub count : ℕ
  pub deepest : ℕ

-- The variables of the loop. `leaf` says whether the variable of that name is not NULL.
pub record Walk : Type 0 where
  pub node : Ptr
  pub state : WalkState
  pub leaf : Bool
  pub depth : ℕ
  pub tally : Tally

-- How a round ends: by `continue` or the end of the switch, or by `goto end`.
pub data Next : Type 0 where
  next : Walk → Next
  stop : Walk → Next

unfoldable pub visit : ℕ → Tally → Tally
visit depth t = record {
  total = (t.total + depth) % 2 ^ 64;
  count = (t.count + 1) % 2 ^ 32;
  deepest = if ltb t.deepest depth then depth else t.deepest;
}

-- `subtrees` says whether the kernel has CONFIG_IPV6_SUBTREES. Each case of the switch is a function,
-- and calls the next one where the source falls through.
module _ (subtrees : Bool) (h : Heap) (root : Ptr) where
  abbrev pub fws_init : WalkState
  fws_init = if subtrees then fws_s else fws_l

  case_u : Node → Walk → Exec Next
  unfolding load
  case_u n w = if w.node == root then ok (stop w) else do
    pn ← load h n.parent
    let up : Walk = record w { node = n.parent; depth = (w.depth + 2 ^ 64 - 1) % 2 ^ 64 }
    ok (
        next (
          if subtrees && pn.subtree == w.node
          then record up { state = fws_l }
          else if pn.left == w.node
          then record up { state = fws_r }
          else if pn.right == w.node
          then record up { state = fws_c; leaf = pn.has_leaf }
          else up))

  case_c : Node → Walk → Exec Next
  unfolding visit case_u
  case_c n w =
      if w.leaf && n.is_route
      then ok (next (record w { leaf = false; tally = visit w.depth w.tally }))
      else case_u n (record w { state = fws_u })

  case_r : Node → Walk → Exec Next
  unfolding case_c
  case_r n w =
      if not (n.right == 0)
      then ok (next (record w { node = n.right; depth = (w.depth + 1) % 2 ^ 64; state = fws_init }))
      else case_c n (record w { state = fws_c; leaf = n.has_leaf })

  case_l : Node → Walk → Exec Next
  unfolding case_r
  case_l n w =
      if not (n.left == 0)
      then ok (next (record w { node = n.left; depth = (w.depth + 1) % 2 ^ 64; state = fws_init }))
      else case_r n (record w { state = fws_r })

  case_s : Node → Walk → Exec Next
  unfolding case_l
  case_s n w =
      if not (n.subtree == 0)
      then ok (next (record w { node = n.subtree }))
      else case_l n (record w { state = fws_l })

  dispatch : WalkState → Node → Walk → Exec Next
  unfolding case_s
  dispatch fws_s n w = if subtrees then case_s n w else ok (next w)
  dispatch fws_l n w = case_l n w
  dispatch fws_r n w = case_r n w
  dispatch fws_c n w = case_c n w
  dispatch fws_u n w = case_u n w

  -- One round of the loop.
  unfoldable pub step : Walk → Exec Next
  unfolding dispatch load
  step w = if w.node == 0 then ok (stop w) else do n ← load h w.node; dispatch w.state n w

  unfoldable pub run : ℕ → Walk → Exec Walk
  unfolding step
  run zero w = fault out_of_fuel
  run (suc fuel) w = step w >>= λ r. elim r [ next w' ↦ run fuel w' | stop w' ↦ ok w' ]

pub record Depths : Type 0 where
  pub avgdepth : ℕ
  pub maxdepth : ℕ

-- What stands at the label `end`.
unfoldable pub conclude : Tally → Depths
conclude t = record {
  avgdepth = if ltb 0 t.count then t.total * 10 % 2 ^ 64 / t.count else 0;
  maxdepth = t.deepest;
}

abbrev pub no_routes : Tally
no_routes = record { total = 0; count = 0; deepest = 0 }

unfoldable pub collect_depth : Bool → ℕ → Heap → Ptr → Exec Depths
unfolding run conclude
collect_depth subtrees fuel h root =
    run subtrees h root fuel (record {
      node = root;
      state = fws_init subtrees h root;
      leaf = false;
      depth = 0;
      tally = no_routes;
    })
    >>= λ w. ok (conclude w.tally)
