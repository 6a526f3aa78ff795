-- ===== src/Fib6/Steps.antt =====
-- Runs of the walk, as numbers of rounds between two of its states.
use network_lab.Common.{ℕ, zero, suc, ◌+◌, ◌-◌, ◌<◌, ◌≡◌, ap, ◌∙◌, Bool, ok, arith}
use network_lab.Fib6.{Heap, Ptr, Walk, next, stop, step, run}

module _ (subtrees : Bool) (h : Heap) (root : Ptr) where
  -- With more than `c` rounds left, the walk at `w` goes on as the walk at `w'` after `c` of them.
  abbrev pub Reaches : ℕ → Walk → Walk → Type 0
  Reaches c w w' =
      (fuel : ℕ) → c < fuel → run subtrees h root fuel w ≡ run subtrees h root (fuel - c) w'

  pub Reaches-next : (w w' : Walk) → step subtrees h root w ≡ ok (next w') → Reaches 1 w w'
  unfolding run
  Reaches-next w w' e zero lt = absurd (omega arith)
  Reaches-next w w' e (suc fuel) lt = let same : suc fuel - 1 ≡ fuel = omega arith in rw (e, same)

  pub Reaches-same :
      (w w' : Walk) → step subtrees h root w ≡ step subtrees h root w' → Reaches 0 w w'
  unfolding run
  Reaches-same w w' e zero lt = absurd (omega arith)
  Reaches-same w w' e (suc fuel) lt =
      let same : suc fuel - 0 ≡ suc fuel = omega arith in rw (same, e)

  pub Reaches-trans :
      (w w' w'' : Walk) (c d : ℕ) → Reaches c w w' → Reaches d w' w'' → Reaches (c + d) w w''
  Reaches-trans w w' w'' c d r r' fuel lt =
      let same : fuel - c - d ≡ fuel - (c + d) = omega arith in
      r fuel (omega arith) ∙ r' (fuel - c) (omega arith) ∙ ap (λ f. run subtrees h root f w'') same

  pub run-stop :
      (w w' : Walk)
      → step subtrees h root w ≡ ok (stop w')
      → (fuel : ℕ) → 0 < fuel
      → run subtrees h root fuel w ≡ ok w'
  unfolding run
  run-stop w w' e zero lt = absurd (omega arith)
  run-stop w w' e (suc fuel) lt = rw e

  -- Down to a child, through it, and up again.
  pub Reaches-round_trip :
      (w a b w' : Walk) (c : ℕ)
      → step subtrees h root w ≡ ok (next a)
      → Reaches c a b
      → step subtrees h root b ≡ ok (next w')
      → Reaches (c + 2) w w'
  Reaches-round_trip w a b w' c down through up fuel lt =
      let whole =
        Reaches-trans w a w' 1 (c + 1) (Reaches-next w a down)
          (Reaches-trans a b w' c 1 through (Reaches-next b w' up)) in
      let same : fuel - (1 + (c + 1)) ≡ fuel - (c + 2) = omega arith in
      whole fuel (omega arith) ∙ ap (λ f. run subtrees h root f w') same

  -- Two states with one round in common go on alike.
  pub Reaches-start :
      (w w' w'' : Walk) (c : ℕ)
      → step subtrees h root w ≡ step subtrees h root w'
      → Reaches c w' w''
      → Reaches c w w''
  Reaches-start w w' w'' c e r fuel lt =
      Reaches-same w w' e fuel (omega arith)
      ∙ ap (λ f. run subtrees h root f w') (omega arith)
      ∙ r fuel lt
