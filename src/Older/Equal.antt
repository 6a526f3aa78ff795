-- ===== src/Older/Equal.antt =====
-- `do_bench` of the older IPv6 module, against that of the module of 2026.
use mathlib.Core.Path.{fun_ext}
use network_lab.Common.{
  Option, fault, ◌∙◌, if◌then◌else◌, ℕ, zero, suc, ◌≡◌, refl, ℤ, Exec, ok, ◌>>=◌, leb, ap, length,
}
use network_lab.Sysfs.Old.{Config}
use network_lab.Sysfs.Old.Simulation.{widen}
use network_lab.Bench6.{
  Env6, Plan6, Run6, plan6, search_round, search_loop, measure_lookup, measure_all, total6,
}
use network_lab.Older.{older_plan, older_round, older_loop}

bind-ok : {A : Type 0} (m : Exec A) → (m >>= λ a. ok a) ≡ m
bind-ok (ok a) = refl
bind-ok (fault f) = refl

module _ (env : Env6) (released : ℕ → Option ℤ) where
  pub older_plan-widen :
      (room : ℕ) (c : Config) → plan6 env room 1 (widen c) ≡ older_plan env released room c
  unfolding plan6 older_plan
  older_plan-widen room c = refl

  module _ (p : Plan6) (single : p.batch ≡ 1) where
    older_round-eq-search_round : (s : Run6) → search_round env p s ≡ older_round env released p s
    unfolding search_round measure_lookup older_round
    older_round-eq-search_round s = rw single refl

    total6-single : (s : Run6) → total6 env p s ≡ length s.results
    unfolding total6
    total6-single s = rw single refl

    older_loop-eq-search_loop :
        (rounds : ℕ) (s : Run6) → search_loop env p rounds s ≡ older_loop env released p rounds s
    unfolding search_loop older_loop
    older_loop-eq-search_loop zero s = refl
    older_loop-eq-search_loop (suc rounds) s =
        let step =
          ap (λ f. older_round env released p s >>= f)
            (fun_ext (older_loop-eq-search_loop rounds)) in
        rw (total6-single s, older_round-eq-search_round s)
          (ap (λ rest. if leb p.loop_count (length s.results) then ok s else rest) step)

  -- Over the plans of the same variables, the loop of the older IPv6 module is the search of the
  -- newer module without batches: from the same state both end in the same state, or with the same
  -- fault.
  pub older_loop-eq-measure_all :
      (room : ℕ) (c : Config) (s : Run6)
      → measure_all env (plan6 env room 1 (widen c)) s
        ≡ older_loop env released (older_plan env released room c) c.max_loop_count s
  unfolding measure_all plan6
  older_loop-eq-measure_all room c s =
      let p = plan6 env room 1 (widen c) in
      bind-ok (search_loop env p c.max_loop_count s)
      ∙ older_loop-eq-search_loop p refl c.max_loop_count s
      ∙ ap (λ q. older_loop env released q c.max_loop_count s) (older_plan-widen room c)
