-- ===== src/Livepatch/Load.antt =====
-- The load of the patch: all of it, or nothing.
use network_lab.Common.{
  ◌≡◌, refl, Bool, true, false, inl, inr, ◌⊎◌, not, ◌==ℤ◌, ℤ, pos, Bool-cases, arith,
}
use network_lab.Livepatch.{Patching, Warned, unregister, livepatch_init}

-- What the kernel promises: a registration or an enabling that fails changes nothing, and a patch that
-- was only registered can be unregistered again.
pub record IsPatching {S : Type 0} (klp : Patching S) (is_enabled : S → Bool) : Type 0 where
  pub register_error :
      (s : S) → ¬ ((klp.klp_register_patch s).0 ≡ pos 0) → (klp.klp_register_patch s).1 ≡ s
  pub enable_error :
      (s : S) → ¬ ((klp.klp_enable_patch s).0 ≡ pos 0) → (klp.klp_enable_patch s).1 ≡ s
  pub enabled :
      (s : S) → (klp.klp_enable_patch s).0 ≡ pos 0 → is_enabled (klp.klp_enable_patch s).1 ≡ true
  pub unregistered :
      (s : S)
      → (klp.klp_register_patch s).0 ≡ pos 0
      → klp.klp_unregister_patch (klp.klp_register_patch s).1 ≡ (pos 0, s)

nonzero : (a : ℤ) → not (a ==ℤ pos 0) ≡ true → ¬ (a ≡ pos 0)
nonzero a h = ground arith

is_zero : (a : ℤ) → not (a ==ℤ pos 0) ≡ false → a ≡ pos 0
is_zero a h = ground arith

module _ {S : Type 0} (klp : Patching S) (is_enabled : S → Bool)
    (laws : IsPatching klp is_enabled) where
  -- Where the kernel's functions leave its state alone when they fail, and a patch that was only
  -- registered can be unregistered, `livepatch_init` either returns 0 with the patch enabled, or
  -- returns an error with the state of the kernel as it was; in neither case is there a new
  -- warning.
  pub livepatch_init-all_or_nothing :
      (s : Warned S)
      → let r = livepatch_init klp s in
        ((r.0 ≡ pos 0) × (is_enabled r.1.state ≡ true) × (r.1.warnings ≡ s.warnings))
        ⊎ (¬ (r.0 ≡ pos 0) × (r.1 ≡ s))
  unfolding livepatch_init unregister
  livepatch_init-all_or_nothing s =
      let registered = klp.klp_register_patch s.state in
      let enabled = klp.klp_enable_patch registered.1 in
      elim (Bool-cases (not (registered.0 ==ℤ pos 0))) [
        | inl e ↦
            let refused = nonzero registered.0 e in
            rw (e, laws.register_error s.state refused) (inr (refused, refl))
        | inr e ↦ elim (Bool-cases (not (enabled.0 ==ℤ pos 0))) [
          | inl e' ↦
              let refused = nonzero enabled.0 e' in
              rw
                (
                  e,
                  e',
                  laws.enable_error registered.1 refused,
                  laws.unregistered s.state (is_zero registered.0 e),
                )
                (inr (refused, refl))
          | inr e' ↦ rw (e, e') (inl (refl, laws.enabled registered.1 (is_zero enabled.0 e'), refl))
        ]
      ]
