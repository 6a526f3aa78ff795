-- ===== src/Lifecycle/Reach.antt =====
-- What holds all through the life of a module, and what it can always do next.
use network_lab.Common.{
  ℕ, ◌≡◌, refl, true, false, Option, none, some, ok, inl, inr, Bool-cases, Returns, Returns-ok,
  IfOk, ◌∙◌,
}
use network_lab.Sysfs.{World, Errno}
use network_lab.Lifecycle.{
  Kobjects, conclude_init, kbench_init, kbench_exit, Service, Stage, unloaded, loaded, crashed,
  StateOf, fresh, Step, insert, refuse, answer, crash, remove, Life, here, later,
}

-- What the kernel promises: a call that is refused changes nothing, and a removal undoes the call that
-- it is the removal for.
pub record IsKobjects {S : Type 0} (k : Kobjects S) : Type 0 where
  pub object_refused :
      (turn : ℕ) (s : S)
      → (k.kobject_create_and_add turn s).0 ≡ false
      → (k.kobject_create_and_add turn s).1 ≡ s
  pub group_refused :
      (turn : ℕ) (e : Errno) (s : S)
      → (k.sysfs_create_group turn s).0 ≡ some e
      → (k.sysfs_create_group turn s).1 ≡ s
  pub group_has_files :
      (turn : ℕ) (s : S)
      → (k.sysfs_create_group turn s).0 ≡ none
      → k.has_files (k.sysfs_create_group turn s).1 ≡ true
  pub group_removed :
      (turn : ℕ) (s : S)
      → (k.sysfs_create_group turn s).0 ≡ none
      → k.sysfs_remove_group (k.sysfs_create_group turn s).1 ≡ s
  pub object_put :
      (turn : ℕ) (s : S)
      → (k.kobject_create_and_add turn s).0 ≡ true
      → k.kobject_put (k.kobject_create_and_add turn s).1 ≡ s

-- A module leaves its mutex free and its variables valid where a request returns, and every request
-- but a run returns.
pub record IsService (service : Service) (IsValid : service.Variables → Type 0) : Type 0 where
  pub initial-IsValid : IsValid service.initial
  pub run-IsValid :
      (r : service.Request) (w : World service.Variables)
      → w.locked ≡ false
      → IsValid w.config
      → IfOk (λ a. (a.1.locked ≡ false) × IsValid a.1.config) (service.serve r w)
  pub serve-Returns :
      (r : service.Request) (w : World service.Variables)
      → service.is_run r ≡ false
      → w.locked ≡ false
      → IsValid w.config
      → Returns (λ a. Unit {0}) (service.serve r w)

module _ {S : Type 0} (k : Kobjects S) (laws : IsKobjects k) where
  -- The files are there, and the removal of the module leads back to `before`.
  abbrev pub IsRegistered : (before s : S) → Type 0
  IsRegistered before s = (k.has_files s ≡ true) × (kbench_exit k s ≡ before)

  -- A load makes the files, or leaves nothing.
  abbrev Loaded : S → Option Errno × S → Type 0
  Loaded s (none, s') = IsRegistered s s'
  Loaded s (some e, s') = s' ≡ s

  -- `s'` is the state behind the making of the object.
  conclude_init-Loaded :
      (turn : ℕ) (s s' : S) (m : Option Errno)
      → (k.sysfs_create_group turn s').0 ≡ m
      → k.kobject_put s' ≡ s
      → Loaded s (conclude_init k m (k.sysfs_create_group turn s').1)
  unfolding conclude_init kbench_exit
  conclude_init-Loaded turn s s' (some e) refused put =
      rw (laws.group_refused turn e s' refused) put
  conclude_init-Loaded turn s s' none made put =
      let undone : k.kobject_put (k.sysfs_remove_group (k.sysfs_create_group turn s').1) ≡ s =
        rw (laws.group_removed turn s' made) put in
      (laws.group_has_files turn s' made, undone)

  kbench_init-Loaded : (turn : ℕ) (s : S) → Loaded s (kbench_init k turn s)
  unfolding kbench_init
  kbench_init-Loaded turn s =
      let object = k.kobject_create_and_add turn s in
      elim (Bool-cases object.0) [
        | inl made ↦ rw made (
            conclude_init-Loaded turn s object.1 (k.sysfs_create_group turn object.1).0 refl
              (laws.object_put turn s made))
        | inr none_made ↦ rw none_made (laws.object_refused turn s none_made)
      ]

  module _ (service : Service) (IsValid : service.Variables → Type 0) (before : S) where
    -- Nothing of the module before its first load.
    abbrev pub at_rest : StateOf S service
    at_rest = record { kernel = before; stage = unloaded }

    -- Nothing is left of a module that is not loaded; a loaded one has its files, a free mutex and
    -- valid variables; and none crashed but by a run.
    abbrev pub IsSound : StateOf S service → Type 0
    IsSound s = elim s.stage [
      | unloaded ↦ s.kernel ≡ before
      | loaded w ↦ IsRegistered before s.kernel × (w.locked ≡ false) × IsValid w.config
      | crashed request f ↦ service.is_run request ≡ true
    ]

    -- The request is the next event, and has a reply.
    abbrev pub Answered : S → World service.Variables → service.Request → Type 0
    Answered s w request =
        (w' : World service.Variables) × (reply : service.Reply) × (service.serve request w
          ≡ ok (reply, w'))
        × Step k service (record { kernel = s; stage = loaded w })
            (record { kernel = s; stage = loaded w' })

    -- A loaded module answers, and one that is not loaded does so behind a load that leads to `s'`.
    -- One whose run has ended in a fault does not.
    abbrev pub IsAnswering : (s' : S) → StateOf S service → service.Request → Type 0
    IsAnswering s' s request = elim s.stage [
      | unloaded ↦
          Step k service s (record { kernel = s'; stage = loaded (fresh service) })
          × Answered s' (fresh service) request
      | loaded w ↦ Answered s.kernel w request
      | crashed run f ↦ service.is_run run ≡ true
    ]

    module _ (good : IsService service IsValid) where
      Step-IsSound : {s t : StateOf S service} → Step k service s t → IsSound s → IsSound t
      Step-IsSound (insert turn s s' e) same =
          let done = rw (e, same) at (kbench_init-Loaded turn s) in
          (done, refl, good.initial-IsValid)
      Step-IsSound (refuse turn x s s' e) same =
          let kept : s' ≡ s = rw e at (kbench_init-Loaded turn s) in kept ∙ same
      Step-IsSound (answer request reply s w w' there e) (files, free, valid) =
          let kept = rw e at (good.run-IsValid request w free valid) in (files, kept.0, kept.1)
      Step-IsSound (crash request f s w there e) (files, free, valid) =
          elim (Bool-cases (service.is_run request)) [
            | inl run ↦ run
            | inr quick ↦ absurd (rw e at (good.serve-Returns request w quick free valid))
          ]
      Step-IsSound (remove s w) (files, free, valid) = files.1

      pub reached-IsSound : (s : StateOf S service) → Life k service at_rest s → IsSound s
      reached-IsSound s here = refl
      reached-IsSound s (later {t = t} past step) = Step-IsSound step (reached-IsSound t past)

      Answered-registered :
          (s : S) (w : World service.Variables) (request : service.Request)
          → service.is_run request ≡ false
          → IsRegistered before s
          → w.locked ≡ false
          → IsValid w.config
          → Answered s w request
      Answered-registered s w request quick files free valid =
          let ((reply, w'), e, h) =
            Returns-ok (λ a. Unit {0}) (service.serve request w)
              (good.serve-Returns request w quick free valid) in
          (w', reply, e, answer request reply s w w' files.0 e)

      pub reached-answers :
          (turn : ℕ) (s' : S)
          → kbench_init k turn before ≡ (none, s')
          → (s : S) (stage : Stage service.Variables service.Request) (request : service.Request)
          → service.is_run request ≡ false
          → IsSound (record { kernel = s; stage = stage })
          → IsAnswering s' (record { kernel = s; stage = stage }) request
      reached-answers turn s' e s unloaded request quick same =
          let files : IsRegistered before s' = rw e at (kbench_init-Loaded turn before) in
          (
            rw same (insert turn before s' e),
            Answered-registered s' (fresh service) request quick files refl good.initial-IsValid,
          )
      reached-answers turn s' e s (loaded w) request quick (files, free, valid) =
          Answered-registered s w request quick files free valid
      reached-answers turn s' e s (crashed r f) request quick run = run
