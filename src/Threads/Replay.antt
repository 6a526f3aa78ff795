-- ===== src/Threads/Replay.antt =====
-- What callers side by side were served, as requests of one caller.
use network_lab.Common.{
  ◌≡◌, refl, sym, Bool, true, false, List, [], ◌∷◌, map, Exec, ok, fault, Returns, Returns-ok, ◌∙◌,
}
use mathlib.Core.Path.{ap₂}
use network_lab.Sysfs.{World, Sys, and_then, pure}
use network_lab.Threads.{Handlers, System, Moves, begin}
use network_lab.Threads.Serial.{IsSerial, Moves-IsExclusive}

abbrev pub world_of : {C : Type 0} → C → Bool → World C
world_of c locked = record { config = c; locked = locked; references = 0 }

-- A request takes the mutex where it stops at one that is locked.
abbrev pub stops : {B : Type 0} → Exec B → Bool
stops (ok a) = false
stops (fault f) = true

-- The reply and the variables of a run, or these ones for a fault.
abbrev pub outcome : {C A : Type 0} → A → C → Exec (A × World C) → A × C
outcome a c (ok (a', w)) = (a', w.config)
outcome a c (fault f) = (a, c)

-- A run gives this reply and these variables, and leaves the mutex free.
abbrev pub Gives : {C A : Type 0} → A × C → A × World C → Type 0
Gives e b = (b.0 ≡ e.0) × (b.1.config ≡ e.1) × (b.1.locked ≡ false)

-- One request behind the other.
pub record IsServing {C R A : Type 0} (serve : R → Sys C A) (serve_all : List R → Sys C (List A))
    : Type 0 where
  pub nil : (w : World C) → serve_all [] w ≡ ok ([], w)
  pub cons :
      (r : R) (rs : List R) (w : World C)
      → serve_all (r ∷ rs) w
        ≡ and_then (serve r w) (λ a w'. and_then (serve_all rs w') (λ as_list. pure (a ∷ as_list)))

module _ {C R A : Type 0} (h : Handlers C R A) (serve_all : List R → Sys C (List A))
    (laws : IsServing h.serve serve_all) where
  serve_all-cons :
      (r : R) (rs : List R) (a : A) (replies : List A) (c now : C) (w : World C)
      → Returns (Gives (a, c)) (h.serve r w)
      → ((w' : World C)
          → w'.config ≡ c
          → w'.locked ≡ false
          → Returns (Gives (replies, now)) (serve_all rs w'))
      → Returns (Gives (a ∷ replies, now)) (serve_all (r ∷ rs) w)
  serve_all-cons r rs a replies c now w first rest =
      let ((a', w'), e, gives) = Returns-ok (Gives (a, c)) (h.serve r w) first in
      let ((as_list, w''), e', served) =
        Returns-ok (Gives (replies, now)) (serve_all rs w') (rest w' gives.1 gives.2) in
      rw (laws.cons r rs w, e, e') (ap₂ (λ x xs. x ∷ xs) gives.0 served.0, served.1, served.2)

  serve_all-IsSerial :
      (history : List (R × A)) (first now : C) (w : World C)
      → w.config ≡ first
      → w.locked ≡ false
      → IsSerial h first history now
      → Returns (Gives (map (λ e. e.1) history, now)) (serve_all (map (λ e. e.0) history) w)
  serve_all-IsSerial [] first now w e free serial = rw (laws.nil w) (refl, e ∙ sym serial, free)
  serve_all-IsSerial ((r, a) ∷ history) first now w e free (reply, serial) =
      serve_all-cons r (map (λ e. e.0) history) a (map (λ e. e.1) history) (h.effect r first).1 now
        w (rw (reply, sym e) (h.serve-effect r w free))
        (λ w' e' free'. serve_all-IsSerial history (h.effect r first).1 now w' e' free' serial)

  -- From the first variables, one caller with the requests that were served gets the same replies
  -- and the same variables.
  pub Moves-replay :
      (c : C) (s : System C R A) (w : World C)
      → w.config ≡ c
      → w.locked ≡ false
      → Moves h (begin h c) s
      → Returns
          (Gives (map (λ e. e.1) s.history, s.config))
          (serve_all (map (λ e. e.0) s.history) w)
  Moves-replay c s w e free moves =
      serve_all-IsSerial s.history c s.config w e free (Moves-IsExclusive h c s moves).serial
