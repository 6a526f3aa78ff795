-- ===== src/Threads/Serial.antt =====
-- Whatever the order of the steps is, the callers are served one behind the other.
use network_lab.Common.{
  Bool-cases, ℕ, ◌≡◌, refl, sym, ◌∙◌, Bool, true, false, List, [], ◌∷◌, ◌++◌, update, update-cases,
  update-same, update-other, update-intro, inl, inr,
}
use network_lab.Threads.{
  Handlers, Pc, outside, waiting, inside, System, begin, Move, ask, refuse, lock, unlock, Moves,
  still, after,
}

abbrev IsInside : {C R : Type 0} → Pc C R → Type 0
IsInside outside = ⊥
IsInside (waiting r) = ⊥
IsInside (inside r c) = Unit

-- A caller behind the mutex has read the variables as they still are.
abbrev IsCurrent : {C R : Type 0} → C → Pc C R → Type 0
IsCurrent now outside = Unit
IsCurrent now (waiting r) = Unit
IsCurrent now (inside r c) = c ≡ now

outside-IsCurrent : {C R : Type 0} (now : C) (p : Pc C R) → ¬ IsInside p → IsCurrent now p
outside-IsCurrent now outside out = tt
outside-IsCurrent now (waiting r) out = tt
outside-IsCurrent now (inside r c) out = absurd (out tt)

clash : {b : Bool} → b ≡ true → ¬ (b ≡ false)
clash taken free = absurd (cc)

module _ {C R A : Type 0} (h : Handlers C R A) where
  -- The requests of a history, served one behind the other from the first variables, give these
  -- replies, and lead to these variables.
  abbrev pub IsSerial : C → List (R × A) → C → Type 0
  IsSerial first [] now = now ≡ first
  IsSerial first ((r, a) ∷ rest) now =
      (a ≡ (h.effect r first).0) × IsSerial (h.effect r first).1 rest now

  -- One more request, from the variables that the history leads to.
  IsSerial-snoc :
      (history : List (R × A)) (first now : C) (r : R)
      → IsSerial first history now
      → IsSerial first (history ++ (r, (h.effect r now).0) ∷ []) (h.effect r now).1
  IsSerial-snoc [] first now r e = rw e (refl, refl)
  IsSerial-snoc ((r', a) ∷ rest) first now r (e, serial) =
      (e, IsSerial-snoc rest (h.effect r' first).1 now r serial)

module _ {C R A : Type 0} (h : Handlers C R A) (first : C) where
  pub record IsExclusive (s : System C R A) : Type 0 where
    pub serial : IsSerial h first s.history s.config
    pub taken : (i : ℕ) → IsInside (s.pc i) → s.locked ≡ true
    pub alone : (i j : ℕ) → IsInside (s.pc i) → IsInside (s.pc j) → i ≡ j
    pub owned : s.locked ≡ true → (i : ℕ) × (r : R) × (c : C) × (s.pc i ≡ inside r c)
    pub current : (i : ℕ) → IsCurrent s.config (s.pc i)

  begin-IsExclusive : IsExclusive (begin h first)
  begin-IsExclusive = record {
    serial = refl;
    taken = λ i bad. absurd bad;
    alone = λ i j bad. absurd bad;
    owned = λ taken. absurd (clash taken refl);
    current = λ i. tt;
  }

  -- Where caller `i` goes to a place that is not behind the mutex, no one else comes behind it.
  module _ (s : System C R A) (i : ℕ) (p : Pc C R) (out : ¬ IsInside p) where
    left-taken :
        ((j : ℕ) → IsInside (s.pc j) → s.locked ≡ true)
        → (j : ℕ) → IsInside (update s.pc i p j)
        → s.locked ≡ true
    left-taken taken j b = elim (update-cases IsInside s.pc i p j b) [
      | inl here ↦ absurd (out here.1)
      | inr there ↦ taken j there.1
    ]

    left-alone :
        ((j l : ℕ) → IsInside (s.pc j) → IsInside (s.pc l) → j ≡ l)
        → (j l : ℕ) → IsInside (update s.pc i p j)
        → IsInside (update s.pc i p l)
        → j ≡ l
    left-alone alone j l b b' = elim (update-cases IsInside s.pc i p j b) [
      | inl here ↦ absurd (out here.1)
      | inr there ↦ elim (update-cases IsInside s.pc i p l b') [
        | inl here ↦ absurd (out here.1)
        | inr there' ↦ alone j l there.1 there'.1
      ]
    ]

  -- The owner of the mutex is not one who stands outside of it.
  apart :
      (s : System C R A) (j i : ℕ) (r : R) (c : C)
      → s.pc j ≡ inside r c
      → ¬ IsInside (s.pc i)
      → ¬ (j ≡ i)
  apart s j i r c e out same = let b : IsInside (s.pc j) = rw e tt in out (rw same at b)

  -- Who comes behind a free mutex is the only one there, and when the owner leaves no one is.
  entered-only :
      (s : System C R A) (i : ℕ) (r : R)
      → ((j : ℕ) → ¬ IsInside (s.pc j))
      → (j : ℕ) → IsInside (update s.pc i (inside r s.config) j)
      → j ≡ i
  entered-only s i r empty j b = elim (update-cases IsInside s.pc i (inside r s.config) j b) [
    | inl here ↦ here.0
    | inr there ↦ absurd (empty j there.1)
  ]

  left-empty :
      (s : System C R A) (i : ℕ)
      → ((j : ℕ) → ¬ (j ≡ i) → ¬ IsInside (s.pc j))
      → (j : ℕ) → ¬ IsInside (update s.pc i outside j)
  left-empty s i alone j b = elim (update-cases IsInside s.pc i outside j b) [
    | inl here ↦ here.1
    | inr there ↦ alone j there.0 there.1
  ]

  Move-IsExclusive : {s t : System C R A} → Move h s t → IsExclusive s → IsExclusive t
  Move-IsExclusive {s = s} (ask i r at_start takes) x = record {
    serial = x.serial;
    taken = left-taken s i (waiting r) (λ b. b) x.taken;
    alone = left-alone s i (waiting r) (λ b. b) x.alone;
    owned = λ taken.
        let (j, r', c, e) = x.owned taken in
        let other = apart s j i r' c e (rw at_start (λ b. b)) in
        (j, r', c, update-other s.pc i (waiting r) j other ∙ e);
    current = update-intro (IsCurrent s.config) s.pc i (waiting r) tt (λ j other. x.current j);
  }
  Move-IsExclusive {s = s} (refuse i r at_start takes) x = record {
    serial =
        rw (h.without_mutex r s.config takes) at
          (IsSerial-snoc h s.history first s.config r x.serial);
    taken = x.taken;
    alone = x.alone;
    owned = x.owned;
    current = x.current;
  }
  Move-IsExclusive {s = s} (lock i r waits free) x =
      let empty : (j : ℕ) → ¬ IsInside (s.pc j) = λ j b. clash (x.taken j b) free in
      record {
        serial = x.serial;
        taken = λ j b. refl;
        alone = λ j l b b'. entered-only s i r empty j b ∙ sym (entered-only s i r empty l b');
        owned = λ taken. (i, r, s.config, update-same s.pc i (inside r s.config));
        current =
            update-intro (IsCurrent s.config) s.pc i (inside r s.config) refl
              (λ j other. x.current j);
      }
  Move-IsExclusive {s = s} (unlock i r c holds) x =
      let here : IsInside (s.pc i) = rw holds tt in
      let now : c ≡ s.config = rw holds at (x.current i) in
      let alone : (j : ℕ) → ¬ (j ≡ i) → ¬ IsInside (s.pc j) =
        λ j other b. other (x.alone j i b here) in
      record {
        serial = rw now (IsSerial-snoc h s.history first s.config r x.serial);
        taken = λ j b. absurd (left-empty s i alone j b);
        alone = left-alone s i outside (λ b. b) x.alone;
        owned = λ taken. absurd (clash taken refl);
        current =
            update-intro (IsCurrent (h.effect r c).1) s.pc i outside tt
              (λ j other. outside-IsCurrent (h.effect r c).1 (s.pc j) (alone j other));
      }

  -- Whatever the callers do, at most one is behind the mutex, and the requests that were served gave
  -- what they give one behind the other.
  pub Moves-IsExclusive : (s : System C R A) → Moves h (begin h first) s → IsExclusive s
  Moves-IsExclusive s still = begin-IsExclusive
  Moves-IsExclusive s (after {t = t} past move) = Move-IsExclusive move (Moves-IsExclusive t past)

  -- A caller that waits can be let in by at most two steps: the owner's last one, and its own.
  pub Moves-granted :
      (s : System C R A) (i : ℕ) (r : R)
      → Moves h (begin h first) s
      → s.pc i ≡ waiting r
      → (t : System C R A) × Moves h s t × (t.pc i ≡ inside r t.config)
  Moves-granted s i r past waits = elim (Bool-cases s.locked) [
    | inr free ↦ (_, after still (lock i r waits free), update-same s.pc i (inside r s.config))
    | inl taken ↦
        let (j, r', c, owns) = (Moves-IsExclusive s past).owned taken in
        let other = apart s j i r' c owns (rw waits (λ b. b)) in
        let still_waits = update-other s.pc j outside i (λ e. other (sym e)) ∙ waits in
        (
          _,
          after (after still (unlock j r' c owns)) (lock i r still_waits refl),
          update-same (update s.pc j outside) i (inside r (h.effect r' c).1),
        )
  ]
