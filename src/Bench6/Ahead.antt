-- ===== src/Bench6/Ahead.antt =====
-- What the search of `do_bench` (IPv6) is to keep, from any of its rounds on.
use network_lab.Common.{
  ℕ, zero, suc, ◌+◌, ◌-◌, ◌≤◌, ◌<◌, ◌≡◌, refl, sym, inl, inr, true, false, List, [], ◌∷◌, ◌++◌,
  append_assoc, append-nil, map, Bool-cases, if◌then◌else◌, length, length-append, take, arith,
}
use network_lab.Addr6.{Position}
use network_lab.Bench6.{Env6, Plan6}
use network_lab.Bench6.Reference.{Hit, moved, is_reached, hits}

take_nil : (n : ℕ) → take {A = Hit} n [] ≡ []
take_nil zero = refl
take_nil (suc n) = refl

-- `f` is what is kept of a hit.
module _ (env : Env6) (p : Plan6) {B : Type 0} (f : Hit → B) where
  -- What is kept behind `rounds` further rounds.
  unfoldable pub ahead : (rounds tried lookups : ℕ) → Position → List B → List B
  ahead rounds tried lookups q kept =
      kept ++ map f (take (p.loop_count - length kept) (hits env p rounds tried lookups q))

  pub ahead-full :
      (rounds tried lookups : ℕ) (q : Position) (kept : List B)
      → p.loop_count ≤ length kept
      → ahead rounds tried lookups q kept ≡ kept
  unfolding ahead
  ahead-full rounds tried lookups q kept h =
      let none : p.loop_count - length kept ≡ 0 = omega arith in rw none (append-nil kept)

  pub ahead-begin :
      (rounds lookups : ℕ) (q : Position)
      → ahead rounds 0 lookups q [] ≡ map f (take p.loop_count (hits env p rounds 0 lookups q))
  unfolding ahead
  ahead-begin rounds lookups q =
      let all : p.loop_count - 0 ≡ p.loop_count = omega arith in rw all refl

  pub ahead-zero :
      (tried lookups : ℕ) (q : Position) (kept : List B) → kept ≡ ahead zero tried lookups q kept
  unfolding ahead hits
  ahead-zero tried lookups q kept =
      rw (take_nil (p.loop_count - length kept)) (sym (append-nil kept))

  module _ (rounds tried lookups : ℕ) (q : Position) (kept : List B)
      (below : length kept < p.loop_count) where
    abbrev hit : Hit
    hit = record { tried = tried; daddr = (moved env p p.scan q).daddr }

    ahead-hit :
        is_reached env p lookups (moved env p p.scan q) ≡ true
        → ahead rounds (tried + 1) (lookups + 1) (moved env p p.scan q) (kept ++ f hit ∷ [])
          ≡ ahead (suc rounds) tried lookups q kept
    unfolding ahead hits
    ahead-hit e =
        let more : p.loop_count - length kept ≡ suc (p.loop_count - length (kept ++ f hit ∷ [])) =
          omega (arith, length-append kept (f hit ∷ [])) in
        rw (e, more) (append_assoc kept (f hit ∷ []) _)

    ahead-miss :
        is_reached env p lookups (moved env p p.scan q) ≡ false
        → ahead rounds (tried + 1) (lookups + 1) (moved env p p.scan q) (kept ++ [])
          ≡ ahead (suc rounds) tried lookups q kept
    unfolding ahead hits
    ahead-miss e = rw (e, append-nil kept) refl

    -- `next` is what is kept behind a round from `kept`.
    pub ahead-next :
        (next : List B) (b : B)
        → b ≡ f hit
        → next ≡ kept ++ (if is_reached env p lookups (moved env p p.scan q) then b ∷ [] else [])
        → ahead rounds (tried + 1) (lookups + 1) (moved env p p.scan q) next
          ≡ ahead (suc rounds) tried lookups q kept
    ahead-next next b same k =
        rw (k, same)
          (elim (Bool-cases (is_reached env p lookups (moved env p p.scan q))) [
            | inl e ↦ rw e (ahead-hit e)
            | inr e ↦ rw e (ahead-miss e)
          ])
