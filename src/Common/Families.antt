-- ===== src/Common/Families.antt =====
-- Families indexed by a number, changed at one index.
use Prim.Native.Nat.{ℕ}
use mathlib.Core.Path.{◌≡◌, refl}
use mathlib.Core.Logic.{◌⊎◌, inl, inr}
use mathlib.Core.Bool.{true, false}
use native.Mathlib.Decide.{ℕ_discrete}
use native.Mathlib.Omega.{arith}
use network_lab.Common.Tests.{◌==◌, if◌then◌else◌}

pub ==-same : (a : ℕ) → (a == a) ≡ true
==-same a = ground arith

pub ==-other : (a b : ℕ) → ¬ (a ≡ b) → (a == b) ≡ false
==-other a b other = ground (arith, other)

unfoldable pub update : {A : Type 0} → (ℕ → A) → ℕ → A → ℕ → A
update f i a j = if j == i then a else f j

pub update-same : {A : Type 0} (f : ℕ → A) (i : ℕ) (a : A) → update f i a i ≡ a
unfolding update
update-same f i a = rw (==-same i) refl

pub update-other :
    {A : Type 0} (f : ℕ → A) (i : ℕ) (a : A) (j : ℕ) → ¬ (j ≡ i) → update f i a j ≡ f j
unfolding update
update-other f i a j other = rw (==-other j i other) refl

-- What holds of a changed family at an index holds of the new value there, or of the old one.
pub update-cases {ℓ} :
    {A : Type 0} (P : A → Type ℓ) (f : ℕ → A) (i : ℕ) (a : A) (j : ℕ)
    → P (update f i a j)
    → ((j ≡ i) × P a) ⊎ (¬ (j ≡ i) × P (f j))
update-cases P f i a j h = elim (ℕ_discrete j i) [
  | yes e ↦ inl (e, rw (e, update-same f i a) at h)
  | no other ↦ inr (other, rw (update-other f i a j other) at h)
]

pub update-intro {ℓ} :
    {A : Type 0} (P : A → Type ℓ) (f : ℕ → A) (i : ℕ) (a : A)
    → P a
    → ((j : ℕ) → ¬ (j ≡ i) → P (f j))
    → (j : ℕ) → P (update f i a j)
update-intro P f i a here rest j = elim (ℕ_discrete j i) [
  | yes e ↦ rw (e, update-same f i a) here
  | no other ↦ rw (update-other f i a j other) (rest j other)
]
