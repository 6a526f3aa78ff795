-- ===== src/Display/Tally.antt =====
-- How many of some values fall into a range, and the histogram that follows from it.
use mathlib.Core.Logic.{∥∥₁_elim}
use mathlib.Core.List.{Perm, Permᴰ}
use native.Mathlib.Decide.{dec_lt}
use native.Mathlib.Nat.{ℕ_set}
use network_lab.Common.{
  ℕ, zero, suc, ◌+◌, ◌-◌, ◌*◌, ◌/◌, ◌≤◌, ◌<◌, ◌≡◌, refl, List, [], ◌∷◌, ◌++◌, All, arith, ltb, leb,
  ◌&&◌, if◌then◌else◌, length, get_elem?, some, All-mono,
}
use network_lab.Display.{hist_width}
use network_lab.Display.Rendering.{Row}

-- 1 for a value that is at least `lo` and below `hi`, else 0.
unfoldable pub inside : (lo hi x : ℕ) → ℕ
inside lo hi x = if leb lo x && ltb x hi then 1 else 0

-- How many values are at least `lo` and below `hi`.
unfoldable pub tally : (lo hi : ℕ) → List ℕ → ℕ
unfolding inside
tally lo hi [] = 0
tally lo hi (x ∷ xs) = inside lo hi x + tally lo hi xs

pub tally-append :
    (lo hi : ℕ) (xs ys : List ℕ) → tally lo hi (xs ++ ys) ≡ tally lo hi xs + tally lo hi ys
unfolding tally
tally-append lo hi [] ys = omega arith
tally-append lo hi (x ∷ xs) ys = omega (arith, tally-append lo hi xs ys)

pub tally_le : (lo hi : ℕ) (xs : List ℕ) → tally lo hi xs ≤ length xs
unfolding tally inside
tally_le lo hi [] = omega arith
tally_le lo hi (x ∷ xs) = ground (arith, tally_le lo hi xs)

pub tally_one : (lo hi x : ℕ) → lo ≤ x → x < hi → tally lo hi (x ∷ []) ≡ 1
unfolding tally inside
tally_one lo hi x h g = ground arith

pub tally_above : (lo hi : ℕ) (xs : List ℕ) → All (λ x. hi ≤ x) xs → tally lo hi xs ≡ 0
unfolding tally inside
tally_above lo hi [] h = refl
tally_above lo hi (x ∷ xs) h = ground (arith, h.0, tally_above lo hi xs h.1)

pub tally_below : (lo hi : ℕ) (xs : List ℕ) → All (λ x. x < lo) xs → tally lo hi xs ≡ 0
unfolding tally inside
tally_below lo hi [] h = refl
tally_below lo hi (x ∷ xs) h = ground (arith, h.0, tally_below lo hi xs h.1)

-- Below an end that all are below, every value from 0 on is counted.
pub tally_all : (hi : ℕ) (xs : List ℕ) → All (λ x. x < hi) xs → tally 0 hi xs ≡ length xs
unfolding tally inside
tally_all hi [] h = refl
tally_all hi (x ∷ xs) h = ground (arith, h.0, tally_all hi xs h.1)

-- A value that stands in a list is counted, and no value is that all are below.
pub tally_member : (xs : List ℕ) (i : ℕ) {x : ℕ} → get_elem? xs i ≡ some x → 0 < tally x (x + 1) xs
unfolding tally inside
tally_member [] i h = absurd (ground arith)
tally_member (y ∷ ys) zero h = ground arith
tally_member (y ∷ ys) (suc i) h = omega (arith, tally_member ys i h)

pub tally_member_lt :
    (xs : List ℕ) (x bound : ℕ) → 0 < tally x (x + 1) xs → All (λ y. y < bound) xs → x < bound
tally_member_lt xs x bound h a = elim (dec_lt x bound) [
  | yes lt ↦ lt
  | no ge ↦
      let below = All-mono (λ y. y < bound) (λ y. y < x) xs (λ y g. omega arith) a in
      absurd (omega (arith, tally_below x (x + 1) xs below))
]

tally-Permᴰ : (lo hi : ℕ) {xs ys : List ℕ} → Permᴰ xs ys → tally lo hi xs ≡ tally lo hi ys
unfolding tally
tally-Permᴰ lo hi Permᴰ.nil = refl
tally-Permᴰ lo hi (Permᴰ.cons e p) = rw e (omega (arith, tally-Permᴰ lo hi p))
tally-Permᴰ lo hi (Permᴰ.swap d e) = rw (d, e) (omega arith)
tally-Permᴰ lo hi (Permᴰ.trans p q) = omega (arith, tally-Permᴰ lo hi p, tally-Permᴰ lo hi q)

pub tally-perm : (lo hi : ℕ) {xs ys : List ℕ} → Perm xs ys → tally lo hi xs ≡ tally lo hi ys
tally-perm lo hi p = ∥∥₁_elim p (ℕ_set _ _) (tally-Permᴰ lo hi)

-- The row for the values from `lo` to below `hi`: its dark bar is their share of all values, its
-- whole bar the share of the values below `hi`, in fiftieths.
unfoldable pub row_of : (lo hi batch : ℕ) → List ℕ → Row
unfolding tally
row_of lo hi batch values =
    let dark = tally lo hi values * hist_width / length values in
    let bar = tally 0 hi values * hist_width / length values in
    record {
      start = lo;
      dark = dark;
      light = bar - dark;
      pad = hist_width - bar;
      count = tally lo hi values * batch;
    }

-- `n` rows, each `share` wide, from `start` on.
unfoldable pub rows_of : (start share batch : ℕ) → List ℕ → ℕ → List Row
unfolding row_of
rows_of start share batch values zero = []
rows_of start share batch values (suc n) =
    rows_of start share batch values n
    ++ row_of (start + n * share) (start + n * share + share) batch values ∷ []
