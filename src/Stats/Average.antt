-- ===== src/Stats/Average.antt =====
-- The `average` of kbench_mod.c, against the quotient of the sum by the count.
use network_lab.Common.{
  ℕ, ◌+◌, ◌-◌, ◌*◌, ◌/◌, ◌%◌, ◌^◌, ◌≤◌, ◌<◌, ◌≡◌, List, [], ◌∷◌, ◌++◌, append_assoc, ap, sym, Exec,
  ok, fault, ◌>>=◌, Returns, arith, leb, leb→le, Bool-cases, inl, inr, append-nil, length,
  length-append, sum, sum-append, All, get_elem?-append, refl,
}
use native.Mathlib.Decide.{dec_lt}
use network_lab.Stats.{Running, average_step, average_loop, average}
use network_lab.Stats.Percentile.{read-some}

-- The values so far sum up to `total`, and there are at most `count` of them.
record Sums (count total : ℕ) (s : Running) : Type 0 where
  exact : s.avg * count + s.remainder ≡ total
  small : s.remainder < count

abbrev word_max : ℕ
word_max = 2 ^ 64 - 1

quotient-le : (a c n b : ℕ) → 0 < c → a * c ≤ n * b → n ≤ c → a ≤ b
quotient-le a c n b h k l = elim (dec_lt b a) [
  | yes p ↦
      let left : (b + 1) * c ≤ a * c = grind arith in
      let right : n * b ≤ c * b = grind arith in absurd (omega arith)
  | no p ↦ omega arith
]

module _ (count total n x : ℕ) (s : Running) (h : n < count) (seen : total ≤ n * word_max) where
  module _ (fits : x ≤ word_max) (i : Sums count total s) where
    carry_fits : count - x % count ≤ s.remainder → s.avg + x / count + 1 ≤ word_max
    carry_fits c =
        quotient-le (s.avg + x / count + 1) count (n + 1) word_max (omega arith) (omega arith)
          (omega arith)

    whole_fits : s.avg + x / count ≤ word_max
    whole_fits =
        quotient-le (s.avg + x / count) count (n + 1) word_max (omega arith) (omega arith)
          (omega arith)

    average_step-Sums : Sums count (total + x) (average_step count x s)
    unfolding average_step
    average_step-Sums = elim (Bool-cases (leb (count - x % count) s.remainder)) [
      | inl e ↦
          let c = leb→le (count - x % count) s.remainder e in
          let sum : ((s.avg + x / count) % 2 ^ 64 + 1) % 2 ^ 64 ≡ s.avg + x / count + 1 =
            omega (arith, carry_fits c) in
          rw (e, average_step)
            (record { exact = omega (arith, ap (λ (t : ℕ). t * count) sum); small = omega arith })
      | inr e ↦
          let c : s.remainder < count - x % count = ground arith in
          let sum : (s.avg + x / count) % 2 ^ 64 ≡ s.avg + x / count = omega (arith, whole_fits) in
          rw (e, average_step)
            (record { exact = omega (arith, ap (λ (t : ℕ). t * count) sum); small = omega arith })
    ]

average_loop-Sums :
    (ys xs : List ℕ) (count : ℕ) (s : Running)
    → length ys + length xs ≡ count
    → sum ys ≤ length ys * word_max
    → All (λ x. x ≤ word_max) xs
    → Sums count (sum ys) s
    → Returns
        (Sums count (sum (ys ++ xs)))
        (average_loop (length xs) (length ys) (ys ++ xs) count s)
unfolding average_loop
average_loop-Sums ys [] count s e b w i = rw append-nil i
average_loop-Sums ys (x ∷ xs) count s e b w i =
    let grown : length (ys ++ x ∷ []) ≡ length ys + 1 = omega (arith, length-append ys (x ∷ [])) in
    let added : sum (ys ++ x ∷ []) ≡ sum ys + x = omega (arith, sum-append ys (x ∷ [])) in
    let step = average_step-Sums count (sum ys) (length ys) x s (omega arith) b w.0 i in
    let next =
      average_loop-Sums (ys ++ x ∷ []) xs count (average_step count x s) (omega arith)
        (omega (arith, b, w.0)) w.1 (rw added step) in
    rw (read-some (ys ++ x ∷ xs) (length ys) (get_elem?-append ys xs x (length ys) refl))
      (rw (append_assoc, grown) at next)

quotient_lem : (a r c : ℕ) → r < c → (a * c + r) / c ≡ a
quotient_lem a r c h = grind arith

quotient-Sums :
    (m : Exec Running) (count total : ℕ)
    → Returns (Sums count total) m
    → (m >>= λ s. ok s.avg) ≡ ok (total / count)
quotient-Sums (ok s) count total i =
    let e = quotient_lem s.avg s.remainder count i.small in ap ok (sym (rw i.exact at e))
quotient-Sums (fault f) count total i = absurd i

-- Of an array that is not empty, and whose values are each below 2 ^ 64, `average` returns the
-- quotient of the sum by the number of the values, even where the sum itself would not fit 64 bits.
pub average-eq-quotient :
    (xs : List ℕ)
    → 0 < length xs
    → All (λ x. x ≤ 2 ^ 64 - 1) xs
    → average xs (length xs) ≡ ok (sum xs / length xs)
unfolding average
average-eq-quotient xs h w = quotient-Sums _ (length xs) (sum xs) (
    average_loop-Sums [] xs (length xs) (record { avg = 0; remainder = 0 }) (omega arith)
      (omega arith) w (record { exact = omega arith; small = h }))
