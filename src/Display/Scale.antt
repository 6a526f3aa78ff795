-- ===== src/Display/Scale.antt =====
-- The order of magnitude by which the histogram rounds.
use network_lab.Common.{
  ℕ, zero, suc, ◌+◌, ◌-◌, ◌*◌, ◌%◌, ◌/◌, ◌^◌, ◌≤◌, ◌<◌, ◌≡◌, refl, arith, leb, leb→le, Bool, true,
  if◌then◌else◌, false, ◌⊎◌, pos, negsuc, ℤ,
}
use native.Mathlib.Decide.{dec_le}
use native.Mathlib.Nat.{le_trans, div-mul-le_self}
use native.Mathlib.Numerals.{add-one}
use network_lab.Display.{Log, hist_buckets, power, extend, digits, order, axis}

-- The test succeeds at every number below `bound`.
holds_below : (test : ℕ → Bool) → (bound : ℕ) → Bool
holds_below test zero = true
holds_below test (suc bound) = if test bound then holds_below test bound else false

holds_below-lt :
    (test : ℕ → Bool) (bound k : ℕ) → k < bound → holds_below test bound ≡ true → test k ≡ true
unfolding holds_below
holds_below-lt test (suc bound) k lt h = ground (arith, holds_below-lt test bound k)
holds_below-lt test zero k lt h = absurd (omega arith)

abbrev order_of_log : ℕ → ℕ
order_of_log k = extend (power (digits (pos k)) 1)

positive_table : holds_below (λ k. leb 1 (order_of_log k)) 64 ≡ true
unfolding holds_below digits power extend
positive_table = refl

below_table : holds_below (λ k. leb (order_of_log k) (2 ^ k)) 35 ≡ true
unfolding holds_below digits power extend
below_table = refl

-- A number below a power of two has a logarithm.
pub log_exists : (k n : ℕ) → 0 < n → n < 2 ^ k → (j : ℕ) × (j < k) × (2 ^ j ≤ n) × (n < 2 ^ (j + 1))
log_exists zero n h b = absurd (omega arith)
log_exists (suc k) n h b = elim (dec_le (2 ^ k) n) [
  | yes p ↦ (k, omega arith, p, simp add-one b)
  | no p ↦ let (j, lt, lo, hi) = log_exists k n h (omega arith) in (j, omega arith, lo, hi)
]

order-log :
    (log : Log) (share j : ℕ)
    → 2 ^ j ≤ share
    → share < 2 ^ (j + 1)
    → order log share ≡ extend (power (digits (pos j)) 1)
unfolding order
order-log log share j lo hi = rw (log.ilog2_lem share j lo hi)

order_at : (z : ℤ) → ((k : ℕ) → z ≡ pos k → k < 64) → 0 < extend (power (digits z) 1)
unfolding digits power extend
order_at (pos k) h =
    leb→le 1 _ (holds_below-lt (λ k. leb 1 (order_of_log k)) 64 k (h k refl) positive_table)
order_at (negsuc n) h = omega arith

-- The order that the histogram divides by is never 0.
order_pos : (log : Log) (share : ℕ) → share < 2 ^ 64 → 0 < order log share
unfolding order
order_pos log share b = order_at (log.ilog2 share) (λ k e. log.ilog2_bound share k b e)

-- Where the share is not 0 and below 2 ^ 35, the order is no more than the share, so that rounding
-- leaves it above 0.
order_le : (log : Log) (share : ℕ) → 0 < share → share < 2 ^ 35 → order log share ≤ share
order_le log share h small =
    let (j, lt, lo, hi) = log_exists 35 share h small in
    rw (order-log log share j lo hi) (
      le_trans
        (leb→le _ (2 ^ j) (holds_below-lt (λ k. leb (order_of_log k) (2 ^ k)) 35 j lt below_table))
        lo)

round_le : (x o : ℕ) → x / o * o % 2 ^ 64 ≤ x
round_le x o = omega (arith, div-mul-le_self x o)

-- Where the least value is at most the 95th percentile, which fits 64 bits, the first row starts at
-- or below the least value, and a row is at least 1 wide and, unless it is 1 wide, no wider than a
-- fifteenth of the range up to the 95th percentile.
pub axis_bounds :
    (log : Log) (low p95 : ℕ)
    → low ≤ p95
    → p95 < 2 ^ 64
    → ((axis log low p95).start ≤ low)
      × (0 < (axis log low p95).share)
      × (((axis log low p95).share ≡ 1) ⊎ (hist_buckets * (axis log low p95).share ≤ p95 - low))
unfolding axis
axis_bounds log low p95 h b =
    let share = (p95 + 2 ^ 64 - low) % 2 ^ 64 / hist_buckets in
    let o = order log share in
    let fits : hist_buckets * share ≤ p95 - low = omega arith in
    let rounded = share / o * o % 2 ^ 64 in
    (round_le low o, ground arith, ground (arith, round_le share o))
