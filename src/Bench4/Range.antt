-- ===== src/Bench4/Range.antt =====
-- The addresses that the loop looks up.
use native.Mathlib.Nat.{div-mul-le_self, le-div_iff_mul-le}
use network_lab.Common.{
  ℕ, ◌+◌, ◌*◌, ◌/◌, ◌%◌, ◌^◌, ◌≤◌, ◌<◌, ◌≡◌, false, ok, arith, ltb, Bool-cases, inl, inr,
  if◌then◌else◌, le→ltb_false, sym, ◌∙◌,
}
use network_lab.Sysfs.V4.{Config}
use network_lab.Bench4.{Env, Plan, order_range, address}

ok_injective : {a b : ℕ} → ok a ≡ ok b → a ≡ b
ok_injective h = cc

module _ (env : Env) where
  -- The ends of the range are never swapped, whatever the configuration is: the unsigned difference
  -- that the test looks at is never below 0.
  pub order_range-id : (c : Config) → order_range env c ≡ c
  unfolding order_range
  order_range-id c = ground arith

  -- The number of round `i` behind the first address.
  unfoldable pub offset : Plan → ℕ → ℕ
  offset p i = if ltb p.delta p.count then i % p.delta else p.delta / p.count * i

  product-lt : (d n i : ℕ) → 0 < d → i < n → d / n * i < d
  product-lt d n i h k =
      let below : d / n * n ≤ d = div-mul-le_self d n in
      let most : d / n * (i + 1) ≤ d / n * n = grind arith in grind arith

  module _ (p : Plan) (fits : env.ntohl p.start + p.delta < 2 ^ 32) where
    offset-increases : (i j : ℕ) → i < j → j < p.count → p.count ≤ p.delta → offset p i < offset p j
    unfolding offset
    offset-increases i j h k wide =
        let no_wrap : ltb p.delta p.count ≡ false = le→ltb_false p.delta p.count wide in
        let positive : 1 ≤ p.delta / p.count =
          (le-div_iff_mul-le {k = p.count} {x = 1} {y = p.delta} (omega arith)).1 (omega arith) in
        rw (no_wrap, offset) (grind arith)

    offset-lt : (i : ℕ) → 0 < p.delta → i < p.count → offset p i < p.delta
    unfolding offset
    offset-lt i h k = ground (arith, product-lt p.delta p.count i h k)

    pub address-offset :
        (i : ℕ)
        → 0 < p.delta
        → i < p.count
        → address env p i ≡ ok (env.htonl (env.ntohl p.start + offset p i))
    unfolding address offset
    address-offset i h k =
        let below = product-lt p.delta p.count i h k in
        let rest : i % p.delta < p.delta = omega arith in
        let one : (env.ntohl p.start + i % p.delta) % 2 ^ 32 ≡ env.ntohl p.start + i % p.delta =
          omega arith in
        let two : (env.ntohl p.start + p.delta / p.count * i % 2 ^ 64) % 2 ^ 32
            ≡ env.ntohl p.start + p.delta / p.count * i =
          omega arith in
        elim (Bool-cases (ltb p.delta p.count)) [
          | inl e ↦ rw (e, one) (ground arith)
          | inr e ↦ rw (e, two) (ground arith)
        ]

    -- Where the range does not wrap and is not empty, every round before the last has an address
    -- without a division by 0, and the address lies from the first one up to, and not including,
    -- the last one.
    pub address-InRange :
        (i : ℕ)
        → 0 < p.delta
        → i < p.count
        → (a : ℕ) × (address env p i ≡ ok a)
          × (env.ntohl p.start ≤ env.ntohl a)
          × (env.ntohl a < env.ntohl p.start + p.delta)
    address-InRange i h k =
        let below = offset-lt i h k in
        let back = env.ntohl-htonl (env.ntohl p.start + offset p i) (omega arith) in
        (
          env.htonl (env.ntohl p.start + offset p i),
          address-offset i h k,
          omega (arith, back),
          omega (arith, back),
        )

    -- Where the range does not wrap and is at least as large as the number of rounds, the addresses
    -- of the rounds rise, so that no two rounds have one address.
    pub address-increases :
        (i j a b : ℕ)
        → i < j
        → j < p.count
        → p.count ≤ p.delta
        → address env p i ≡ ok a
        → address env p j ≡ ok b
        → env.ntohl a < env.ntohl b
    address-increases i j a b h k wide e f =
        let back_i =
          env.ntohl-htonl (env.ntohl p.start + offset p i)
            (omega (arith, offset-lt i (omega arith) (omega arith))) in
        let back_j =
          env.ntohl-htonl (env.ntohl p.start + offset p j)
            (omega (arith, offset-lt j (omega arith) k)) in
        let e' : a ≡ env.htonl (env.ntohl p.start + offset p i) =
          ok_injective (sym e ∙ address-offset i (omega arith) (omega arith)) in
        let f' : b ≡ env.htonl (env.ntohl p.start + offset p j) =
          ok_injective (sym f ∙ address-offset j (omega arith) k) in
        rw (e', f', back_i, back_j) (omega (arith, offset-increases i j h k wide))
