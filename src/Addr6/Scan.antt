-- ===== src/Addr6/Scan.antt =====
-- The step of a scan, against the numbers that the words stand for.
use native.Mathlib.Nat.{div-eq_of_lt-le, div-lt_iff_lt-mul, div-add-mod', mod-lt}
use native.Mathlib.Decide.{ℕ_discrete, dec_lt}
use network_lab.Common.{
  ℕ, ◌+◌, ◌-◌, ◌*◌, ◌/◌, ◌%◌, ◌^◌, ◌≤◌, ◌<◌, ◌≡◌, ◌≢◌, ◌↔◌, ◌⊎◌, inl, inr, refl, true, sym, arith,
  Bool-cases, leb, leb→le,
}
use network_lab.Addr6.{
  Words, IsWords, number, Digit, Difference, sub_word, subtract, scans, div_word, divide,
}

-- The two outcomes of a round of the subtraction. Only one of the words that borrow can be 0: one
-- that was handed a borrow.
abbrev Subtracts : ℕ → ℕ → ℕ → Digit → Type 0
Subtracts first last carry d =
    ((d.carry ≡ 0) × (first + carry + d.word ≡ last))
    ⊎ ((d.carry ≡ 1) × (last < first + carry) × (0 < carry + d.word))

sub_word-Subtracts :
    (first last carry : ℕ) → first < 2 ^ 32 → Subtracts first last carry (sub_word first last carry)
unfolding sub_word
sub_word-Subtracts first last carry f = elim (Bool-cases (leb (first + carry) last)) [
  | inl e ↦ let h = leb→le (first + carry) last e in rw e (inl (refl, omega arith))
  | inr e ↦ let h : last < first + carry = ground arith in rw e (inr (refl, h, omega arith))
]

-- When `scan` is set.
scans_iff_nonzero :
    (d : Difference)
    → (scans d ≡ true) ↔ ((d.carry ≡ 0) × (0 < d.words.w0 + d.words.w1 + d.words.w2 + d.words.w3))
unfolding scans
scans_iff_nonzero d = ground arith

module _ (first last : Words) (f : IsWords first) (l : IsWords last) where
  abbrev d3 : Digit
  d3 = sub_word first.w3 last.w3 0

  abbrev d2 : Digit
  d2 = sub_word first.w2 last.w2 d3.carry

  abbrev d1 : Digit
  d1 = sub_word first.w1 last.w1 d2.carry

  abbrev d0 : Digit
  d0 = sub_word first.w0 last.w0 d1.carry

  no_borrow : d0.carry ≡ 0 → number first ≤ number last
  no_borrow h =
      let s3 = sub_word-Subtracts first.w3 last.w3 0 f.3 in
      let s2 = sub_word-Subtracts first.w2 last.w2 d3.carry f.2 in
      let s1 = sub_word-Subtracts first.w1 last.w1 d2.carry f.1 in
      let s0 = sub_word-Subtracts first.w0 last.w0 d1.carry f.0 in omega arith

  borrow : d0.carry ≢ 0 → number last < number first
  borrow h =
      let s3 = sub_word-Subtracts first.w3 last.w3 0 f.3 in
      let s2 = sub_word-Subtracts first.w2 last.w2 d3.carry f.2 in
      let s1 = sub_word-Subtracts first.w1 last.w1 d2.carry f.1 in
      let s0 = sub_word-Subtracts first.w0 last.w0 d1.carry f.0 in omega arith

  same_numbers :
      d0.carry ≡ 0
      → d0.word ≡ 0
      → d1.word ≡ 0
      → d2.word ≡ 0
      → d3.word ≡ 0
      → number first ≡ number last
  same_numbers e a b c d =
      let s3 = sub_word-Subtracts first.w3 last.w3 0 f.3 in
      let s2 = sub_word-Subtracts first.w2 last.w2 d3.carry f.2 in
      let s1 = sub_word-Subtracts first.w1 last.w1 d2.carry f.1 in
      let s0 = sub_word-Subtracts first.w0 last.w0 d1.carry f.0 in omega arith

  zero_words :
      number first ≡ number last → (d0.word ≡ 0) × (d1.word ≡ 0) × (d2.word ≡ 0) × (d3.word ≡ 0)
  zero_words e =
      let s3 = sub_word-Subtracts first.w3 last.w3 0 f.3 in
      let s2 = sub_word-Subtracts first.w2 last.w2 d3.carry f.2 in
      let s1 = sub_word-Subtracts first.w1 last.w1 d2.carry f.1 in
      let s0 = sub_word-Subtracts first.w0 last.w0 d1.carry f.0 in omega arith

  strictly : d0.carry ≡ 0 → 0 < d0.word + d1.word + d2.word + d3.word → number first < number last
  strictly h k = elim (ℕ_discrete (number first) (number last)) [
    | yes e ↦ absurd (omega (arith, zero_words e))
    | no n ↦ omega (arith, no_borrow h)
  ]

  no_carry : number first < number last → d0.carry ≡ 0
  no_carry h = elim (ℕ_discrete d0.carry 0) [ yes e ↦ e | no n ↦ absurd (omega (arith, borrow n)) ]

  not_zero : number first < number last → 0 < d0.word + d1.word + d2.word + d3.word
  not_zero h = elim (dec_lt 0 (d0.word + d1.word + d2.word + d3.word)) [
    | yes p ↦ p
    | no n ↦ absurd (
        omega (
          arith,
          same_numbers (no_carry h) (omega arith) (omega arith) (omega arith) (omega arith),
        ))
  ]

  subtract_lem : subtract first last ≡ record {
    words = record { w0 = d0.word; w1 = d1.word; w2 = d2.word; w3 = d3.word };
    carry = d0.carry;
  }
  unfolding subtract
  subtract_lem = refl

  -- Of two addresses, the word-by-word subtraction and the test behind it set `scan` exactly when
  -- the first one, as a number of 128 bits, is below the last one.
  pub scans_iff : (scans (subtract first last) ≡ true) ↔ (number first < number last)
  scans_iff =
      let difference : Difference = record {
        words = record { w0 = d0.word; w1 = d1.word; w2 = d2.word; w3 = d3.word };
        carry = d0.carry;
      } in
      let test = scans_iff_nonzero difference in
      rw subtract_lem
        (λ h. strictly (test.0 h).0 (test.0 h).1, λ h. test.1 (no_carry h, not_zero h))

-- Where no word of the first address is above its word of the last one, the subtraction gives the
-- difference of the two numbers.
subtract-number :
    (first last : Words)
    → first.w0 ≤ last.w0
    → first.w1 ≤ last.w1
    → first.w2 ≤ last.w2
    → first.w3 ≤ last.w3
    → number (subtract first last).words + number first ≡ number last
unfolding subtract
subtract-number first last a b c d = ground arith

-- Where the lowest word of the first address is above that of the last one, and not by exactly 2 ^
-- 31, the subtraction does not give the difference of the two numbers.
pub subtract-wrong :
    (first last : Words)
    → IsWords first
    → last.w3 < first.w3
    → first.w3 - last.w3 ≢ 2 ^ 31
    → number (subtract first last).words + number first ≢ number last
unfolding subtract
subtract-wrong first last f h k = ground arith

-- One round of the division: what it takes in is what it gives out.
record Divides (word rem n : ℕ) (q : Digit) : Type 0 where
  whole : q.word * n + q.carry ≡ word + rem * 2 ^ 32
  rest : q.carry < n

div_word-Divides :
    (word rem n : ℕ)
    → word < 2 ^ 32
    → rem < n
    → n ≤ 2 ^ 32
    → Divides word rem n (div_word word rem n)
unfolding div_word
div_word-Divides word rem n w r k =
    let quo = word + rem * 2 ^ 32 in
    let inner : rem * 2 ^ 32 % 2 ^ 64 ≡ rem * 2 ^ 32 = omega arith in
    let fits : quo % 2 ^ 64 ≡ quo = omega arith in
    let below : rem * 2 ^ 32 + 2 ^ 32 ≤ 2 ^ 32 * n = omega arith in
    let short : quo / n < 2 ^ 32 =
      (div-lt_iff_lt-mul {k = n} {x = quo} {y = 2 ^ 32} (omega arith)).1 (omega arith) in
    let kept : quo / n % 2 ^ 32 ≡ quo / n = omega arith in
    rw (inner, fits, kept) (record { whole = div-add-mod' quo n; rest = mod-lt quo (omega arith) })

-- The long division of four words by a number from 1 to 2 ^ 32 is the division of the number of 128
-- bits that they stand for, rounded down.
pub divide-number :
    (d : Words) (n : ℕ) → IsWords d → 0 < n → n ≤ 2 ^ 32 → number (divide d n) ≡ number d / n
unfolding divide
divide-number d n w h k =
    let q0 = div_word d.w0 0 n in
    let q1 = div_word d.w1 q0.carry n in
    let q2 = div_word d.w2 q1.carry n in
    let q3 = div_word d.w3 q2.carry n in
    let a0 = div_word-Divides d.w0 0 n w.0 h k in
    let a1 = div_word-Divides d.w1 q0.carry n w.1 a0.rest k in
    let a2 = div_word-Divides d.w2 q1.carry n w.2 a1.rest k in
    let a3 = div_word-Divides d.w3 q2.carry n w.3 a2.rest k in
    let q : ℕ = q0.word * 2 ^ 96 + q1.word * 2 ^ 64 + q2.word * 2 ^ 32 + q3.word in
    let total : q * n + q3.carry ≡ number d =
      omega (arith, a0.whole, a1.whole, a2.whole, a3.whole) in
    sym (div-eq_of_lt-le n {m = number d} (omega arith) (omega (arith, a3.rest)))
