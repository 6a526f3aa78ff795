-- ===== src/Addr6.antt =====
-- The 128-bit arithmetic of `do_bench` in lab-routes-ipv6/2026/kbench_mod.c, over the four 32-bit
-- words of an address. Words are numbers here: the source applies `ntohl` wherever it reads one from
-- an address, and `htonl` wherever it writes one. An `unsigned long` has 64 bits.
pub mod Scan
pub mod Step
use Prim.Native.Nat.{bit_and}
use network_lab.Common.{
  ℕ, ◌+◌, ◌-◌, ◌*◌, ◌/◌, ◌%◌, ◌^◌, ◌<◌, Bool, true, false, not, ◌&&◌, ◌||◌, ltb, leb, ◌==◌,
  if◌then◌else◌,
}

-- Four words, the most significant first: `s6_addr32[0]` to `s6_addr32[3]`.
pub record Words : Type 0 where
  pub w0 : ℕ
  pub w1 : ℕ
  pub w2 : ℕ
  pub w3 : ℕ

abbrev pub IsWords : Words → Type 0
IsWords a = (a.w0 < 2 ^ 32) × (a.w1 < 2 ^ 32) × (a.w2 < 2 ^ 32) × (a.w3 < 2 ^ 32)

-- The number that the words stand for.
abbrev pub number : Words → ℕ
number a = a.w0 * 2 ^ 96 + a.w1 * 2 ^ 64 + a.w2 * 2 ^ 32 + a.w3

-- A word, and the carry behind it.
pub record Digit : Type 0 where
  pub word : ℕ
  pub carry : ℕ

-- One round of the loop that subtracts the first address from the last one.
unfoldable pub sub_word : (first last carry : ℕ) → Digit
sub_word first last carry =
    if leb (first + carry) last
    then record { word = last - first - carry; carry = 0 }
    else record { word = (first + carry - last) % 2 ^ 32; carry = 1 }

pub record Difference : Type 0 where
  pub words : Words
  pub carry : ℕ

unfoldable pub subtract : Words → Words → Difference
unfolding sub_word
subtract first last =
    let d3 = sub_word first.w3 last.w3 0 in
    let d2 = sub_word first.w2 last.w2 d3.carry in
    let d1 = sub_word first.w1 last.w1 d2.carry in
    let d0 = sub_word first.w0 last.w0 d1.carry in
    record {
      words = record { w0 = d0.word; w1 = d1.word; w2 = d2.word; w3 = d3.word };
      carry = d0.carry;
    }

unfoldable pub is_zero : Words → Bool
is_zero d = d.w0 == 0 && d.w1 == 0 && d.w2 == 0 && d.w3 == 0

-- The test that sets `scan`.
unfoldable pub scans : Difference → Bool
unfolding is_zero
scans d = d.carry == 0 && not (is_zero d.words)

-- One round of the long division; the carry is the remainder.
unfoldable pub div_word : (word rem divisor : ℕ) → Digit
div_word word rem divisor =
    let quo = (word + rem * 2 ^ 32 % 2 ^ 64) % 2 ^ 64 in
    record { word = quo / divisor % 2 ^ 32; carry = quo % divisor }

unfoldable pub divide : Words → ℕ → Words
unfolding div_word
divide d divisor =
    let q0 = div_word d.w0 0 divisor in
    let q1 = div_word d.w1 q0.carry divisor in
    let q2 = div_word d.w2 q1.carry divisor in
    let q3 = div_word d.w3 q2.carry divisor in
    record { w0 = q0.word; w1 = q1.word; w2 = q2.word; w3 = q3.word }

-- The step of a scan: the quotient, and at least 1.
unfoldable pub scan_step : Words → ℕ → Words
unfolding divide is_zero
scan_step d loop_count = let q = divide d loop_count in if is_zero q then record q { w3 = 1 } else q

-- One round of an addition: the carry is computed first, and then added to the same word.
unfoldable pub add_word : (a b carry : ℕ) → Digit
add_word a b carry =
    let carry' : ℕ = if ltb (2 ^ 64 - 1) ((a + b + carry) % 2 ^ 64) then 1 else 0 in
    record { word = (a + b + carry') % 2 ^ 32; carry = carry' }

unfoldable pub advance : Words → Words → Words
unfolding add_word
advance a d =
    let s3 = add_word a.w3 d.w3 0 in
    let s2 = add_word a.w2 d.w2 s3.carry in
    let s1 = add_word a.w1 d.w1 s2.carry in
    let s0 = add_word a.w0 d.w0 s1.carry in
    record { w0 = s0.word; w1 = s1.word; w2 = s2.word; w3 = s3.word }

-- The nested test for an address behind the last one.
unfoldable pub exceeds : Words → Words → Bool
exceeds a last =
    ltb last.w0 a.w0
    || a.w0 == last.w0
      && (ltb last.w1 a.w1
          || a.w1 == last.w1 && (ltb last.w2 a.w2 || a.w2 == last.w2 && ltb last.w3 a.w3))

-- `lcg32`, on an `unsigned long`
unfoldable pub lcg32 : ℕ → ℕ
lcg32 cur = (cur * 1664525 + 1013904223) % 2 ^ 64

pub record Position : Type 0 where
  pub daddr : Words
  pub rnd : ℕ

-- Back to the first address, and from there by a part of the step.
unfoldable pub restart : (first delta : Words) → ℕ → Position
unfolding add_word lcg32
restart first delta rnd =
    let r3 = lcg32 rnd in
    let r2 = lcg32 r3 in
    let r1 = lcg32 r2 in
    let r0 = lcg32 r1 in
    let s3 = add_word first.w3 (bit_and delta.w3 r3) 0 in
    let s2 = add_word first.w2 (bit_and delta.w2 r2) s3.carry in
    let s1 = add_word first.w1 (bit_and delta.w1 r1) s2.carry in
    let s0 = add_word first.w0 (bit_and delta.w0 r0) s1.carry in
    record { daddr = record { w0 = s0.word; w1 = s1.word; w2 = s2.word; w3 = s3.word }; rnd = r0 }

-- The address of the next round of a scan.
unfoldable pub next_address : (first last delta : Words) → Position → Position
unfolding advance exceeds restart
next_address first last delta p =
    let daddr = advance p.daddr delta in
    if exceeds daddr last then restart first delta p.rnd else record p { daddr = daddr }
