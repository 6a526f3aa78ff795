-- ===== src/Addr6/Step.antt =====
-- The walk of a scan over the addresses, in `do_bench` of the IPv6 module.
use network_lab.Common.{◌+◌, ◌^◌, ◌<◌, ◌≡◌, ◌↔◌, true, arith}
use network_lab.Addr6.{Words, IsWords, number, advance, exceeds}

-- The nested test on the words of two addresses holds exactly when the first one, as a number of
-- 128 bits, is above the second one.
exceeds_iff :
    (a last : Words) → IsWords a → IsWords last → (exceeds a last ≡ true) ↔ (number last < number a)
unfolding exceeds
exceeds_iff a last f l = ground arith

-- The addition of a step to an address gives the sum of the two numbers exactly when no word
-- overflows: no carry is ever passed on.
pub advance-number_iff :
    (a d : Words)
    → IsWords a
    → IsWords d
    → (number (advance a d) ≡ number a + number d) ↔ (
        (a.w0 + d.w0 < 2 ^ 32)
        × (a.w1 + d.w1 < 2 ^ 32)
        × (a.w2 + d.w2 < 2 ^ 32)
        × (a.w3 + d.w3 < 2 ^ 32))
unfolding advance
advance-number_iff a d f g = ground arith
