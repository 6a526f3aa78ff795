-- ===== src/Examples/Addresses.antt =====
-- The arithmetic on IPv6 addresses at small words.
use network_lab.Common.{◌+◌, ◌/◌, ◌^◌, ◌<◌, ◌≡◌, ◌≢◌, ◌↔◌, true, arith}
use network_lab.Addr6.{Words, number, subtract, scans, divide, advance}
use network_lab.Addr6.Scan.{scans_iff, subtract-wrong, divide-number}
use network_lab.Addr6.Step.{advance-number_iff}

-- 2001:db8::, 2001:db8::ffff and 2001:db8:1::
abbrev first : Words
first = record { w0 = 0x20010db8; w1 = 0; w2 = 0; w3 = 0 }

abbrev last : Words
last = record { w0 = 0x20010db8; w1 = 0; w2 = 0; w3 = 0xffff }

abbrev far : Words
far = record { w0 = 0x20010db8; w1 = 0x10000; w2 = 0; w3 = 0 }

scans_iff_example : (scans (subtract last far) ≡ true) ↔ (number last < number far)
scans_iff_example = scans_iff last far (ground arith) (ground arith)

subtract-wrong_example : number (subtract last far).words + number last ≢ number far
subtract-wrong_example = subtract-wrong last far (ground arith) (omega arith) (omega arith)

divide-number_example : number (divide last 5000) ≡ number last / 5000
divide-number_example = divide-number last 5000 (ground arith) (omega arith) (omega arith)

advance-number_iff_example : (number (advance first last) ≡ number first + number last) ↔ (
    (0x20010db8 + 0x20010db8 < 2 ^ 32)
    × (0 + 0 < 2 ^ 32)
    × (0 + 0 < 2 ^ 32)
    × (0 + 0xffff < 2 ^ 32))
advance-number_iff_example = advance-number_iff first last (ground arith) (ground arith)
