-- ===== src/Examples/Values.antt =====
-- Concrete stand-ins for what the repository does not hold, for the runs and examples beside.
use native.Mathlib.Nat.{two-pow-succ, one-le-pow}
use native.Mathlib.Numerals.{add-one}
use network_lab.Common.{
  ℕ, zero, suc, ◌+◌, ◌-◌, ◌/◌, ◌%◌, ◌^◌, ◌<◌, ◌≤◌, ◌≡◌, refl, List, [], ◌∷◌, pos, none, some, ltb,
  ◌&&◌, if◌then◌else◌, length, min, arith, Option, ap, ◌==ℤ◌, ◌*◌, true, false, negsuc, ◌++◌,
  Bool-cases, inl, inr,
}
use network_lab.Printk.{Printer, Piece, Text, In6Addr}
use network_lab.Printk
use network_lab.Display.{Log}
use network_lab.Display.Scale.{log_exists}
use network_lab.Sorting.{compare_ull}
use network_lab.Sorting.Insertion.{insertion_sort}
use network_lab.Bench4.{Env}
use network_lab.Sysfs.{Kernel, Parsed, value, failed, einval, Device, IsBounded, IsParsedIn6}

-- A text that is one "digit", or four for an IPv6 address.
abbrev pub sample_text : Piece → Text
sample_text (Printk.lu v) = v ∷ []
sample_text (Printk.hex2 v) = v ∷ []
sample_text (Printk.hex8 v) = v ∷ []
sample_text (Printk.ip4 v) = v ∷ []
sample_text (Printk.ip6 a) = a.word0 ∷ a.word1 ∷ a.word2 ∷ a.word3 ∷ []
sample_text _ = b'#' ∷ []

abbrev pub sample_printer : Printer
sample_printer = record {
  page_size = 4096;
  page_size_min = omega arith;
  text = sample_text;
  row_start_nonempty = λ start. omega arith;
  scnprintf = λ size p. min (length (sample_text p)) (size - 1);
  scnprintf_lem = λ size p. refl;
}

-- The logarithm by halving.
unfoldable pub halvings : ℕ → ℕ → ℕ
halvings zero n = 0
halvings (suc fuel) n = let rest = halvings fuel (n / 2) in if ltb n 2 then 0 else suc rest

pub halvings_lem : (fuel n k : ℕ) → k < fuel → 2 ^ k ≤ n → n < 2 ^ k + 2 ^ k → halvings fuel n ≡ k
unfolding halvings
halvings_lem zero n k h lo hi = absurd (omega arith)
halvings_lem (suc fuel) n zero h lo hi = ground arith
halvings_lem (suc fuel) n (suc k) h lo hi =
    let some_power = one-le-pow k 2 (omega arith) in
    let double = two-pow-succ k in
    ground (
      arith,
      halvings_lem fuel (n / 2) k (omega arith) (omega (arith, double)) (omega (arith, double)),
      double,
      some_power,
    )

pub below_power : (k : ℕ) → k < 2 ^ k
below_power zero = omega arith
below_power (suc k) = omega (arith, below_power k, two-pow-succ k)

-- A number of 64 bits has at most 63 halvings.
pub halvings_bound : (n k : ℕ) → n < 2 ^ 64 → pos (halvings n n) ≡ pos k → k < 64
unfolding halvings
halvings_bound zero k small e = let same : k ≡ 0 = cc in omega arith
halvings_bound (suc m) k small e =
    let (j, lt, lo, hi) = log_exists 64 (suc m) (omega arith) small in
    let high : suc m < 2 ^ suc j = simp add-one at hi in
    let found : halvings (suc m) (suc m) ≡ j =
      halvings_lem (suc m) (suc m) j (omega (arith, below_power j)) lo
        (omega (arith, two-pow-succ j, high)) in
    let same : k ≡ j = cc in omega arith

abbrev pub sample_log : Log
sample_log = record {
  ilog2 = λ n. pos (halvings n n);
  ilog2_lem = λ n k lo hi.
      let high : n < 2 ^ suc k = simp add-one at hi in
      ap pos (
        halvings_lem n n k (omega (arith, below_power k)) lo (omega (arith, two-pow-succ k, high)));
  ilog2_bound = λ n k small e. halvings_bound n k small e;
}

abbrev pub parse_below : ℕ → Text → Parsed ℕ
parse_below bound (v ∷ []) = if ltb v bound then value v else failed einval
parse_below bound _ = failed einval

pub parse_below-IsBounded : (bound : ℕ) (buf : Text) → IsBounded bound (parse_below bound buf)
parse_below-IsBounded bound [] = tt
parse_below-IsBounded bound (v ∷ []) = ground arith
parse_below-IsBounded bound (v ∷ w ∷ buf) = tt

abbrev pub parse_ip4 : Text → ℕ
parse_ip4 (v ∷ []) = v % 2 ^ 32
parse_ip4 _ = 0

abbrev pub parse_ip6 : Text → Option (In6Addr × ℕ)
parse_ip6 (a ∷ b ∷ c ∷ d ∷ []) =
    if ltb a (2 ^ 32) && ltb b (2 ^ 32) && ltb c (2 ^ 32) && ltb d (2 ^ 32)
    then some (record { word0 = a; word1 = b; word2 = c; word3 = d }, b'\n')
    else none
parse_ip6 _ = none

pub parse_ip4-lt : (buf : Text) → parse_ip4 buf < 2 ^ 32
parse_ip4-lt [] = omega arith
parse_ip4-lt (v ∷ []) = omega arith
parse_ip4-lt (v ∷ w ∷ buf) = omega arith

pub parse_ip6-IsParsedIn6 : (buf : Text) → IsParsedIn6 (parse_ip6 buf)
parse_ip6-IsParsedIn6 [] = tt
parse_ip6-IsParsedIn6 (a ∷ []) = tt
parse_ip6-IsParsedIn6 (a ∷ b ∷ []) = tt
parse_ip6-IsParsedIn6 (a ∷ b ∷ c ∷ []) = tt
parse_ip6-IsParsedIn6 (a ∷ b ∷ c ∷ d ∷ []) = ground arith
parse_ip6-IsParsedIn6 (a ∷ b ∷ c ∷ d ∷ e ∷ buf) = tt

abbrev pub sample_device : Device
sample_device = record { name = b'e' ∷ b't' ∷ b'h' ∷ b'0' ∷ []; ifindex = 2 }

abbrev pub sample_kernel : Kernel
sample_kernel = record {
  kstrtoul = parse_below (2 ^ 64);
  kstrtoul_bound = parse_below-IsBounded (2 ^ 64);
  kstrtouint = parse_below (2 ^ 32);
  kstrtouint_bound = parse_below-IsBounded (2 ^ 32);
  kstrtou32 = parse_below (2 ^ 32);
  kstrtou32_bound = parse_below-IsBounded (2 ^ 32);
  kstrtoint = λ buf. failed einval;
  scan_name = λ buf. buf;
  in_aton = parse_ip4;
  in_aton_bound = parse_ip4-lt;
  in6_pton = λ buf count. if ltb count (length buf) then none else parse_ip6 buf;
  in6_pton_bound = λ buf count. elim (Bool-cases (ltb count (length buf))) [
    | inl e ↦ rw e tt
    | inr e ↦ rw e (parse_ip6-IsParsedIn6 buf)
  ];
  dev_get_by_index = λ i. if i ==ℤ pos 2 then some sample_device else none;
  dev_get_by_name = λ name. some sample_device;
}

-- A machine whose byte order is the network's, with a route for every address and 100 cycles between
-- two readings.
abbrev pub sample_env : Env
sample_env = record {
  ntohl = λ x. x % 2 ^ 32;
  htonl = λ x. x;
  ntohl_bound = λ x. omega arith;
  ntohl-htonl = λ x h. omega arith;
  is_loopback = λ a. false;
  fib_lookup = λ n flow. pos 0;
  get_cycles = λ n. 100 * n;
  net_unreachable = negsuc 100;
  no_such_process = negsuc 2;
  flow_size = 64;
  flow_size_pos = omega arith;
  results_allocated = true;
  batched_allocated = true;
  mad_allocated = true;
  stale_scan = true;
}

abbrev pub ten : List ℕ
ten = 91 ∷ 12 ∷ 83 ∷ 24 ∷ 75 ∷ 36 ∷ 67 ∷ 48 ∷ 59 ∷ 50 ∷ []

abbrev pub twenty : List ℕ
twenty = ten ++ ten

abbrev pub twenty_sorted : List ℕ
twenty_sorted = insertion_sort compare_ull twenty
