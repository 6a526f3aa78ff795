-- ===== src/Stats.antt =====
-- The statistics of kbench_mod.c over an array of cycle counts. An array is the list of the values
-- written so far: a read behind them, uninitialised or out of bounds, is a fault.
pub mod Percentile
pub mod Mad
pub mod Average
pub mod Reads
use network_lab.Common.{
  ℕ, zero, suc, ◌+◌, ◌-◌, ◌*◌, ◌/◌, ◌%◌, ◌^◌, Bool, not, List, [], ◌∷◌, ◌++◌, none, some, Exec, ok,
  fault, bad_read, null_pointer, ◌>>=◌, ltb, leb, ◌==◌, if◌then◌else◌, get_elem?,
}
use network_lab.Sorting.{Sorter, compare_ull}

-- `sorted[index]`
unfoldable pub read : List ℕ → ℕ → Exec ℕ
read sorted index = elim (get_elem? sorted index) [ none ↦ fault bad_read | some x ↦ ok x ]

-- `p * count` is computed in 32-bit unsigned arithmetic. The source also computes `index2`, and
-- clamps it, but returns through `index + 1`: no read depends on `index2`.
unfoldable pub percentile : ℕ → List ℕ → ℕ → Exec ℕ
unfolding read
percentile p sorted count =
    let product = p * count % 2 ^ 32 in
    let index = product / 100 in
    if product % 100 == 0
    then read sorted index
    else do a ← read sorted index; b ← read sorted (index + 1); ok ((a + b) % 2 ^ 64 / 2)

-- The loop of `mad`, with `rounds` rounds left and `i` behind it.
unfoldable pub deviations : ℕ → ℕ → List ℕ → ℕ → Exec (List ℕ)
unfolding read
deviations zero i sorted median = ok []
deviations (suc rounds) i sorted median = do
  x ← read sorted i
  rest ← deviations rounds (i + 1) sorted median
  ok ((if ltb median x then x - median else median - x) ∷ rest)

-- `allocated` says whether `kmalloc` returned memory, which the source does not test.
unfoldable pub mad : Sorter → Bool → List ℕ → ℕ → ℕ → Exec ℕ
unfolding deviations percentile
mad k allocated sorted median count = if not allocated then fault null_pointer else do
  dmedian ← deviations count 0 sorted median
  percentile 50 (k.sort compare_ull dmedian) count

pub record Running : Type 0 where
  pub avg : ℕ
  pub remainder : ℕ

-- One round of the loop of `average` at the value `x`.
unfoldable pub average_step : ℕ → ℕ → Running → Running
average_step count x s =
    let remainder1 = x % count in
    let whole = (s.avg + x / count) % 2 ^ 64 in
    if leb (count - remainder1) s.remainder
    then record { avg = (whole + 1) % 2 ^ 64; remainder = s.remainder - (count - remainder1) }
    else record { avg = whole; remainder = s.remainder + remainder1 }

unfoldable pub average_loop : ℕ → ℕ → List ℕ → ℕ → Running → Exec Running
unfolding read average_step
average_loop zero i results count s = ok s
average_loop (suc rounds) i results count s = do
  x ← read results i
  average_loop rounds (i + 1) results count (average_step count x s)

unfoldable pub average : List ℕ → ℕ → Exec ℕ
unfolding average_loop
average results count = do
  s ← average_loop count 0 results count (record { avg = 0; remainder = 0 })
  ok s.avg
