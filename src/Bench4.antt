-- ===== src/Bench4.antt =====
-- `do_bench` of lab-routes-ipv4/kbench_mod.c, for a kernel from 2.6.39 on whose flows have a field
-- `flowi4_tos`.
pub mod Range
pub mod Results
pub mod Reference
pub mod Measured
pub mod Report
pub mod Verbose
pub mod Outcome
use network_lab.Common.{
  ℕ, zero, suc, ◌+◌, ◌-◌, ◌*◌, ◌/◌, ◌%◌, ◌^◌, ◌≡◌, ◌<◌, Bool, true, false, not, ◌&&◌, ◌||◌, List,
  [], ◌∷◌, ◌++◌, ℤ, pos, ◌==ℤ◌, Exec, ok, fault, bad_write, divide_by_zero, ◌>>=◌, ltb, leb, ◌==◌,
  if◌then◌else◌, length,
}
use network_lab.Sorting.{Sorter}
use network_lab.Printk.{Printer, Page, print, blank}
use network_lab.Printk
use network_lab.Display.{Log, display_statistics}
use network_lab.Sysfs.{World, Sys, and_then, mutex_lock, mutex_unlock, get_config, modify}
use network_lab.Sysfs as Sysfs
use network_lab.Sysfs.V4.{Config}

-- `struct flowi4`
pub record Flow : Type 0 where
  pub oif : ℤ
  pub iif : ℤ
  pub mark : ℕ
  pub tos : ℕ
  pub daddr : ℕ
  pub saddr : ℕ

-- What the benchmark meets, and the repository does not hold: the byte order, the routing table, the
-- cycle counter, the outcome of each allocation, and what the stack holds where the variable `scan`
-- is, which the function declares and may never set. A lookup or a reading is told its number.
pub record Env : Type 0 where
  pub ntohl : ℕ → ℕ
  pub htonl : ℕ → ℕ
  pub ntohl_bound : (x : ℕ) → ntohl x < 2 ^ 32
  pub ntohl-htonl : (x : ℕ) → x < 2 ^ 32 → ntohl (htonl x) ≡ x
  pub is_loopback : ℕ → Bool
  pub fib_lookup : ℕ → Flow → ℤ
  pub get_cycles : ℕ → ℕ
  -- -ENETUNREACH and -ESRCH
  pub net_unreachable : ℤ
  pub no_such_process : ℤ
  -- `sizeof(struct flowi4)`
  pub flow_size : ℕ
  pub flow_size_pos : 0 < flow_size
  pub results_allocated : Bool
  pub batched_allocated : Bool
  pub mad_allocated : Bool
  pub stale_scan : Bool

-- What is fixed before the first lookup. `start` is in network order, `delta` is a number.
pub record Plan : Type 0 where
  pub warmup : ℕ
  pub count : ℕ
  pub batch : ℕ
  pub start : ℕ
  pub scan : Bool
  pub delta : ℕ
  pub flow : Flow

-- The variables of the loop. `total` is the length of `results`, and `j` that of `batched`.
pub record Loop : Type 0 where
  pub results : List ℕ
  pub batched : List Flow
  pub flow : Flow
  pub lookups : ℕ
  pub readings : ℕ

-- The warmup, with the number of the next lookup: the error that stops it, or that number.
pub data Warmup : Type 0 where
  warm : ℕ → Warmup
  broken : ℤ → Warmup

module _ (env : Env) where
  -- `if (ntohl(e) - ntohl(s) < 0) swap(e, s)`, on unsigned numbers
  unfoldable pub order_range : Config → Config
  order_range c =
      if ltb ((env.ntohl c.flow_dst_ipaddr_e + 2 ^ 32 - env.ntohl c.flow_dst_ipaddr_s) % 2 ^ 32) 0
      then record c {
        flow_dst_ipaddr_s = c.flow_dst_ipaddr_e;
        flow_dst_ipaddr_e = c.flow_dst_ipaddr_s;
      }
      else c

  unfoldable pub plan : Config → Plan
  plan c =
      let first = env.ntohl c.flow_dst_ipaddr_s in
      let last = env.ntohl c.flow_dst_ipaddr_e in
      record {
        warmup = c.warmup_count;
        count = c.loop_count;
        batch = c.batch_count;
        start = c.flow_dst_ipaddr_s;
        scan = if ltb first last then true else env.stale_scan;
        delta = if ltb first last then last - first else 0;
        flow = record {
          oif = c.flow_oif;
          iif = c.flow_iif;
          mark = c.flow_mark;
          tos = c.flow_tos;
          daddr = c.flow_dst_ipaddr_s;
          saddr = c.flow_src_ipaddr;
        };
      }

  -- The values that `results` has room for: `kmalloc(8 * (count / batch + 1))`.
  unfoldable pub capacity : Plan → ℕ
  capacity p = 8 * (p.count / p.batch + 1) % 2 ^ 64 / 8

  -- The flows that `batched_fl4` has room for: `kmalloc(sizeof(*batched_fl4) * batch)`.
  unfoldable pub batched_room : Plan → ℕ
  batched_room p = env.flow_size * p.batch % 2 ^ 64 / env.flow_size

  unfoldable pub warmup : ℕ → ℕ → Flow → Warmup
  warmup zero n flow = warm n
  warmup (suc rounds) n flow =
      let err = env.fib_lookup n flow in
      let rest = warmup rounds (n + 1) flow in
      if not (err ==ℤ pos 0)
        && not (err ==ℤ env.net_unreachable)
        && not (err ==ℤ env.no_such_process)
      then broken err
      else rest

  -- The address of round `i`, in network order. A remainder by 0 is a fault.
  unfoldable pub address : Plan → ℕ → Exec ℕ
  address p i =
      let first = env.ntohl p.start in
      if ltb p.delta p.count
      then (if p.delta == 0
          then fault divide_by_zero
          else ok (env.htonl ((first + i % p.delta) % 2 ^ 32)))
      else (if p.count == 0
          then fault divide_by_zero
          else ok (env.htonl ((first + p.delta / p.count * i % 2 ^ 64) % 2 ^ 32)))

  -- `results[total] = value; total++`
  unfoldable pub record_result : Plan → ℕ → Loop → Exec Loop
  unfolding capacity
  record_result p value s =
      if ltb (length s.results) (capacity p)
      then ok (record s { results = s.results ++ value ∷ [] })
      else fault bad_write

  -- `t2 - t1` over `lookups` lookups behind reading number `n`
  unfoldable pub elapsed : ℕ → ℕ
  elapsed n = (env.get_cycles (n + 1) + 2 ^ 64 - env.get_cycles n) % 2 ^ 64

  unfoldable pub measure_one : Plan → Loop → Exec Loop
  unfolding record_result elapsed
  measure_one p s =
      let s' : Loop = record s { lookups = s.lookups + 1; readings = s.readings + 2 } in
      if env.fib_lookup s.lookups s.flow ==ℤ env.net_unreachable
      then ok s'
      else record_result p (elapsed s.readings) s'

  -- The lookups of a batch, which leave their results in the flows, and the search among those.
  unfoldable pub lookup_batch : ℕ → List Flow → List Flow
  lookup_batch n [] = []
  lookup_batch n (f ∷ fs) = record f { oif = env.fib_lookup n f } ∷ lookup_batch (n + 1) fs

  unfoldable pub any_unreachable : List Flow → Bool
  any_unreachable [] = false
  any_unreachable (f ∷ fs) = f.oif ==ℤ env.net_unreachable || any_unreachable fs

  unfoldable pub measure_batch : Plan → Loop → Exec Loop
  unfolding record_result elapsed lookup_batch any_unreachable
  measure_batch p s =
      let s' : Loop = record s {
        batched = [];
        lookups = s.lookups + p.batch;
        readings = s.readings + 2;
      } in
      if any_unreachable (lookup_batch s.lookups s.batched)
      then ok s'
      else record_result p (elapsed s.readings / p.batch) s'

  -- `memcpy(&batched_fl4[j], &fl4, sizeof(fl4)); if (++j != batch) continue;`
  unfoldable pub add_to_batch : Plan → Loop → Exec Loop
  unfolding measure_batch batched_room
  add_to_batch p s =
      let s' : Loop = record s { batched = s.batched ++ s.flow ∷ [] } in
      if not (ltb (length s.batched) (batched_room p))
      then fault bad_write
      else if length s'.batched == p.batch
      then measure_batch p s'
      else ok s'

  unfoldable pub measure : Plan → Loop → Exec Loop
  unfolding measure_one add_to_batch
  measure p s = if leb p.batch 1 then measure_one p s else add_to_batch p s

  -- One round of the loop.
  unfoldable pub round : Plan → ℕ → Loop → Exec Loop
  unfolding address measure
  round p i s = if not p.scan then measure p s else do
    daddr ← address p i
    if env.is_loopback daddr
        then ok s
        else measure p (record s { flow = record s.flow { daddr = daddr } })

  unfoldable pub loop : Plan → (rounds i : ℕ) → Loop → Exec Loop
  unfolding round
  loop p zero i s = ok s
  loop p (suc rounds) i s = round p i s >>= λ s'. loop p rounds (i + 1) s'

  abbrev pub begin : Plan → ℕ → Loop
  begin p n = record { results = []; batched = []; flow = p.flow; lookups = n; readings = 0 }

  -- What stands behind the allocations.
  unfoldable pub bench : Printer → Log → Sorter → Plan → Bool → Exec Page
  unfolding loop warmup
  bench k log sorter p verbose =
      if not env.results_allocated || ltb 1 p.batch && not env.batched_allocated
      then ok (print k Printk.no_memory blank)
      else elim (warmup p.warmup 0 p.flow) [
        | broken err ↦ ok (print k (Printk.lookup_error err) blank)
        | warm n ↦ loop p p.count 0 (begin p n) >>= λ s.
            display_statistics k log sorter env.mad_allocated s.results (length s.results) p.batch
              verbose
      ]

  -- The swap is made before the mutex is taken.
  unfoldable pub do_bench : Printer → Log → Sorter → Bool → Sys Config Page
  unfolding bench plan order_range
  do_bench k log sorter verbose = Sysfs.◌>>◌ (modify order_range) (
      Sysfs.◌>>◌ mutex_lock (
        Sysfs.◌>>=◌ get_config λ c.
          Sysfs.◌>>◌ mutex_unlock
            (λ w. bench k log sorter (plan c) verbose >>= λ page. ok (page, w))))

  unfoldable pub run_show : Printer → Log → Sorter → Sys Config Page
  run_show k log sorter = do_bench k log sorter false

  unfoldable pub run_verbose_show : Printer → Log → Sorter → Sys Config Page
  run_verbose_show k log sorter = do_bench k log sorter true
