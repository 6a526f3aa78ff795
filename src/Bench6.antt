-- ===== src/Bench6.antt =====
-- `do_bench` of lab-routes-ipv6/2026/kbench_mod.c, from behind its allocations to the release of the
-- mutex: the warm-up, the search for addresses or the measure of each lookup, and the batches.
pub mod Search
pub mod Batches
pub mod Safety
pub mod Sum
pub mod Report
pub mod Whole
pub mod Page
pub mod Outcome
pub mod Race
pub mod Reference
pub mod Ahead
pub mod Measured
pub mod Timed
pub mod Reported
pub mod Verbose
use network_lab.Common.{
  ℕ, zero, suc, ◌+◌, ◌-◌, ◌*◌, ◌/◌, ◌%◌, ◌^◌, ◌≡◌, ◌<◌, Bool, true, false, not, ◌&&◌, List, [], ◌∷◌,
  ◌++◌, ℤ, pos, ◌==ℤ◌, Exec, ok, fault, bad_read, bad_write, out_of_fuel, ◌>>=◌, none, some, ltb,
  leb, ◌==◌, if◌then◌else◌, length, get_elem?,
}
use network_lab.Addr6.{Words, Position, subtract, scans, scan_step, next_address}
use network_lab.Fib6.{Heap, Ptr}
use network_lab.Printk.{In6Addr}
use network_lab.Sysfs.V6.{Config}

-- `struct flowi6`, but for the protocol, which is always TCP
pub record Flow6 : Type 0 where
  pub oif : ℤ
  pub iif : ℤ
  pub mark : ℕ
  pub label : ℕ
  pub daddr : Words
  pub saddr : Words

-- What the benchmark meets, and the repository does not hold. A lookup or a reading is told its
-- number; of the destination that a lookup returns, the benchmark looks at `error` only.
pub record Env6 : Type 0 where
  pub ntohl : ℕ → ℕ
  pub route_error : ℕ → Flow6 → ℤ
  pub get_cycles : ℕ → ℕ
  -- -ENETUNREACH
  pub net_unreachable : ℤ
  pub stale_scan : Bool
  -- `sizeof(struct flowi6)`, which is some hundred bytes, and more than a pointer's
  pub flow_size : ℕ
  pub flow_size_pos : 0 < flow_size
  pub flow_size_lt : flow_size < 2 ^ 16
  -- the outcome of each allocation
  pub results_allocated : Bool
  pub addrs_allocated : Bool
  pub flows_allocated : Bool
  pub dsts_allocated : Bool
  pub mad_allocated : Bool
  -- `init_net.ipv6.fib6_main_tbl`, in a kernel with or without CONFIG_IPV6_SUBTREES
  pub subtrees : Bool
  pub table : Heap
  pub root : Ptr
  pub table_id : ℕ

-- What is fixed before the first lookup. `room` is `loop_count` as the allocations read it, before
-- the mutex is taken, and `loop_count` as the loops read it, behind that.
pub record Plan6 : Type 0 where
  pub room : ℕ
  pub warmup_count : ℕ
  pub loop_count : ℕ
  pub max_loop_count : ℕ
  pub batch : ℕ
  pub scan : Bool
  pub first : Words
  pub last : Words
  pub delta : Words
  pub flow : Flow6

-- The variables of the loops. `total` is the length of `addrs` while those are collected, and that
-- of `results` otherwise; `held` counts the destinations that are not released.
pub record Run6 : Type 0 where
  pub position : Position
  pub addrs : List Words
  pub results : List ℕ
  pub average : ℕ
  pub lookups : ℕ
  pub readings : ℕ
  pub held : ℕ

-- The warm-up: what it leaves, or the error that stops it and what it leaves then.
pub data Warmup6 : Type 0 where
  warm6 : Run6 → Warmup6
  broken6 : ℤ → Run6 → Warmup6

-- The values that `results` has room for: `kmalloc(8 * loop_count)`.
unfoldable pub results_room : Plan6 → ℕ
results_room p = 8 * p.room % 2 ^ 64 / 8

-- The addresses that `addrs` has room for: `vmalloc(16 * loop_count)`.
unfoldable pub addrs_room : Plan6 → ℕ
addrs_room p = 16 * p.room % 2 ^ 64 / 16

module _ (env : Env6) where
  unfoldable pub host_words : In6Addr → Words
  host_words a = record {
    w0 = env.ntohl a.word0;
    w1 = env.ntohl a.word1;
    w2 = env.ntohl a.word2;
    w3 = env.ntohl a.word3;
  }

  -- Where no scan is made, the difference is left without `htonl`, and later read with `ntohl`.
  unfoldable pub plan6 : (room batch : ℕ) → Config → Plan6
  unfolding host_words
  plan6 room batch c =
      let first = host_words c.flow_dst_ipaddr_s in
      let last = host_words c.flow_dst_ipaddr_e in
      let difference = subtract first last in
      let raw = difference.words in
      record {
        room = room;
        warmup_count = c.warmup_count;
        loop_count = c.loop_count;
        max_loop_count = c.max_loop_count;
        batch = batch;
        scan = if scans difference then true else env.stale_scan;
        first = first;
        last = last;
        delta =
            if scans difference
            then scan_step raw c.loop_count
            else host_words
                (record { word0 = raw.w0; word1 = raw.w1; word2 = raw.w2; word3 = raw.w3 });
        flow = record {
          oif = c.flow_oif;
          iif = c.flow_iif;
          mark = c.flow_mark;
          label = c.flow_label;
          daddr = first;
          saddr = host_words c.flow_src_ipaddr;
        };
      }

  -- `ip6_route_output`, which holds the destination that it returns, and `dst_release`
  unfoldable pub route : Run6 → Run6
  route s = record s { lookups = s.lookups + 1; held = s.held + 1 }

  unfoldable pub dst_release : Run6 → Run6
  dst_release s = record s { held = s.held - 1 }

  unfoldable pub warmup6 : ℕ → Flow6 → Run6 → Warmup6
  unfolding route dst_release
  warmup6 zero flow s = warm6 s
  warmup6 (suc rounds) flow s =
      let err = env.route_error s.lookups flow in
      let s' = dst_release (route s) in
      let rest = warmup6 rounds flow s' in
      if not (err ==ℤ pos 0) && not (err ==ℤ env.net_unreachable) then broken6 err s' else rest

  module _ (p : Plan6) where
    -- `fl6`, whose destination is where the scan stands
    unfoldable pub current : Run6 → Flow6
    current s = record p.flow { daddr = s.position.daddr }

    -- `results[total] = value; average += results[total]; total++`
    unfoldable pub record_value : ℕ → Run6 → Exec Run6
    unfolding results_room
    record_value value s =
        if ltb (length s.results) (results_room p)
        then ok
            (record s { results = s.results ++ value ∷ []; average = (s.average + value) % 2 ^ 64 })
        else fault bad_write

    -- `addrs[total++] = fl6.daddr`, where the address has a route
    unfoldable pub collect_address : Run6 → Exec Run6
    unfolding route dst_release current addrs_room
    collect_address s =
        let s' = dst_release (route s) in
        if env.route_error s.lookups (current s) ==ℤ env.net_unreachable
        then ok s'
        else if ltb (length s.addrs) (addrs_room p)
        then ok (record s' { addrs = s.addrs ++ s.position.daddr ∷ [] })
        else fault bad_write

    unfoldable pub elapsed6 : Run6 → ℕ
    elapsed6 s = (env.get_cycles (s.readings + 1) + 2 ^ 64 - env.get_cycles s.readings) % 2 ^ 64

    unfoldable pub measure_lookup : Run6 → Exec Run6
    unfolding route dst_release current record_value elapsed6
    measure_lookup s =
        let s' : Run6 = record (dst_release (route s)) { readings = s.readings + 2 } in
        if env.route_error s.lookups (current s) ==ℤ env.net_unreachable
        then ok s'
        else record_value (elapsed6 s) s'

    unfoldable pub total6 : Run6 → ℕ
    total6 s = if ltb 1 p.batch then length s.addrs else length s.results

    -- One round: the next address of a scan, and a lookup.
    unfoldable pub search_round : Run6 → Exec Run6
    unfolding collect_address measure_lookup
    search_round s =
        let s' : Run6 =
          if p.scan
          then record s { position = next_address p.first p.last p.delta s.position }
          else s in
        if ltb 1 p.batch then collect_address s' else measure_lookup s'

    unfoldable pub search_loop : ℕ → Run6 → Exec Run6
    unfolding search_round total6
    search_loop zero s = ok s
    search_loop (suc rounds) s =
        let rest = search_round s >>= search_loop rounds in
        if leb p.loop_count (total6 s) then ok s else rest

    -- The flows that `batched_fl6` has room for: `kmalloc(sizeof(*batched_fl6) * batch)`.
    unfoldable pub flows_room : ℕ
    flows_room = env.flow_size * p.batch % 2 ^ 64 / env.flow_size

    -- `batched_fl6[j].daddr = addrs[i + j]` for the last `rounds` values of `j`. Where these fit,
    -- the pointers to the destinations fit as well.
    unfoldable pub fill_batch : (rounds i : ℕ) → List Words → Exec (List Flow6)
    unfolding flows_room
    fill_batch zero i addrs = ok []
    fill_batch (suc rounds) i addrs = elim (get_elem? addrs i) [
      | none ↦ fault bad_read
      | some a ↦
          let rest =
            fill_batch rounds (i + 1) addrs >>= λ flows. ok (record p.flow { daddr = a } ∷ flows) in
          if ltb (p.batch - suc rounds) flows_room then rest else fault bad_write
    ]

    -- The lookups of a batch, and the releases behind the second reading.
    unfoldable pub route_batch : List Flow6 → Run6 → Run6
    unfolding route
    route_batch [] s = s
    route_batch (f ∷ flows) s = route_batch flows (route s)

    unfoldable pub release_batch : ℕ → Run6 → Run6
    unfolding dst_release
    release_batch zero s = s
    release_batch (suc rounds) s = release_batch rounds (dst_release s)

    unfoldable pub batch_round : ℕ → Run6 → Exec Run6
    unfolding fill_batch route_batch release_batch record_value elapsed6
    batch_round i s = fill_batch p.batch i s.addrs >>= λ flows.
        record_value (elapsed6 s / p.batch)
          (record (release_batch p.batch (route_batch flows s)) { readings = s.readings + 2 })

    unfoldable pub batch_loop : (fuel i : ℕ) → Run6 → Exec Run6
    unfolding batch_round
    batch_loop zero i s = fault out_of_fuel
    batch_loop (suc fuel) i s =
        let rest = batch_round i s >>= batch_loop fuel (i + p.batch) in
        if leb (i + p.batch) (length s.addrs) then rest else ok s

    -- From behind the warm-up to the release of the mutex.
    unfoldable pub measure_all : Run6 → Exec Run6
    unfolding search_loop batch_loop
    measure_all s = search_loop p.max_loop_count s >>= λ s'.
        if ltb 1 p.batch then batch_loop (length s'.addrs + 1) 0 s' else ok s'

    abbrev pub start6 : ℕ → Run6
    start6 lookups = record {
      position = record { daddr = p.first; rnd = 0 };
      addrs = [];
      results = [];
      average = 0;
      lookups = lookups;
      readings = 0;
      held = 0;
    }
