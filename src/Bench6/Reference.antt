-- ===== src/Bench6/Reference.antt =====
-- What `do_bench` (IPv6) measures between its warm-up and its report, said without its buffers: the
-- lookups that find a network and, with batches, how many of those fill a batch.
use network_lab.Common.{
  ℕ, zero, suc, ◌+◌, ◌-◌, ◌*◌, ◌/◌, ◌%◌, ◌^◌, Bool, true, false, not, List, [], ◌∷◌, map, ◌==ℤ◌,
  ltb, if◌then◌else◌, length, take,
}
use network_lab.Addr6.{Words, Position, next_address}
use network_lab.Bench6.{Env6, Plan6}

-- A lookup that finds a network: how many the search made before it, and its address.
pub record Hit : Type 0 where
  pub tried : ℕ
  pub daddr : Words

module _ (env : Env6) (p : Plan6) where
  abbrev pub moved : Bool → Position → Position
  moved true q = next_address p.first p.last p.delta q
  moved false q = q

  -- Lookup number `n`, for the address of `q`, finds a network.
  unfoldable pub is_reached : ℕ → Position → Bool
  is_reached n q =
      not (env.route_error n (record p.flow { daddr = q.daddr }) ==ℤ env.net_unreachable)

  -- The hits of `rounds` lookups from number `lookups` on, from the position before the first one.
  unfoldable pub hits : (rounds tried lookups : ℕ) → Position → List Hit
  unfolding is_reached
  hits zero tried lookups q = []
  hits (suc rounds) tried lookups q =
      let q' = moved p.scan q in
      let rest = hits rounds (tried + 1) (lookups + 1) q' in
      if is_reached lookups q' then (record { tried = tried; daddr = q'.daddr }) ∷ rest else rest

  -- The cycles between reading number `n` and the next one.
  unfoldable pub cycles : ℕ → ℕ
  cycles n = (env.get_cycles (n + 1) + 2 ^ 64 - env.get_cycles n) % 2 ^ 64

  -- The time of a lookup in each of `rounds` batches, from batch `j` on.
  unfoldable pub batch_times : (rounds j : ℕ) → List ℕ
  unfolding cycles
  batch_times zero j = []
  batch_times (suc rounds) j = (cycles (2 * j) / p.batch) ∷ batch_times rounds (j + 1)

  -- The first hits, as many as `loop_count`, behind a warm-up that leaves `lookups` as the number of
  -- the next lookup.
  unfoldable pub found : (lookups : ℕ) → List Hit
  unfolding hits
  found lookups =
      take p.loop_count (hits p.max_loop_count 0 lookups (record { daddr = p.first; rnd = 0 }))

  -- Without batches each hit is timed; with batches those that fill whole batches are.
  unfoldable pub measured6 : (lookups : ℕ) → List ℕ
  unfolding found batch_times cycles
  measured6 lookups =
      if ltb 1 p.batch
      then batch_times (length (found lookups) / p.batch) 0
      else map (λ h. cycles (2 * h.tried)) (found lookups)
