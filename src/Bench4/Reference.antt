-- ===== src/Bench4/Reference.antt =====
-- What the loop of `do_bench` (IPv4) measures, said without its buffers: first the flows that are to be
-- looked up, then what each whole batch of them takes.
use network_lab.Common.{
  ℕ, zero, suc, ◌+◌, ◌-◌, ◌/◌, ◌%◌, ◌^◌, Bool, true, not, ◌&&◌, ◌==ℤ◌, List, [], ◌∷◌, ◌++◌, ◌==◌,
  if◌then◌else◌, length,
}
use network_lab.Bench4.{Env, Flow, Plan}
use network_lab.Bench4.Range.{offset}

module _ (env : Env) where
  -- Each flow of a batch has a network, the first one at lookup number `n`.
  unfoldable pub all_reached : (n : ℕ) → List Flow → Bool
  all_reached n [] = true
  all_reached n (f ∷ fs) =
      not (env.fib_lookup n f ==ℤ env.net_unreachable) && all_reached (n + 1) fs

  -- The cycles from reading number `n` to the next one, on a counter of 64 bits.
  unfoldable pub cycles : ℕ → ℕ
  cycles n = (env.get_cycles (n + 1) + 2 ^ 64 - env.get_cycles n) % 2 ^ 64

module _ (env : Env) (p : Plan) where
  -- The flow of round `i`, unless its address is a loopback address.
  unfoldable pub target : ℕ → List Flow
  unfolding offset
  target i =
      let daddr = env.htonl (env.ntohl p.start + offset env p i) in
      if p.scan
      then (if env.is_loopback daddr then [] else (record p.flow { daddr = daddr }) ∷ [])
      else p.flow ∷ []

  unfoldable pub targets : (rounds i : ℕ) → List Flow
  unfolding target
  targets zero i = []
  targets (suc rounds) i = target i ++ targets rounds (i + 1)

  -- A batch counts where all its flows are reachable, with the time of one of its lookups.
  unfoldable pub outcome : (lookups readings : ℕ) → List Flow → List ℕ
  unfolding all_reached cycles
  outcome lookups readings batch =
      if all_reached env lookups batch then (cycles env readings / p.batch) ∷ [] else []

  -- The outcomes of the batches that `waiting` and the flows to come make up, in order. A batch that
  -- is not full at the end is dropped.
  unfoldable pub outcomes : (lookups readings : ℕ) (waiting flows : List Flow) → List ℕ
  unfolding outcome
  outcomes lookups readings waiting [] = []
  outcomes lookups readings waiting (f ∷ fs) =
      let batch = waiting ++ f ∷ [] in
      let full = outcomes (lookups + p.batch) (readings + 2) [] fs in
      let more = outcomes lookups readings batch fs in
      if length batch == p.batch then outcome lookups readings batch ++ full else more
