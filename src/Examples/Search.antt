-- ===== src/Examples/Search.antt =====
-- The IPv6 benchmark over the addresses from 2001:db8:: to 2001:db8::ffff, a route behind each.
use network_lab.Common.{ℕ, ◌*◌, ◌≡◌, true, pos, negsuc, Returns, arith}
use network_lab.Addr6.{Words}
use network_lab.Bench6.{Env6, Plan6, Flow6, measure_all, start6}
use network_lab.Examples.Routes.{heap}
use network_lab.Bench6.Reference.{measured6}
use network_lab.Bench6.Timed.{measure_all-eq-measured6}

abbrev pub env : Env6
env = record {
  ntohl = λ x. x;
  route_error = λ n flow. pos 0;
  get_cycles = λ n. 100 * n;
  net_unreachable = negsuc 100;
  stale_scan = true;
  flow_size = 88;
  flow_size_pos = omega arith;
  flow_size_lt = omega arith;
  results_allocated = true;
  addrs_allocated = true;
  flows_allocated = true;
  dsts_allocated = true;
  mad_allocated = true;
  subtrees = true;
  table = heap;
  root = 1;
  table_id = 254;
}

abbrev start_address : Words
start_address = record { w0 = 0x20010db8; w1 = 0; w2 = 0; w3 = 0 }

abbrev flow : Flow6
flow = record {
  oif = pos 0;
  iif = pos 0;
  mark = 0;
  label = 0;
  daddr = start_address;
  saddr = start_address;
}

-- Room for five results; `loop` is the number of them that the loop asks for.
abbrev pub plan_of : (loop batch : ℕ) → Plan6
plan_of loop batch = record {
  room = 5;
  warmup_count = 3;
  loop_count = loop;
  max_loop_count = 20;
  batch = batch;
  scan = true;
  first = start_address;
  last = record start_address { w3 = 0xffff };
  delta = record { w0 = 0; w1 = 0; w2 = 0; w3 = 0x3333 };
  flow = flow;
}

measure_all-eq-measured6_example :
    Returns
      (λ s. s.results ≡ measured6 env (plan_of 5 2) 3)
      (measure_all env (plan_of 5 2) (start6 env (plan_of 5 2) 3))
measure_all-eq-measured6_example =
    measure_all-eq-measured6 env (plan_of 5 2) 3 (omega arith) (omega arith) (omega arith)
