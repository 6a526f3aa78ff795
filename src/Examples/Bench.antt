-- ===== src/Examples/Bench.antt =====
-- The benchmark over the range from 0.0.0.0 to 223.255.255.255, ten times in batches of two.
use network_lab.Common.{
  ℕ, ◌+◌, ◌≤◌, ◌<◌, ◌≡◌, refl, true, false, [], replicate, Returns, ok, fault, divide_by_zero,
  arith,
}
use network_lab.Sysfs.V4.{Config, defaults}
use network_lab.Sysfs.{World}
use network_lab.Sorting.Insertion.{insertion_sorter}
use network_lab.Display.Outcome.{IsReport}
use network_lab.Bench4.Reference.{outcomes, targets}
use network_lab.Bench4.Measured.{loop-eq-outcomes}
use network_lab.Bench4.Report.{measured, plan_of, do_bench-IsReport}
use network_lab.Display.Prefix.{IsShorter}
use network_lab.Bench4.Verbose.{run_show-StartsWith}
use network_lab.Bench4.{
  warmup, run_show, run_verbose_show, do_bench, Plan, Loop, order_range, plan, address, loop, begin,
}
use network_lab.Bench4.Range.{order_range-id, address-InRange}
use network_lab.Bench4.Results.{IsSound, loop-divide_by_zero, plan-IsSound}
use network_lab.Examples.Values.{sample_env, sample_printer, sample_log}

abbrev sample_config : Config
sample_config = record defaults { loop_count = 10; batch_count = 2 }

abbrev sample_plan : Plan
sample_plan = plan sample_env (order_range sample_env sample_config)

order_range-id_example : order_range sample_env sample_config ≡ sample_config
order_range-id_example = order_range-id sample_env sample_config

sample_plan-IsSound : IsSound sample_env sample_plan
sample_plan-IsSound =
    plan-IsSound sample_env sample_config (ground arith) (omega arith) (omega arith) (omega arith)

loop-eq-outcomes_example :
    Returns
      (λ s.
        s.results ≡ outcomes sample_env sample_plan 7 0 [] (targets sample_env sample_plan 10 0))
      (loop sample_env sample_plan 10 0 (begin sample_env sample_plan 7))
unfolding plan order_range
loop-eq-outcomes_example = loop-eq-outcomes sample_env sample_plan sample_plan-IsSound 7

-- Fifty rounds, in twenty-five batches of two.
abbrev long_config : Config
long_config = record defaults { warmup_count = 3; loop_count = 50; batch_count = 2 }

long_values : measured sample_env (plan_of sample_env long_config) 3 ≡ replicate 25 50
unfolding outcomes targets plan order_range
long_values = refl

do_bench-IsReport_example :
    let w : World Config = record { config = long_config; locked = false; references = 0 } in
    Returns
      (λ r.
        IsReport sample_printer sample_log
          (measured sample_env (plan_of sample_env long_config) 3)
          2
          true
          r.0
        × (r.1 ≡ w))
      (do_bench sample_env sample_printer sample_log insertion_sorter true w)
unfolding plan order_range
do_bench-IsReport_example =
    do_bench-IsReport sample_env sample_printer sample_log insertion_sorter true long_config 0 3
      (ground arith) (omega arith) (omega arith) (omega arith) refl refl refl
      (unfold warmup in refl) (rw long_values (omega arith)) (rw long_values (ground arith))

run_show-StartsWith_example :
    IsShorter
      (run_show sample_env sample_printer sample_log insertion_sorter
        (record { config = long_config; locked = false; references = 0 }))
      (run_verbose_show sample_env sample_printer sample_log insertion_sorter
        (record { config = long_config; locked = false; references = 0 }))
run_show-StartsWith_example =
    run_show-StartsWith sample_env sample_printer sample_log insertion_sorter
      (record { config = long_config; locked = false; references = 0 })

address-InRange_example :
    (a : ℕ) × (address sample_env sample_plan 3 ≡ ok a)
    × (sample_env.ntohl sample_plan.start ≤ sample_env.ntohl a)
    × (sample_env.ntohl a < sample_env.ntohl sample_plan.start + sample_plan.delta)
unfolding plan order_range
address-InRange_example =
    address-InRange sample_env sample_plan (omega arith) 3 (omega arith) (omega arith)

-- Both ends of the range are the address 0.0.0.0.
abbrev empty_config : Config
empty_config = record sample_config { flow_dst_ipaddr_e = 0 }

abbrev start : Loop
start = begin sample_env (plan sample_env (order_range sample_env empty_config)) 0

loop-divide_by_zero_example :
    loop sample_env (plan sample_env (order_range sample_env empty_config)) 10 0 start
    ≡ fault divide_by_zero
loop-divide_by_zero_example =
    loop-divide_by_zero sample_env empty_config 9 start (omega arith) refl (omega arith)
