-- ===== src/Examples/Runs.antt =====
-- Whole runs of the three benchmarks.
use network_lab.Common.{
  Option, some, fault, use_after_free, List, [], ◌∷◌, ◌⊎◌, fault, bad_write, ℕ, ◌≡◌, refl, true,
  false, pos, ℤ, ok, Ends, Returns, replicate, arith,
}
use network_lab.Printk.{Fits}
use network_lab.Printk
use network_lab.Sysfs.{World, bytes}
use network_lab.Sysfs.V4 as V4
use network_lab.Sysfs.V6 as V6
use network_lab.Sysfs.Old as Old
use network_lab.Sysfs.Old.Simulation.{widen}
use network_lab.Sorting.Insertion.{insertion_sorter}
use network_lab.Bench4.{do_bench, plan, order_range}
use network_lab.Bench4.Outcome.{HasFewResults, do_bench-Ends}
use network_lab.Display.Prefix.{IsShorter}
use network_lab.Bench6.Verbose.{run_show-IsShorter}
use network_lab.Bench6.Whole.{run_show, run_verbose_show}
use network_lab.Bench6.{warmup6, results_room, Run6, Plan6, plan6, measure_all, start6}
use network_lab.Bench6.Whole.{lacks_memory, do_bench6_beside, finish6}
use network_lab.Bench6.Race.{serving, do_bench6_beside-Ends, do_bench6_beside-bad_write}
use network_lab.Sysfs.V6.Laws.{IsReady}
use network_lab.Bench6.Outcome.{HasFewResults6, finish6-IsReport6}
use network_lab.Bench6.Page.{IsReport6}
use network_lab.Bench6.Reference.{measured6}
use network_lab.Bench6.Reported.{plan_beside, depths_of, do_bench6_beside-IsReport6}
use network_lab.Older.{older_plan, older_loop, older_bench_beside}
use network_lab.Older.Equal.{older_loop-eq-measure_all}
use network_lab.Older.Outcome.{HasFewOlder, HasFreed, older_bench_beside-Ends, serving_older}
use network_lab.Examples.Values.{sample_printer, sample_log, sample_env, sample_kernel}
use network_lab.Examples.Routes.{tree, heap-IsTree}
use network_lab.Examples.Search.{env, plan_of}

abbrev world4 : World V4.Config
world4 = record { config = record V4.defaults { loop_count = 10 }; locked = false; references = 0 }

do_bench-Ends_example :
    Ends
      (HasFewResults sample_env (plan sample_env (order_range sample_env world4.config)))
      (λ r. Fits sample_printer r.0 × (r.1 ≡ world4))
      (do_bench sample_env sample_printer sample_log insertion_sorter true world4)
do_bench-Ends_example =
    do_bench-Ends sample_env sample_printer sample_log insertion_sorter true world4.config 0
      (ground arith) (omega arith) (omega arith) (omega arith) refl

abbrev world6 : World V6.Config
world6 = record {
  config = record V6.defaults { loop_count = 10; batch_count = 1 };
  locked = false;
  references = 0;
}

world6-IsReady : IsReady world6
world6-IsReady = record { free = refl; valid = ground arith }

-- Another caller sets `loop_count`, and asks for it.
abbrev set_to : ℕ → List V6.Request
set_to n = V6.write_request V6.loop_count (n ∷ []) 2 ∷ V6.read_request V6.loop_count ∷ []

abbrev replies_to : ℕ → List V6.Reply
replies_to n = V6.written (bytes 2) ∷ V6.reading (record { piece = Printk.lu n; size = 1 }) ∷ []

abbrev world6_at : ℕ → World V6.Config
world6_at n = record world6 { config = record world6.config { loop_count = n } }

do_bench6_beside-Ends_example :
    Ends
      (HasFewResults6 env (plan6 env 10 1 (world6_at 8).config))
      (λ r. Fits sample_printer r.0 × ((r.1 ≡ world6) ⊎ (r.1 ≡ world6_at 8)))
      (do_bench6_beside env sample_printer sample_log insertion_sorter 14 false
        (serving sample_kernel sample_printer (set_to 8))
        world6)
unfolding V6.serve_all V6.serve
do_bench6_beside-Ends_example =
    do_bench6_beside-Ends env sample_kernel sample_printer sample_log insertion_sorter false tree 14
      (set_to 8) (replies_to 8) world6 (world6_at 8) world6-IsReady refl (omega arith) (omega arith)
      (omega arith) heap-IsTree (omega arith) (omega arith) refl

do_bench6_beside-bad_write_example :
    do_bench6_beside env sample_printer sample_log insertion_sorter 14 false
      (serving sample_kernel sample_printer (set_to 50))
      world6
    ≡ fault bad_write
unfolding V6.serve_all V6.serve
do_bench6_beside-bad_write_example =
    do_bench6_beside-bad_write env (λ n f. refl) sample_kernel sample_printer sample_log
      insertion_sorter false 14 (set_to 50) (replies_to 50) world6 (world6_at 50) world6-IsReady
      refl refl (unfold results_room plan6 in omega arith)
      (unfold results_room plan6 in omega arith) refl (ground arith)

-- What `dst->error` reads behind a release.
abbrev stale : ℕ → Option ℤ
stale n = some (pos n)

abbrev older_world : World Old.Config
older_world = record {
  config = record Old.defaults { loop_count = 10 };
  locked = false;
  references = 0;
}

older_loop-eq-measure_all_example :
    let p = plan6 env 10 1 (widen older_world.config) in
    measure_all env p (start6 env p 3)
    ≡ older_loop env stale (older_plan env stale 10 older_world.config) 1000000 (start6 env p 3)
older_loop-eq-measure_all_example =
    older_loop-eq-measure_all env stale 10 older_world.config
      (start6 env (plan6 env 10 1 (widen older_world.config)) 3)

abbrev older_at : ℕ → World Old.Config
older_at n = record older_world { config = record older_world.config { loop_count = n } }

abbrev set_older_to : ℕ → List Old.Request
set_older_to n = Old.write_request Old.loop_count (n ∷ []) 2 ∷ []

older_bench_beside-Ends_example :
    let p = older_plan env stale 10 (older_at 9).config in
    let run =
      older_bench_beside env stale sample_printer sample_log insertion_sorter 14 true
        (serving_older sample_kernel sample_printer (set_older_to 9))
        older_world in
    Ends
      (HasFewOlder env stale p)
      (λ r. Fits sample_printer r.0 × ((r.1 ≡ older_world) ⊎ (r.1 ≡ older_at 9)))
      run
    ⊎ (HasFreed env stale p.flow older_world.config.warmup_count × (run ≡ fault use_after_free))
unfolding Old.serve_all Old.serve
older_bench_beside-Ends_example =
    older_bench_beside-Ends env stale sample_kernel sample_printer sample_log insertion_sorter true
      tree 14 (set_older_to 9) (V6.written (bytes 2) ∷ []) older_world (older_at 9)
      (record { free = refl; valid = ground arith }) refl (omega arith) (omega arith) (omega arith)
      heap-IsTree (omega arith) (omega arith) refl

-- Twenty-five results of a hundred cycles each, for one address.
abbrev long_plan : Plan6
long_plan = record (plan_of 25 1) { room = 25; max_loop_count = 30; scan = false }

abbrev measured : Run6
measured = record (start6 env long_plan 3) {
  results = replicate 25 100;
  average = 2500;
  lookups = 28;
  readings = 50;
}

measured_lem : measure_all env long_plan (start6 env long_plan 3) ≡ ok measured
unfolding measure_all
measured_lem = refl

finish6-IsReport6_example :
    Returns
      (IsReport6 Printk.summary sample_printer sample_log
        (replicate 25 100)
        (record { avgdepth = 10; maxdepth = 2 })
        254
        1
        true)
      (finish6 env sample_printer sample_log insertion_sorter 14 true long_plan measured)
finish6-IsReport6_example =
    finish6-IsReport6 env sample_printer sample_log insertion_sorter tree 14 3 true long_plan
      measured measured_lem (omega arith) (omega arith) (ground arith) (omega arith) heap-IsTree
      (omega arith) (omega arith) refl

-- A run with room for thirty results, of which another caller leaves twenty-five to measure.
abbrev wide_at : ℕ → World V6.Config
wide_at n = record world6 {
  config = record world6.config { warmup_count = 3; loop_count = n; max_loop_count = 40 };
}

wide_values : measured6 env (plan_beside env (wide_at 30) (wide_at 25)) 3 ≡ replicate 25 100
unfolding measured6 plan6
wide_values = refl

do_bench6_beside-IsReport6_example :
    Returns
      (λ r.
        IsReport6 Printk.summary sample_printer sample_log
          (measured6 env (plan_beside env (wide_at 30) (wide_at 25)) 3)
          (depths_of tree)
          254
          1
          true
          r.0
        × (r.1 ≡ wide_at 25))
      (do_bench6_beside env sample_printer sample_log insertion_sorter 14 true
        (serving sample_kernel sample_printer (set_to 25))
        (wide_at 30))
unfolding V6.serve_all V6.serve
do_bench6_beside-IsReport6_example =
    do_bench6_beside-IsReport6 env sample_kernel sample_printer sample_log insertion_sorter true
      tree 14 (set_to 25) (replies_to 25) (wide_at 30) (wide_at 25)
      (record { free = refl; valid = ground arith }) refl (omega arith) (omega arith) (omega arith)
      heap-IsTree (omega arith) (omega arith) refl (unfold lacks_memory in refl)
      (unfold warmup6 in refl) (rw wide_values (omega arith)) (rw wide_values (ground arith))
      (rw wide_values (omega arith))

run_show-IsShorter_example :
    IsShorter
      (run_show env sample_printer sample_log insertion_sorter 14
        (serving sample_kernel sample_printer (set_to 25))
        (wide_at 30))
      (run_verbose_show env sample_printer sample_log insertion_sorter 14
        (serving sample_kernel sample_printer (set_to 25))
        (wide_at 30))
run_show-IsShorter_example =
    run_show-IsShorter sample_printer sample_log insertion_sorter env 14
      (serving sample_kernel sample_printer (set_to 25)) (wide_at 30)
