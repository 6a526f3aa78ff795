-- ===== src/Examples/Modules.antt =====
-- The life of the modules, and the older one beside the newer.
use network_lab.Common.{
  ℕ, ◌+◌, ◌-◌, ◌==◌, Bool, false, if◌then◌else◌, arith, ◌≡◌, refl, List, [], ◌∷◌, map, none, some,
  true,
}
use network_lab.Sysfs.{World, enomem, einval, modify, mutex_lock, get_config, mutex_unlock}
use network_lab.Sysfs.V4 as V4
use network_lab.Sysfs.V6 as V6
use network_lab.Sysfs.Old as Old
use network_lab.Sysfs.Old.Simulation.{widen_world, widen_request, widen_run, serve_all-widen}
use network_lab.Sorting.Insertion.{insertion_sorter}
use network_lab.Printk.{print, blank, no_memory}
use network_lab.Bench4.{Env, run_show, do_bench}
use network_lab.Lifecycle.{
  Service, StateOf, Life, Kobjects, kbench_init, loaded, fresh, here, later, refuse, insert, answer,
}
use network_lab.Lifecycle.Reach.{IsKobjects, at_rest, IsSound, IsAnswering}
use network_lab.Lifecycle.Modules.{service_of, IsValidFor, ipv4, attribute, run, printed}
use network_lab.Lifecycle.Lives.{Life-IsSound, Life-answered}
use network_lab.Examples.Values.{sample_printer, sample_kernel, sample_log, sample_env}

abbrev session : List Old.Request
session =
    Old.write_request Old.loop_count (8 ∷ []) 2
    ∷ Old.write_request Old.flow_dst_ipaddr_s (1 ∷ 2 ∷ 3 ∷ 4 ∷ []) 5
    ∷ Old.read_request Old.flow_iif
    ∷ []

abbrev idle : World Old.Config
idle = record { config = Old.defaults; locked = false; references = 0 }

serve_all-widen_example :
    V6.serve_all sample_kernel sample_printer (map widen_request session) (widen_world idle)
    ≡ widen_run (Old.serve_all sample_kernel sample_printer session idle)
serve_all-widen_example = serve_all-widen sample_kernel sample_printer session idle

abbrev ipv4_service : Service
ipv4_service = service_of sample_kernel sample_printer sample_log insertion_sorter ipv4

-- A kernel that holds the references on the object and whether its group is there; it refuses the
-- group in the first turn.
abbrev kobjects : Kobjects (ℕ × Bool)
kobjects = record {
  kobject_create_and_add = λ turn s. (true, (s.0 + 1, s.1));
  sysfs_create_group = λ turn s.
      if s.1 then (some einval, s) else if turn == 0 then (some enomem, s) else (none, (s.0, true));
  sysfs_remove_group = λ s. (s.0, false);
  kobject_put = λ s. (s.0 - 1, s.1);
  has_files = λ s. s.1;
}

kobjects-IsKobjects : IsKobjects kobjects
kobjects-IsKobjects = record {
  object_refused = λ turn s h. ground arith;
  group_refused = λ turn e s h. ground arith;
  group_has_files = λ turn s h. ground arith;
  group_removed = λ turn s h. ground arith;
  object_put = λ turn s h. ground arith;
}

abbrev IsValidIpv4 : V4.Config → Type 0
IsValidIpv4 = IsValidFor sample_kernel sample_printer sample_log insertion_sorter ipv4

abbrev running : StateOf (ℕ × Bool) ipv4_service
running = record { kernel = (1, true); stage = loaded (fresh ipv4_service) }

abbrev rest : StateOf (ℕ × Bool) ipv4_service
rest = at_rest kobjects kobjects-IsKobjects ipv4_service IsValidIpv4 (0, false)

-- A machine whose memory is used up.
abbrev full_env : Env
full_env = record sample_env { results_allocated = false }

-- A load that is refused, one that is not, and a run that says that there is no memory.
two_loads : Life kobjects ipv4_service rest running
unfolding kbench_init run_show do_bench modify mutex_lock get_config mutex_unlock
two_loads =
    later
      (later (later here (refuse 0 enomem (0, false) (0, false) refl))
        (insert 1 (0, false) (1, true) refl))
      (answer (run full_env) (printed (print sample_printer no_memory blank)) (1, true)
        (fresh ipv4_service) (fresh ipv4_service) refl refl)

Life-IsSound_example :
    IsSound kobjects kobjects-IsKobjects ipv4_service IsValidIpv4 (0, false) running
Life-IsSound_example =
    Life-IsSound kobjects kobjects-IsKobjects sample_kernel sample_printer sample_log
      insertion_sorter ipv4 (0, false) running two_loads

Life-answered_example :
    IsAnswering kobjects kobjects-IsKobjects ipv4_service IsValidIpv4
      (0, false)
      (1, true)
      running
      (attribute (V4.read_request V4.loop_count))
unfolding kbench_init
Life-answered_example =
    Life-answered kobjects kobjects-IsKobjects sample_kernel sample_printer sample_log
      insertion_sorter ipv4 (0, false) 1 (1, true) running
      (attribute (V4.read_request V4.loop_count)) refl refl two_loads
