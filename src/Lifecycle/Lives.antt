-- ===== src/Lifecycle/Lives.antt =====
-- The lives of the three modules, with their runs.
use network_lab.Common.{ℕ, ◌≡◌, false, none}
use network_lab.Sorting.{Sorter}
use network_lab.Printk.{Printer}
use network_lab.Display.{Log}
use network_lab.Sysfs.{Kernel}
use network_lab.Lifecycle.{Kobjects, kbench_init, Service, StateOf, Life}
use network_lab.Lifecycle.Reach.{
  IsKobjects, at_rest, IsSound, IsAnswering, reached-IsSound, reached-answers,
}
use network_lab.Lifecycle.Modules.{Module, service_of, IsValidFor, service_of-IsService}

module _ {S : Type 0} (ko : Kobjects S) (laws : IsKobjects ko) (k : Kernel) (p : Printer)
    (log : Log) (sorter : Sorter) (m : Module) (before : S) where
  abbrev service : Service
  service = service_of k p log sorter m

  abbrev IsValid : service.Variables → Type 0
  IsValid = IsValidFor k p log sorter m

  -- For each of the three modules, over a kernel whose calls change nothing where they are refused,
  -- and whose removals undo what they remove, and in every state that loads, refused loads,
  -- requests, runs of the benchmark and removals of the module lead to: while the module is not
  -- loaded, the kernel's state is the one before the first load; while it is loaded, its files are
  -- there, `kbench_exit` would lead back to that state, its mutex is free, and its variables are
  -- valid (those of the older IPv6 module for the newer one, with a batch of 1); and where a
  -- request has ended in a fault, it was a read of `run` or `run_verbose`. A run may meet a machine
  -- of its own each time, and no other caller between its allocations and its mutex.
  pub Life-IsSound :
      (s : StateOf S service)
      → Life ko service (at_rest ko laws service IsValid before) s
      → IsSound ko laws service IsValid before s
  Life-IsSound s life =
      reached-IsSound ko laws service IsValid before (service_of-IsService k p log sorter m) s life

  -- For each of the three modules, over a kernel whose calls change nothing where they are refused,
  -- and whose removals undo what they remove, and in every state that loads, refused loads,
  -- requests, runs of the benchmark and removals of the module lead to, each request to an
  -- attribute other than `run` and `run_verbose` can be answered, unless a run has ended in a
  -- fault: as the next event by a loaded module, and behind a load by one that is not, where one
  -- turn of the kernel grants the load before any other event.
  pub Life-answered :
      (turn : ℕ) (s' : S) (s : StateOf S service) (request : service.Request)
      → service.is_run request ≡ false
      → kbench_init ko turn before ≡ (none, s')
      → Life ko service (at_rest ko laws service IsValid before) s
      → IsAnswering ko laws service IsValid before s' s request
  Life-answered turn s' s request quick e life =
      reached-answers ko laws service IsValid before (service_of-IsService k p log sorter m) turn s'
        e s.kernel s.stage request quick (Life-IsSound s life)
