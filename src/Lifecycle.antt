-- ===== src/Lifecycle.antt =====
-- `kbench_init` and `kbench_exit`, which the three modules share, and the life of a module between
-- them: its attributes are there for user space from the one to the other.
pub mod Reach
pub mod Runs
pub mod Modules
pub mod Lives
use network_lab.Common.{
  ℕ, zero, suc, ◌+◌, ◌-◌, ◌≡◌, Bool, true, false, not, if◌then◌else◌, Option, none, some, Exec, ok,
  Fault, fault,
}
use network_lab.Sysfs.{World, Sys, Errno, enomem}

-- The kernel's objects and sysfs, which the repository does not hold, over their own state `S`. The
-- answers may differ from turn to turn; no error of `sysfs_create_group` stands for its 0.
pub record Kobjects (S : Type 0) : Type 0 where
  pub kobject_create_and_add : (turn : ℕ) → S → Bool × S
  pub sysfs_create_group : (turn : ℕ) → S → Option Errno × S
  pub sysfs_remove_group : S → S
  pub kobject_put : S → S
  -- whether user space finds the files of the group
  pub has_files : S → Bool

module _ {S : Type 0} (k : Kobjects S) where
  -- From behind `sysfs_create_group`.
  unfoldable pub conclude_init : Option Errno → S → Option Errno × S
  conclude_init (some e) s = (some e, k.kobject_put s)
  conclude_init none s = (none, s)

  unfoldable pub kbench_init : (turn : ℕ) → S → Option Errno × S
  unfolding conclude_init
  kbench_init turn s =
      let object = k.kobject_create_and_add turn s in
      let group = k.sysfs_create_group turn object.1 in
      if not object.0 then (some enomem, object.1) else conclude_init group.0 group.1

  unfoldable pub kbench_exit : S → S
  kbench_exit s = k.kobject_put (k.sysfs_remove_group s)

-- What a module brings along: its variables, and the requests that its attributes serve; some of
-- these run the benchmark.
pub record Service : Type 1 where
  pub Variables : Type 0
  pub Request : Type 0
  pub Reply : Type 0
  pub initial : Variables
  pub serve : Request → Sys Variables Reply
  pub is_run : Request → Bool

-- A fault ends the life, and the request that it came from is kept.
pub data Stage (V R : Type 0) : Type 0 where
  unloaded : Stage V R
  loaded : World V → Stage V R
  crashed : R → Fault → Stage V R

pub record State (S V R : Type 0) : Type 0 where
  pub kernel : S
  pub stage : Stage V R

-- The states of a module, over those of the kernel.
abbrev pub StateOf : Type 0 → Service → Type 0
StateOf S service = State S service.Variables service.Request

-- The variables of a module that was loaded right now.
abbrev pub fresh : (service : Service) → World service.Variables
fresh service = record { config = service.initial; locked = false; references = 0 }

-- One event in the life of a module: a load, which may be refused, a request, which reaches the module
-- through a file of its group, and a removal.
pub data Step {S : Type 0} (k : Kobjects S) (service : Service)
    : StateOf S service → StateOf S service → Type 0 where
  insert :
      (turn : ℕ) (s s' : S)
      → kbench_init k turn s ≡ (none, s')
      → Step k service
          (record { kernel = s; stage = unloaded })
          (record { kernel = s'; stage = loaded (fresh service) })
  refuse :
      (turn : ℕ) (e : Errno) (s s' : S)
      → kbench_init k turn s ≡ (some e, s')
      → Step k service
          (record { kernel = s; stage = unloaded })
          (record { kernel = s'; stage = unloaded })
  answer :
      (request : service.Request) (reply : service.Reply) (s : S) (w w' : World service.Variables)
      → k.has_files s ≡ true
      → service.serve request w ≡ ok (reply, w')
      → Step k service
          (record { kernel = s; stage = loaded w })
          (record { kernel = s; stage = loaded w' })
  crash :
      (request : service.Request) (f : Fault) (s : S) (w : World service.Variables)
      → k.has_files s ≡ true
      → service.serve request w ≡ fault f
      → Step k service
          (record { kernel = s; stage = loaded w })
          (record { kernel = s; stage = crashed request f })
  remove :
      (s : S) (w : World service.Variables)
      → Step k service
          (record { kernel = s; stage = loaded w })
          (record { kernel = kbench_exit k s; stage = unloaded })

-- Some events, one behind the other.
pub data Life {S : Type 0} (k : Kobjects S) (service : Service) (s : StateOf S service)
    : StateOf S service → Type 0 where
  here : Life k service s s
  later : {t u : StateOf S service} → Life k service s t → Step k service t u → Life k service s u
