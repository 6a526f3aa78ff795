-- ===== src/Lifecycle/Modules.antt =====
-- The three modules of the repository, as what `kbench_init` brings to life.
use network_lab.Common.{
  ℕ, ℤ, Option, Bool, true, sym, subst, IfOk, ◌>>=◌, ◌≡◌, false, Exec, ok, fault, Returns,
  Returns-mono, arith,
}
use network_lab.Printk.{Printer, Page}
use network_lab.Sysfs.{Kernel, World, Sys, pure}
use network_lab.Sysfs.V4
use network_lab.Sysfs.V4.Laws as Laws4
use network_lab.Sysfs.V6
use network_lab.Sysfs.V6.Laws as Laws6
use network_lab.Sysfs.Old
use network_lab.Sysfs.Old.Simulation.{widen, widen_world, widen_request, widen_run, serve-widen}
use network_lab.Bench4.{Env}
use network_lab.Bench4 as Bench4
use network_lab.Bench6.{Env6}
use network_lab.Bench6.Whole as Whole
use network_lab.Older as Older
use network_lab.Lifecycle.{Service}
use network_lab.Lifecycle.Reach.{IsService}
use network_lab.Lifecycle.Runs.{Leaves, do_bench-Leaves, do_bench6-Leaves, older_bench-Leaves}
use network_lab.Sorting.{Sorter}
use network_lab.Display.{Log}

-- What a request leaves behind.
abbrev pub Kept : {V A : Type 0} → (V → Type 0) → A × World V → Type 0
Kept IsValid a = (a.1.locked ≡ false) × IsValid a.1.config

pub defaults4-IsValid : V4.IsValid V4.defaults
defaults4-IsValid = ground arith

pub defaults6-IsValid : V6.IsValid V6.defaults
defaults6-IsValid = ground arith

module _ (k : Kernel) (p : Printer) where
  pub serve4-Kept :
      (r : V4.Request) (w : World V4.Config)
      → w.locked ≡ false
      → V4.IsValid w.config
      → Returns (Kept V4.IsValid) (V4.serve k p r w)
  serve4-Kept r w free valid =
      Returns-mono (λ a. Laws4.IsReady a.1) (Kept V4.IsValid) (V4.serve k p r w)
        (Laws4.serve-IsReady k p r w (record { free = free; valid = valid }))
        (λ a i. (i.free, i.valid))

  pub serve6-Kept :
      (r : V6.Request) (w : World V6.Config)
      → w.locked ≡ false
      → V6.IsValid w.config
      → Returns (Kept V6.IsValid) (V6.serve k p r w)
  serve6-Kept r w free valid =
      Returns-mono (λ a. Laws6.IsReady a.1) (Kept V6.IsValid) (V6.serve k p r w)
        (Laws6.serve-IsReady k p r w (record { free = free; valid = valid }))
        (λ a i. (i.free, i.valid))

  -- What a widened run returns is what the run returns, widened.
  narrow :
      {A : Type 0} (m : Exec (A × World Old.Config))
      → Returns (Kept V6.IsValid) (widen_run m)
      → Returns (Kept (λ c. V6.IsValid (widen c))) m
  narrow (ok (a, w)) h = h
  narrow (fault f) h = h

  -- By the simulation, what holds of the newer module holds of the older one.
  pub serve_old-Kept :
      (r : Old.Request) (w : World Old.Config)
      → w.locked ≡ false
      → V6.IsValid (widen w.config)
      → Returns (Kept (λ c. V6.IsValid (widen c))) (Old.serve k p r w)
  serve_old-Kept r w free valid =
      narrow (Old.serve k p r w)
        (rw (serve-widen k p r w) at (serve6-Kept (widen_request r) (widen_world w) free valid))

-- A request to a file of a module: an attribute that it shows and stores, or one of the two files that
-- run the benchmark, with what that run meets.
pub data Access (A E : Type 0) : Type 0 where
  attribute : A → Access A E
  run : E → Access A E
  run_verbose : E → Access A E

abbrev pub is_run : {A E : Type 0} → Access A E → Bool
is_run (attribute r) = false
is_run (run e) = true
is_run (run_verbose e) = true

pub data Answer (A : Type 0) : Type 0 where
  replied : A → Answer A
  printed : Page → Answer A

abbrev reply_of : {A V : Type 0} → Exec (A × World V) → Exec (Answer A × World V)
reply_of m = m >>= λ a. ok (replied a.0, a.1)

abbrev page_of : {A V : Type 0} → Exec (Page × World V) → Exec (Answer A × World V)
page_of m = m >>= λ a. ok (printed a.0, a.1)

reply_of-IfOk :
    {A V : Type 0} (IsValid : V → Type 0) (m : Exec (A × World V))
    → Returns (Kept IsValid) m
    → IfOk (Kept IsValid) (reply_of m)
reply_of-IfOk IsValid (ok a) h = h
reply_of-IfOk IsValid (fault f) h = tt

reply_of-Returns :
    {A V : Type 0} (IsValid : V → Type 0) (m : Exec (A × World V))
    → Returns (Kept IsValid) m
    → Returns (λ a. Unit {0}) (reply_of m)
reply_of-Returns IsValid (ok a) h = tt
reply_of-Returns IsValid (fault f) h = absurd h

page_of-IfOk :
    (A : Type 0) {V : Type 0} (IsValid : V → Type 0) (c : V) (m : Exec (Page × World V))
    → IfOk (Leaves c) m
    → IsValid c
    → IfOk (Kept {A = Answer A} IsValid) (page_of m)
page_of-IfOk A IsValid c (ok a) h valid = (h.0, subst IsValid (sym h.1) valid)
page_of-IfOk A IsValid c (fault f) h valid = tt

-- What a run of the IPv6 modules meets; `fuel` bounds the walk over the routes.
pub record Meeting6 : Type 0 where
  pub env : Env6
  pub fuel : ℕ

pub record MeetingOlder : Type 0 where
  pub env : Env6
  pub released : ℕ → Option ℤ
  pub fuel : ℕ

pub data Module : Type 0 where
  ipv4 ipv6 older_ipv6 : Module

module _ (k : Kernel) (p : Printer) (log : Log) (sorter : Sorter) where
  -- A run that starts while no other caller is there.
  abbrev serve4 : Access V4.Request Env → Sys V4.Config (Answer V4.Reply)
  serve4 (attribute r) w = reply_of (V4.serve k p r w)
  serve4 (run env) w = page_of (Bench4.run_show env p log sorter w)
  serve4 (run_verbose env) w = page_of (Bench4.run_verbose_show env p log sorter w)

  abbrev serve6 : Access V6.Request Meeting6 → Sys V6.Config (Answer V6.Reply)
  serve6 (attribute r) w = reply_of (V6.serve k p r w)
  serve6 (run m) w = page_of (Whole.run_show m.env p log sorter m.fuel (pure tt) w)
  serve6 (run_verbose m) w = page_of (Whole.run_verbose_show m.env p log sorter m.fuel (pure tt) w)

  abbrev serve_older : Access Old.Request MeetingOlder → Sys Old.Config (Answer V6.Reply)
  serve_older (attribute r) w = reply_of (Old.serve k p r w)
  serve_older (run m) w = page_of (Older.run_show m.env m.released p log sorter m.fuel (pure tt) w)
  serve_older (run_verbose m) w =
      page_of (Older.run_verbose_show m.env m.released p log sorter m.fuel (pure tt) w)

  abbrev pub service_of : Module → Service
  service_of ipv4 = record {
    Variables = V4.Config;
    Request = Access V4.Request Env;
    Reply = Answer V4.Reply;
    initial = V4.defaults;
    serve = serve4;
    is_run = is_run;
  }
  service_of ipv6 = record {
    Variables = V6.Config;
    Request = Access V6.Request Meeting6;
    Reply = Answer V6.Reply;
    initial = V6.defaults;
    serve = serve6;
    is_run = is_run;
  }
  service_of older_ipv6 = record {
    Variables = Old.Config;
    Request = Access Old.Request MeetingOlder;
    Reply = Answer V6.Reply;
    initial = Old.defaults;
    serve = serve_older;
    is_run = is_run;
  }

  -- The older module's variables are valid where they are for the newer one with a batch of 1.
  abbrev pub IsValidFor : (m : Module) → (service_of m).Variables → Type 0
  IsValidFor ipv4 c = V4.IsValid c
  IsValidFor ipv6 c = V6.IsValid c
  IsValidFor older_ipv6 c = V6.IsValid (widen c)

  serve4-IfOk :
      (r : Access V4.Request Env) (w : World V4.Config)
      → w.locked ≡ false
      → V4.IsValid w.config
      → IfOk (Kept V4.IsValid) (serve4 r w)
  unfolding Bench4.run_show Bench4.run_verbose_show
  serve4-IfOk (attribute r) w free valid =
      reply_of-IfOk V4.IsValid (V4.serve k p r w) (serve4-Kept k p r w free valid)
  serve4-IfOk (run m) w free valid =
      page_of-IfOk V4.Reply V4.IsValid w.config _ (do_bench-Leaves p log sorter false m w free)
        valid
  serve4-IfOk (run_verbose m) w free valid =
      page_of-IfOk V4.Reply V4.IsValid w.config _ (do_bench-Leaves p log sorter true m w free) valid

  serve4-Returns :
      (r : Access V4.Request Env) (w : World V4.Config)
      → is_run r ≡ false
      → w.locked ≡ false
      → V4.IsValid w.config
      → Returns (λ a. Unit {0}) (serve4 r w)
  serve4-Returns (attribute r) w quick free valid =
      reply_of-Returns V4.IsValid (V4.serve k p r w) (serve4-Kept k p r w free valid)
  serve4-Returns (run m) w quick free valid = absurd (cc)
  serve4-Returns (run_verbose m) w quick free valid = absurd (cc)

  serve6-IfOk :
      (r : Access V6.Request Meeting6) (w : World V6.Config)
      → w.locked ≡ false
      → V6.IsValid w.config
      → IfOk (Kept V6.IsValid) (serve6 r w)
  unfolding Whole.run_show Whole.run_verbose_show
  serve6-IfOk (attribute r) w free valid =
      reply_of-IfOk V6.IsValid (V6.serve k p r w) (serve6-Kept k p r w free valid)
  serve6-IfOk (run m) w free valid =
      page_of-IfOk V6.Reply V6.IsValid w.config _
        (do_bench6-Leaves p log sorter false m.env m.fuel w free) valid
  serve6-IfOk (run_verbose m) w free valid =
      page_of-IfOk V6.Reply V6.IsValid w.config _
        (do_bench6-Leaves p log sorter true m.env m.fuel w free) valid

  serve6-Returns :
      (r : Access V6.Request Meeting6) (w : World V6.Config)
      → is_run r ≡ false
      → w.locked ≡ false
      → V6.IsValid w.config
      → Returns (λ a. Unit {0}) (serve6 r w)
  serve6-Returns (attribute r) w quick free valid =
      reply_of-Returns V6.IsValid (V6.serve k p r w) (serve6-Kept k p r w free valid)
  serve6-Returns (run m) w quick free valid = absurd (cc)
  serve6-Returns (run_verbose m) w quick free valid = absurd (cc)

  serve_older-IfOk :
      (r : Access Old.Request MeetingOlder) (w : World Old.Config)
      → w.locked ≡ false
      → V6.IsValid (widen w.config)
      → IfOk (Kept (λ c. V6.IsValid (widen c))) (serve_older r w)
  unfolding Older.run_show Older.run_verbose_show
  serve_older-IfOk (attribute r) w free valid =
      reply_of-IfOk (λ c. V6.IsValid (widen c)) (Old.serve k p r w)
        (serve_old-Kept k p r w free valid)
  serve_older-IfOk (run m) w free valid =
      page_of-IfOk V6.Reply (λ c. V6.IsValid (widen c)) w.config _
        (older_bench-Leaves p log sorter false m.env m.fuel m.released w free) valid
  serve_older-IfOk (run_verbose m) w free valid =
      page_of-IfOk V6.Reply (λ c. V6.IsValid (widen c)) w.config _
        (older_bench-Leaves p log sorter true m.env m.fuel m.released w free) valid

  serve_older-Returns :
      (r : Access Old.Request MeetingOlder) (w : World Old.Config)
      → is_run r ≡ false
      → w.locked ≡ false
      → V6.IsValid (widen w.config)
      → Returns (λ a. Unit {0}) (serve_older r w)
  serve_older-Returns (attribute r) w quick free valid =
      reply_of-Returns (λ c. V6.IsValid (widen c)) (Old.serve k p r w)
        (serve_old-Kept k p r w free valid)
  serve_older-Returns (run m) w quick free valid = absurd (cc)
  serve_older-Returns (run_verbose m) w quick free valid = absurd (cc)

  pub service_of-IsService : (m : Module) → IsService (service_of m) (IsValidFor m)
  service_of-IsService ipv4 = record {
    initial-IsValid = defaults4-IsValid;
    run-IsValid = serve4-IfOk;
    serve-Returns = serve4-Returns;
  }
  service_of-IsService ipv6 = record {
    initial-IsValid = defaults6-IsValid;
    run-IsValid = serve6-IfOk;
    serve-Returns = serve6-Returns;
  }
  service_of-IsService older_ipv6 = record {
    initial-IsValid = defaults6-IsValid;
    run-IsValid = serve_older-IfOk;
    serve-Returns = serve_older-Returns;
  }
