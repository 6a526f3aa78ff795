-- ===== src/Examples/Callers.antt =====
-- Callers of the IPv4 and of the IPv6 module side by side.
use network_lab.Common.{◌≡◌, refl, false, [], ◌∷◌, map, Returns, update}
use network_lab.Sysfs.V4 as V4
use network_lab.Sysfs.V6 as V6
use network_lab.Threads.{
  System, Handlers, Moves, begin, ask, refuse, lock, unlock, waiting, inside, still, after,
}
use network_lab.Threads.Replay.{Gives}
use network_lab.Threads.Requests4.{handlers4, takes_mutex, Moves-serve_all, requests-granted}
use network_lab.Threads.Requests6 as Requests6
use network_lab.Threads.Requests6.{handlers6, Moves-serve_all_v6}
use network_lab.Examples.Values.{sample_printer, sample_kernel}

abbrev handlers : Handlers V4.Config V4.Request V4.Reply
handlers = handlers4 sample_kernel sample_printer

abbrev set_loop : V4.Request
set_loop = V4.write_request V4.loop_count (8 ∷ []) 2

abbrev get_loop : V4.Request
get_loop = V4.read_request V4.loop_count

-- Caller 0 is behind the mutex, caller 1 waits for it, and caller 2 was refused.
half_way :
    (s : System V4.Config V4.Request V4.Reply) × Moves handlers (begin handlers V4.defaults) s
    × (s.pc 1 ≡ waiting get_loop)
    × (s.pc 0 ≡ inside set_loop V4.defaults)
unfolding update takes_mutex
half_way = (
  _,
  after
      (after (after (after still (ask 0 set_loop refl refl)) (ask 1 get_loop refl refl))
        (lock 0 set_loop refl refl))
      (refuse 2 (V4.write_request V4.loop_count (0 ∷ []) 2) refl refl),
  refl,
  refl,
)

Moves-serve_all_example : Returns (Gives (map (λ e. e.1) half_way.0.history, half_way.0.config)) (
    V4.serve_all sample_kernel sample_printer
      (map (λ e. e.0) half_way.0.history)
      (record { config = V4.defaults; locked = false; references = 5 }))
Moves-serve_all_example =
    Moves-serve_all sample_kernel sample_printer V4.defaults 5 half_way.0 half_way.1

requests-granted_example :
    (t : System V4.Config V4.Request V4.Reply) × Moves handlers half_way.0 t
    × (t.pc 1 ≡ inside get_loop t.config)
requests-granted_example =
    requests-granted sample_kernel sample_printer V4.defaults half_way.0 1 get_loop half_way.1
      half_way.2

abbrev handlers_v6 : Handlers V6.Config V6.Request V6.Reply
handlers_v6 = handlers6 sample_kernel sample_printer

abbrev set_most : V6.Request
set_most = V6.write_request V6.max_loop_count (9 ∷ []) 2

-- Caller 1 comes and asks while caller 0 is behind the mutex, and is served behind it.
both_served :
    (s : System V6.Config V6.Request V6.Reply) × Moves handlers_v6 (begin handlers_v6 V6.defaults) s
unfolding update Requests6.takes_mutex
both_served = (
  _,
  after
      (after
        (after
          (after (after (after still (ask 0 set_most refl refl)) (lock 0 set_most refl refl))
            (ask 1 (V6.read_request V6.max_loop_count) refl refl))
          (unlock 0 set_most V6.defaults refl))
        (lock 1 (V6.read_request V6.max_loop_count) refl refl))
      (unlock 1 (V6.read_request V6.max_loop_count) _ refl),
)

Moves-serve_all_v6_example :
    Returns (Gives (map (λ e. e.1) both_served.0.history, both_served.0.config)) (
      V6.serve_all sample_kernel sample_printer
        (map (λ e. e.0) both_served.0.history)
        (record { config = V6.defaults; locked = false; references = 0 }))
Moves-serve_all_v6_example =
    Moves-serve_all_v6 sample_kernel sample_printer V6.defaults 0 both_served.0 both_served.1
