-- ===== src/Threads/Requests6.antt =====
-- The requests of the IPv6 module by callers side by side.
use network_lab.Common.{ℕ, ◌≡◌, refl, Bool, true, false, map, Returns, arith}
use network_lab.Printk.{Printer, Text}
use network_lab.Sysfs.{Kernel, World, einval, errno}
use network_lab.Sysfs.V6.{
  Config, Attribute, Request, Reply, serve, serve_all, defaults, read_request, write_request,
  written, read_attribute, write_attribute,
}
use network_lab.Sysfs.V6 as V6
use network_lab.Threads.{Handlers, System, Moves, begin}
use network_lab.Threads.Replay.{world_of, stops, outcome, Gives, IsServing, Moves-replay}

module _ (k : Kernel) (p : Printer) where
  unfoldable pub takes_mutex : Request → Bool
  unfolding serve
  takes_mutex r = stops (serve k p r (world_of defaults true))

  -- No request ends in a fault, for which the error would stand.
  unfoldable pub effect : Request → Config → Reply × Config
  unfolding serve
  effect r c = outcome (written (errno einval)) c (serve k p r (world_of c false))

  read-effect :
      (a : Attribute) (w : World Config)
      → w.locked ≡ false
      → Returns (Gives (effect (read_request a) w.config)) (serve k p (read_request a) w)
  unfolding serve effect read_attribute
  read-effect V6.warmup_count w free = ground arith
  read-effect V6.loop_count w free = ground arith
  read-effect V6.max_loop_count w free = ground arith
  read-effect V6.batch_count w free = ground arith
  read-effect V6.flow_oif w free = ground arith
  read-effect V6.flow_iif w free = ground arith
  read-effect V6.flow_label w free = ground arith
  read-effect V6.flow_mark w free = ground arith
  read-effect V6.flow_dst_ipaddr_s w free = ground arith
  read-effect V6.flow_dst_ipaddr_e w free = ground arith
  read-effect V6.flow_src_ipaddr w free = ground arith

  write-effect :
      (a : Attribute) (buf : Text) (count : ℕ) (w : World Config)
      → w.locked ≡ false
      → Returns
          (Gives (effect (write_request a buf count) w.config))
          (serve k p (write_request a buf count) w)
  unfolding serve effect write_attribute
  write-effect V6.warmup_count buf count w free = ground arith
  write-effect V6.loop_count buf count w free = ground arith
  write-effect V6.max_loop_count buf count w free = ground arith
  write-effect V6.batch_count buf count w free = ground arith
  write-effect V6.flow_oif buf count w free = ground arith
  write-effect V6.flow_iif buf count w free = ground arith
  write-effect V6.flow_label buf count w free = ground arith
  write-effect V6.flow_mark buf count w free = ground arith
  write-effect V6.flow_dst_ipaddr_s buf count w free = ground arith
  write-effect V6.flow_dst_ipaddr_e buf count w free = ground arith
  write-effect V6.flow_src_ipaddr buf count w free = ground arith

  pub serve-effect :
      (r : Request) (w : World Config)
      → w.locked ≡ false
      → Returns (Gives (effect r w.config)) (serve k p r w)
  serve-effect (read_request a) w free = read-effect a w free
  serve-effect (write_request a buf count) w free = write-effect a buf count w free

  write-without_mutex :
      (a : Attribute) (buf : Text) (count : ℕ) (c : Config)
      → takes_mutex (write_request a buf count) ≡ false
      → (effect (write_request a buf count) c).1 ≡ c
  unfolding serve effect takes_mutex write_attribute
  write-without_mutex V6.warmup_count buf count c none = ground arith
  write-without_mutex V6.loop_count buf count c none = ground arith
  write-without_mutex V6.max_loop_count buf count c none = ground arith
  write-without_mutex V6.batch_count buf count c none = ground arith
  write-without_mutex V6.flow_oif buf count c none = ground arith
  write-without_mutex V6.flow_iif buf count c none = ground arith
  write-without_mutex V6.flow_label buf count c none = ground arith
  write-without_mutex V6.flow_mark buf count c none = ground arith
  write-without_mutex V6.flow_dst_ipaddr_s buf count c none = ground arith
  write-without_mutex V6.flow_dst_ipaddr_e buf count c none = ground arith
  write-without_mutex V6.flow_src_ipaddr buf count c none = ground arith

  read-without_mutex :
      (a : Attribute) (c : Config)
      → takes_mutex (read_request a) ≡ false
      → (effect (read_request a) c).1 ≡ c
  unfolding serve effect takes_mutex read_attribute
  read-without_mutex V6.warmup_count c none = ground arith
  read-without_mutex V6.loop_count c none = ground arith
  read-without_mutex V6.max_loop_count c none = ground arith
  read-without_mutex V6.batch_count c none = ground arith
  read-without_mutex V6.flow_oif c none = ground arith
  read-without_mutex V6.flow_iif c none = ground arith
  read-without_mutex V6.flow_label c none = ground arith
  read-without_mutex V6.flow_mark c none = ground arith
  read-without_mutex V6.flow_dst_ipaddr_s c none = ground arith
  read-without_mutex V6.flow_dst_ipaddr_e c none = ground arith
  read-without_mutex V6.flow_src_ipaddr c none = ground arith

  pub serve-without_mutex : (r : Request) (c : Config) → takes_mutex r ≡ false → (effect r c).1 ≡ c
  serve-without_mutex (read_request a) c none = read-without_mutex a c none
  serve-without_mutex (write_request a buf count) c none = write-without_mutex a buf count c none

  abbrev pub handlers6 : Handlers Config Request Reply
  handlers6 = record {
    serve = serve k p;
    takes_mutex = takes_mutex;
    effect = effect;
    serve-effect = serve-effect;
    without_mutex = serve-without_mutex;
  }

  serve_all-IsServing : IsServing (serve k p) (serve_all k p)
  unfolding serve_all
  serve_all-IsServing = record { nil = λ w. refl; cons = λ r rs w. refl }

  -- Callers side by side, in any order of their steps, each of whom takes the mutex, reads the
  -- variables, and writes them and releases the mutex later, give what one caller gives: from any
  -- variables of the IPv6 module, the requests that were served so far, one behind the other in the
  -- order in which they ended, have the same replies and lead to the same variables.
  pub Moves-serve_all_v6 :
      (c : Config) (held : ℕ) (s : System Config Request Reply)
      → Moves handlers6 (begin handlers6 c) s
      → Returns (Gives (map (λ e. e.1) s.history, s.config)) (
          serve_all k p
            (map (λ e. e.0) s.history)
            (record { config = c; locked = false; references = held }))
  Moves-serve_all_v6 c held s moves =
      Moves-replay handlers6 (serve_all k p) serve_all-IsServing c s _ refl refl moves
