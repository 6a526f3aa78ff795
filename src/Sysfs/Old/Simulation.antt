-- ===== src/Sysfs/Old/Simulation.antt =====
-- The handlers of the older IPv6 module, against those of the module of 2026.
use network_lab.Common.{ℕ, ◌≡◌, refl, List, [], ◌∷◌, map, Exec, ok, fault, arith}
use network_lab.Printk.{Printer, Text}
use network_lab.Sysfs.{Kernel, World, and_then, Sys}
use network_lab.Sysfs.V6
use network_lab.Sysfs.Old

-- The variables of the older module as variables of the newer one: no batches are made.
abbrev pub widen : Old.Config → V6.Config
widen c = record {
  warmup_count = c.warmup_count;
  loop_count = c.loop_count;
  max_loop_count = c.max_loop_count;
  batch_count = 1;
  flow_oif = c.flow_oif;
  flow_iif = c.flow_iif;
  flow_label = c.flow_label;
  flow_mark = c.flow_mark;
  flow_dst_ipaddr_s = c.flow_dst_ipaddr_s;
  flow_dst_ipaddr_e = c.flow_dst_ipaddr_e;
  flow_src_ipaddr = c.flow_src_ipaddr;
}

abbrev pub widen_world : World Old.Config → World V6.Config
widen_world w = record { config = widen w.config; locked = w.locked; references = w.references }

abbrev pub widen_attribute : Old.Attribute → V6.Attribute
widen_attribute Old.warmup_count = V6.warmup_count
widen_attribute Old.loop_count = V6.loop_count
widen_attribute Old.max_loop_count = V6.max_loop_count
widen_attribute Old.flow_oif = V6.flow_oif
widen_attribute Old.flow_iif = V6.flow_iif
widen_attribute Old.flow_label = V6.flow_label
widen_attribute Old.flow_mark = V6.flow_mark
widen_attribute Old.flow_dst_ipaddr_s = V6.flow_dst_ipaddr_s
widen_attribute Old.flow_dst_ipaddr_e = V6.flow_dst_ipaddr_e
widen_attribute Old.flow_src_ipaddr = V6.flow_src_ipaddr

abbrev pub widen_request : Old.Request → V6.Request
widen_request (Old.read_request a) = V6.read_request (widen_attribute a)
widen_request (Old.write_request a buf count) = V6.write_request (widen_attribute a) buf count

abbrev pub widen_run : {A : Type 0} → Exec (A × World Old.Config) → Exec (A × World V6.Config)
widen_run (ok (a, w)) = ok (a, widen_world w)
widen_run (fault f) = fault f

module _ (k : Kernel) (p : Printer) where
  read_attribute-widen :
      (a : Old.Attribute) (w : World Old.Config)
      → V6.read_attribute k p (widen_attribute a) (widen_world w)
        ≡ widen_run (Old.read_attribute k p a w)
  unfolding V6.read_attribute Old.read_attribute
  read_attribute-widen Old.warmup_count w = ground arith
  read_attribute-widen Old.loop_count w = ground arith
  read_attribute-widen Old.max_loop_count w = ground arith
  read_attribute-widen Old.flow_oif w = ground arith
  read_attribute-widen Old.flow_iif w = ground arith
  read_attribute-widen Old.flow_label w = ground arith
  read_attribute-widen Old.flow_mark w = ground arith
  read_attribute-widen Old.flow_dst_ipaddr_s w = ground arith
  read_attribute-widen Old.flow_dst_ipaddr_e w = ground arith
  read_attribute-widen Old.flow_src_ipaddr w = ground arith

  write_attribute-widen :
      (a : Old.Attribute) (buf : Text) (count : ℕ) (w : World Old.Config)
      → V6.write_attribute k (widen_attribute a) buf count (widen_world w)
        ≡ widen_run (Old.write_attribute k a buf count w)
  unfolding V6.write_attribute Old.write_attribute
  write_attribute-widen Old.warmup_count buf count w = ground arith
  write_attribute-widen Old.loop_count buf count w = ground arith
  write_attribute-widen Old.max_loop_count buf count w = ground arith
  write_attribute-widen Old.flow_oif buf count w = ground arith
  write_attribute-widen Old.flow_iif buf count w = ground arith
  write_attribute-widen Old.flow_label buf count w = ground arith
  write_attribute-widen Old.flow_mark buf count w = ground arith
  write_attribute-widen Old.flow_dst_ipaddr_s buf count w = ground arith
  write_attribute-widen Old.flow_dst_ipaddr_e buf count w = ground arith
  write_attribute-widen Old.flow_src_ipaddr buf count w = ground arith

  -- To go on behind a widened run is to widen what goes on.
  and_then-widen :
      {A B : Type 0} (m : Exec (A × World Old.Config)) (m' : Exec (A × World V6.Config))
      (f : A → Sys Old.Config B) (g : A → Sys V6.Config B)
      → m' ≡ widen_run m
      → ((a : A) (w : World Old.Config) → g a (widen_world w) ≡ widen_run (f a w))
      → and_then m' g ≡ widen_run (and_then m f)
  and_then-widen (ok (a, w)) m' f g e h = rw e (h a w)
  and_then-widen (fault x) m' f g e h = rw e refl

  pub serve-widen :
      (r : Old.Request) (w : World Old.Config)
      → V6.serve k p (widen_request r) (widen_world w) ≡ widen_run (Old.serve k p r w)
  unfolding V6.serve Old.serve
  serve-widen (Old.read_request a) w =
      and_then-widen (Old.read_attribute k p a w) _ _ _ (read_attribute-widen a w) (λ r w'. refl)
  serve-widen (Old.write_request a buf count) w =
      and_then-widen (Old.write_attribute k a buf count w) _ _ _
        (write_attribute-widen a buf count w) (λ s w'. refl)

  -- Every sequence of reads and writes of the attributes of the older IPv6 module is one of the
  -- attributes of the newer module: on the same variables and a batch of 1, the newer module gives
  -- the same replies, faults where the older one does, and leaves the same variables, mutex and
  -- references.
  pub serve_all-widen :
      (rs : List Old.Request) (w : World Old.Config)
      → V6.serve_all k p (map widen_request rs) (widen_world w) ≡ widen_run (Old.serve_all k p rs w)
  unfolding V6.serve_all Old.serve_all
  serve_all-widen [] w = refl
  serve_all-widen (r ∷ rs) w = and_then-widen (Old.serve k p r w) _ _ _ (serve-widen r w) (λ a w'.
      and_then-widen (Old.serve_all k p rs w') _ _ _ (serve_all-widen rs w') (λ as_list w''. refl))
