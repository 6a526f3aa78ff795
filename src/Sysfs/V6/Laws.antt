-- ===== src/Sysfs/V6/Laws.antt =====
-- The handlers of the IPv6 module over sequences of requests.
use network_lab.Common.{
  ℕ, ◌≡◌, false, List, [], ◌∷◌, Exec, Returns, Returns-mono, fault, sym, subst, ok, arith,
}
use network_lab.Printk.{Printer, Text}
use network_lab.Sysfs.{Kernel, World, Status, Errno, errno, and_then, ◌>>=◌, pure}
use network_lab.Sysfs.Handlers.{Reading}
use network_lab.Sysfs.V6

-- Between two requests: the mutex is free and the variables are valid.
pub record IsReady (w : World V6.Config) : Type 0 where
  pub free : w.locked ≡ false
  pub valid : V6.IsValid w.config

module _ (k : Kernel) (p : Printer) where
  -- A write leaves the mutex free and the variables valid, and changes nothing where it returns an
  -- error.
  abbrev Written : World V6.Config → Status × World V6.Config → Type 0
  Written w (s, w') = IsReady w' × ((e : Errno) → s ≡ errno e → w' ≡ w)

  write_attribute-Written :
      (a : V6.Attribute) (buf : Text) (count : ℕ) (w : World V6.Config)
      → IsReady w
      → Returns (Written w) (V6.write_attribute k a buf count w)
  unfolding V6.write_attribute
  write_attribute-Written V6.warmup_count buf count w i = ground (arith, k.kstrtoul_bound buf)
  write_attribute-Written V6.loop_count buf count w i = ground (arith, k.kstrtoul_bound buf)
  write_attribute-Written V6.max_loop_count buf count w i = ground (arith, k.kstrtoul_bound buf)
  write_attribute-Written V6.batch_count buf count w i = ground (arith, k.kstrtoul_bound buf)
  write_attribute-Written V6.flow_oif buf count w i = ground (arith)
  write_attribute-Written V6.flow_iif buf count w i = ground (arith)
  write_attribute-Written V6.flow_label buf count w i = ground (arith, k.kstrtou32_bound buf)
  write_attribute-Written V6.flow_mark buf count w i = ground (arith, k.kstrtou32_bound buf)
  write_attribute-Written V6.flow_dst_ipaddr_s buf count w i =
      ground (arith, k.in6_pton_bound buf count)
  write_attribute-Written V6.flow_dst_ipaddr_e buf count w i =
      ground (arith, k.in6_pton_bound buf count)
  write_attribute-Written V6.flow_src_ipaddr buf count w i =
      ground (arith, k.in6_pton_bound buf count)

  -- A read leaves the mutex free and the variables alone.
  abbrev Read : World V6.Config → Reading × World V6.Config → Type 0
  Read w (r, w') =
      (w'.locked ≡ false) × (w'.config ≡ w.config) × (r.size ≡ p.scnprintf p.page_size r.piece)

  read_attribute-Read :
      (a : V6.Attribute) (w : World V6.Config)
      → w.locked ≡ false
      → Returns (Read w) (V6.read_attribute k p a w)
  unfolding V6.read_attribute
  read_attribute-Read V6.warmup_count w i = ground arith
  read_attribute-Read V6.loop_count w i = ground arith
  read_attribute-Read V6.max_loop_count w i = ground arith
  read_attribute-Read V6.batch_count w i = ground arith
  read_attribute-Read V6.flow_oif w i = ground arith
  read_attribute-Read V6.flow_iif w i = ground arith
  read_attribute-Read V6.flow_label w i = ground arith
  read_attribute-Read V6.flow_mark w i = ground arith
  read_attribute-Read V6.flow_dst_ipaddr_s w i = ground arith
  read_attribute-Read V6.flow_dst_ipaddr_e w i = ground arith
  read_attribute-Read V6.flow_src_ipaddr w i = ground arith

  pub serve-IsReady :
      (r : V6.Request) (w : World V6.Config)
      → IsReady w
      → Returns (λ a. IsReady a.1) (V6.serve k p r w)
  unfolding V6.serve
  serve-IsReady (V6.read_request a) w i =
      finish (V6.read_attribute k p a w) (read_attribute-Read a w i.free)
    where
      finish :
          (m : Exec (Reading × World V6.Config))
          → Returns (Read w) m
          → Returns (λ b. IsReady b.1) (and_then m (λ r. pure (V6.reading r)))
      finish (ok (r, w')) h = record { free = h.0; valid = subst V6.IsValid (sym h.1) i.valid }
      finish (fault f) h = absurd h
  serve-IsReady (V6.write_request a buf count) w i =
      finish (V6.write_attribute k a buf count w) (write_attribute-Written a buf count w i)
    where
      finish :
          (m : Exec (Status × World V6.Config))
          → Returns (Written w) m
          → Returns (λ b. IsReady b.1) (and_then m (λ s. pure (V6.written s)))
      finish (ok (s, w')) h = h.0
      finish (fault f) h = absurd h

  -- From a state where the mutex is free and the variables of the IPv6 module are valid, every
  -- sequence of reads and writes of its attributes is served to its end without a deadlock or a
  -- fault, and leaves the mutex free and the variables valid: no count is ever 0.
  pub serve_all-IsReady_v6 :
      (rs : List V6.Request) (w : World V6.Config)
      → IsReady w
      → Returns (λ a. IsReady a.1) (V6.serve_all k p rs w)
  unfolding V6.serve_all
  serve_all-IsReady_v6 [] w i = i
  serve_all-IsReady_v6 (r ∷ rs) w i =
      first (V6.serve k p r w) (serve-IsReady r w i) (serve_all-IsReady_v6 rs)
    where
      last :
          (a : V6.Reply) (m : Exec (List V6.Reply × World V6.Config))
          → Returns (λ b. IsReady b.1) m
          → Returns (λ b. IsReady b.1) (and_then m (λ as_list. pure (a ∷ as_list)))
      last a (ok (as_list, w')) h = h
      last a (fault f) h = absurd h

      first :
          (m : Exec (V6.Reply × World V6.Config))
          → Returns (λ b. IsReady b.1) m
          → ((w' : World V6.Config)
              → IsReady w'
              → Returns (λ b. IsReady b.1) (V6.serve_all k p rs w'))
          → Returns
              (λ b. IsReady b.1)
              (and_then m (λ a. (V6.serve_all k p rs >>= λ as_list. pure (a ∷ as_list))))
      first (ok (a, w')) h rest = last a (V6.serve_all k p rs w') (rest w' h)
      first (fault f) h rest = absurd h

  -- A write that returns an error changes nothing.
  pub write_attribute-errno :
      (a : V6.Attribute) (buf : Text) (count : ℕ) (w : World V6.Config)
      → IsReady w
      → Returns (λ r. (e : Errno) → r.0 ≡ errno e → r.1 ≡ w) (V6.write_attribute k a buf count w)
  write_attribute-errno a buf count w i =
      Returns-mono (Written w) (λ r. (e : Errno) → r.0 ≡ errno e → r.1 ≡ w)
        (V6.write_attribute k a buf count w) (write_attribute-Written a buf count w i) (λ r h. h.1)
