-- ===== src/Sysfs/V4/Laws.antt =====
-- The handlers of the IPv4 module over sequences of requests.
use network_lab.Common.{
  ℕ, ◌≡◌, false, List, [], ◌∷◌, Exec, Returns, Returns-mono, fault, sym, subst, ok, arith,
}
use network_lab.Printk.{Printer, Text}
use network_lab.Sysfs.{Kernel, World, Status, Errno, errno, and_then, ◌>>=◌, pure}
use network_lab.Sysfs.Handlers.{Reading}
use network_lab.Sysfs.V4

-- Between two requests: the mutex is free and the variables are valid.
pub record IsReady (w : World V4.Config) : Type 0 where
  pub free : w.locked ≡ false
  pub valid : V4.IsValid w.config

module _ (k : Kernel) (p : Printer) where
  -- A write leaves the mutex free and the variables valid, and changes nothing where it returns an
  -- error.
  abbrev Written : World V4.Config → Status × World V4.Config → Type 0
  Written w (s, w') = IsReady w' × ((e : Errno) → s ≡ errno e → w' ≡ w)

  write_attribute-Written :
      (a : V4.Attribute) (buf : Text) (count : ℕ) (w : World V4.Config)
      → IsReady w
      → Returns (Written w) (V4.write_attribute k a buf count w)
  unfolding V4.write_attribute
  write_attribute-Written V4.warmup_count buf count w i = ground (arith, k.kstrtoul_bound buf)
  write_attribute-Written V4.loop_count buf count w i = ground (arith, k.kstrtoul_bound buf)
  write_attribute-Written V4.batch_count buf count w i = ground (arith, k.kstrtoul_bound buf)
  write_attribute-Written V4.flow_oif buf count w i = ground (arith)
  write_attribute-Written V4.flow_iif buf count w i = ground (arith)
  write_attribute-Written V4.flow_tos buf count w i = ground (arith, k.kstrtouint_bound buf)
  write_attribute-Written V4.flow_mark buf count w i = ground (arith, k.kstrtou32_bound buf)
  write_attribute-Written V4.flow_dst_ipaddr_s buf count w i = ground (arith, k.in_aton_bound buf)
  write_attribute-Written V4.flow_dst_ipaddr_e buf count w i = ground (arith, k.in_aton_bound buf)
  write_attribute-Written V4.flow_src_ipaddr buf count w i = ground (arith, k.in_aton_bound buf)

  -- A read leaves the mutex free and the variables alone.
  abbrev Read : World V4.Config → Reading × World V4.Config → Type 0
  Read w (r, w') =
      (w'.locked ≡ false) × (w'.config ≡ w.config) × (r.size ≡ p.scnprintf p.page_size r.piece)

  read_attribute-Read :
      (a : V4.Attribute) (w : World V4.Config)
      → w.locked ≡ false
      → Returns (Read w) (V4.read_attribute k p a w)
  unfolding V4.read_attribute
  read_attribute-Read V4.warmup_count w i = ground arith
  read_attribute-Read V4.loop_count w i = ground arith
  read_attribute-Read V4.batch_count w i = ground arith
  read_attribute-Read V4.flow_oif w i = ground arith
  read_attribute-Read V4.flow_iif w i = ground arith
  read_attribute-Read V4.flow_tos w i = ground arith
  read_attribute-Read V4.flow_mark w i = ground arith
  read_attribute-Read V4.flow_dst_ipaddr_s w i = ground arith
  read_attribute-Read V4.flow_dst_ipaddr_e w i = ground arith
  read_attribute-Read V4.flow_src_ipaddr w i = ground arith

  pub serve-IsReady :
      (r : V4.Request) (w : World V4.Config)
      → IsReady w
      → Returns (λ a. IsReady a.1) (V4.serve k p r w)
  unfolding V4.serve
  serve-IsReady (V4.read_request a) w i =
      finish (V4.read_attribute k p a w) (read_attribute-Read a w i.free)
    where
      finish :
          (m : Exec (Reading × World V4.Config))
          → Returns (Read w) m
          → Returns (λ b. IsReady b.1) (and_then m (λ r. pure (V4.reading r)))
      finish (ok (r, w')) h = record { free = h.0; valid = subst V4.IsValid (sym h.1) i.valid }
      finish (fault f) h = absurd h
  serve-IsReady (V4.write_request a buf count) w i =
      finish (V4.write_attribute k a buf count w) (write_attribute-Written a buf count w i)
    where
      finish :
          (m : Exec (Status × World V4.Config))
          → Returns (Written w) m
          → Returns (λ b. IsReady b.1) (and_then m (λ s. pure (V4.written s)))
      finish (ok (s, w')) h = h.0
      finish (fault f) h = absurd h

  -- From a state where the mutex is free and the variables of the IPv4 module are valid, every
  -- sequence of reads and writes of its attributes is served to its end without a deadlock or a
  -- fault, and leaves the mutex free and the variables valid: no count is ever 0.
  pub serve_all-IsReady :
      (rs : List V4.Request) (w : World V4.Config)
      → IsReady w
      → Returns (λ a. IsReady a.1) (V4.serve_all k p rs w)
  unfolding V4.serve_all
  serve_all-IsReady [] w i = i
  serve_all-IsReady (r ∷ rs) w i =
      first (V4.serve k p r w) (serve-IsReady r w i) (serve_all-IsReady rs)
    where
      last :
          (a : V4.Reply) (m : Exec (List V4.Reply × World V4.Config))
          → Returns (λ b. IsReady b.1) m
          → Returns (λ b. IsReady b.1) (and_then m (λ as_list. pure (a ∷ as_list)))
      last a (ok (as_list, w')) h = h
      last a (fault f) h = absurd h

      first :
          (m : Exec (V4.Reply × World V4.Config))
          → Returns (λ b. IsReady b.1) m
          → ((w' : World V4.Config)
              → IsReady w'
              → Returns (λ b. IsReady b.1) (V4.serve_all k p rs w'))
          → Returns
              (λ b. IsReady b.1)
              (and_then m (λ a. (V4.serve_all k p rs >>= λ as_list. pure (a ∷ as_list))))
      first (ok (a, w')) h rest = last a (V4.serve_all k p rs w') (rest w' h)
      first (fault f) h rest = absurd h

  -- From a state with the mutex free and valid variables, a write of an attribute of the IPv4
  -- module that returns an error changes nothing.
  pub write_attribute-errno :
      (a : V4.Attribute) (buf : Text) (count : ℕ) (w : World V4.Config)
      → IsReady w
      → Returns (λ r. (e : Errno) → r.0 ≡ errno e → r.1 ≡ w) (V4.write_attribute k a buf count w)
  write_attribute-errno a buf count w i =
      Returns-mono (Written w) (λ r. (e : Errno) → r.0 ≡ errno e → r.1 ≡ w)
        (V4.write_attribute k a buf count w) (write_attribute-Written a buf count w i) (λ r h. h.1)
