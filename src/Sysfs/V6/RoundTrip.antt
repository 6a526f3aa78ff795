-- ===== src/Sysfs/V6/RoundTrip.antt =====
-- The handlers of the IPv6 module: what one writes of what another reads, and the lookup of a device.
use network_lab.Common.{
  ℕ, zero, suc, ◌+◌, ◌^◌, ◌<◌, ◌≡◌, refl, false, List, ◌∷◌, replicate, Exec, Returns, ok, fault,
  some, arith, length,
}
use network_lab.Printk.{Printer, Text, In6Addr, IsIn6Addr}
use network_lab.Printk
use network_lab.Sysfs.{Kernel, World, Status, bytes, value, Device, and_then, ◌>>=◌, pure, Sys}
use network_lab.Sysfs.Handlers.{Reading}
use network_lab.Sysfs.V6
use network_lab.Sysfs.V6.Laws.{IsReady}

-- The kernel's parsers read back what its formats print.
pub record ReadsBack (k : Kernel) (p : Printer) : Type 0 where
  pub lu_back : (v : ℕ) → v < 2 ^ 64 → k.kstrtoul (p.text (Printk.lu v)) ≡ value v
  pub hex8_back : (v : ℕ) → v < 2 ^ 32 → k.kstrtou32 (p.text (Printk.hex8 v)) ≡ value v
  -- of the whole text, up to the end of the line that the format prints
  pub ip6_back :
      (v : In6Addr) (count : ℕ)
      → IsIn6Addr v
      → count ≡ length (p.text (Printk.ip6 v))
      → k.in6_pton (p.text (Printk.ip6 v)) count ≡ some (v, b'\n')

-- The attributes that do not name a device.
pub data IsPlain : V6.Attribute → Type 0 where
  plain_warmup_count : IsPlain V6.warmup_count
  plain_loop_count : IsPlain V6.loop_count
  plain_max_loop_count : IsPlain V6.max_loop_count
  plain_batch_count : IsPlain V6.batch_count
  plain_flow_label : IsPlain V6.flow_label
  plain_flow_mark : IsPlain V6.flow_mark
  plain_flow_dst_ipaddr_s : IsPlain V6.flow_dst_ipaddr_s
  plain_flow_dst_ipaddr_e : IsPlain V6.flow_dst_ipaddr_e
  plain_flow_src_ipaddr : IsPlain V6.flow_src_ipaddr

-- `cat` an attribute, and `echo` what it said into it.
abbrev pub write_back_v6 : Kernel → Printer → V6.Attribute → ℕ → Sys V6.Config Status
write_back_v6 k p a count = do
  r ← V6.read_attribute k p a
  V6.write_attribute k a (p.text r.piece) count

module _ (k : Kernel) (p : Printer) where
  -- Where the kernel's parsers read back what its formats print, and from a state with the mutex
  -- free and valid variables, reading an attribute of the IPv6 module that names no device and
  -- writing its text back with its whole length is accepted and changes nothing.
  pub write_back_v6_lem :
      (a : V6.Attribute) (count : ℕ) (w : World V6.Config)
      → ReadsBack k p
      → IsPlain a
      → IsReady w
      → Returns (λ r. count ≡ length (p.text r.0.piece)) (V6.read_attribute k p a w)
      → write_back_v6 k p a count w ≡ ok (bytes count, w)
  unfolding V6.read_attribute V6.write_attribute
  write_back_v6_lem V6.warmup_count count w back plain_warmup_count i whole =
      ground (arith, back.lu_back w.config.warmup_count i.valid.warmup_count_ok.1)
  write_back_v6_lem V6.loop_count count w back plain_loop_count i whole =
      ground (arith, back.lu_back w.config.loop_count i.valid.loop_count_ok.1)
  write_back_v6_lem V6.max_loop_count count w back plain_max_loop_count i whole =
      ground (arith, back.lu_back w.config.max_loop_count i.valid.max_loop_count_ok.1)
  write_back_v6_lem V6.batch_count count w back plain_batch_count i whole =
      ground (arith, back.lu_back w.config.batch_count i.valid.batch_count_ok.1)
  write_back_v6_lem V6.flow_oif count w back plain i whole = elim plain [ ]
  write_back_v6_lem V6.flow_iif count w back plain i whole = elim plain [ ]
  write_back_v6_lem V6.flow_label count w back plain_flow_label i whole =
      ground (arith, back.hex8_back w.config.flow_label i.valid.flow_label_ok)
  write_back_v6_lem V6.flow_mark count w back plain_flow_mark i whole =
      ground (arith, back.hex8_back w.config.flow_mark i.valid.flow_mark_ok)
  write_back_v6_lem V6.flow_dst_ipaddr_s count w back plain_flow_dst_ipaddr_s i whole =
      let read = rw i.free at whole in
      ground
        (arith, back.ip6_back w.config.flow_dst_ipaddr_s count i.valid.flow_dst_ipaddr_s_ok read)
  write_back_v6_lem V6.flow_dst_ipaddr_e count w back plain_flow_dst_ipaddr_e i whole =
      let read = rw i.free at whole in
      ground
        (arith, back.ip6_back w.config.flow_dst_ipaddr_e count i.valid.flow_dst_ipaddr_e_ok read)
  write_back_v6_lem V6.flow_src_ipaddr count w back plain_flow_src_ipaddr i whole =
      let read = rw i.free at whole in
      ground (arith, back.ip6_back w.config.flow_src_ipaddr count i.valid.flow_src_ipaddr_ok read)

  module _ (dev : Device) where
    serve-hold :
        (w : World V6.Config)
        → w.locked ≡ false
        → k.dev_get_by_index w.config.flow_oif ≡ some dev
        → (r : Reading) × (V6.serve k p (V6.read_request V6.flow_oif) w
            ≡ ok (V6.reading r, record w { locked = false; references = w.references + 1 }))
    unfolding V6.serve V6.read_attribute
    serve-hold w free found =
        let piece = Printk.name dev.name in
        (record { piece = piece; size = p.scnprintf p.page_size piece }, ground arith)

    -- Every read of `flow_oif` while its device exists takes a reference on it that no handler gives
    -- back: after `n` reads there are `n` more.
    pub serve_all-references :
        (n : ℕ) (w : World V6.Config)
        → w.locked ≡ false
        → k.dev_get_by_index w.config.flow_oif ≡ some dev
        → Returns
            (λ r. r.1.references ≡ w.references + n)
            (V6.serve_all k p (replicate n (V6.read_request V6.flow_oif)) w)
    unfolding V6.serve_all
    serve_all-references zero w free found = omega arith
    serve_all-references (suc n) w free found =
        let (r, e) = serve-hold w free found in
        let w' : World V6.Config = record w { locked = false; references = w.references + 1 } in
        rw (e, V6.serve_all)
          (finish w' (V6.serve_all k p (replicate n (V6.read_request V6.flow_oif)) w')
            (V6.reading r) (omega arith) (serve_all-references n w' refl found))
      where
        finish :
            (w' : World V6.Config) (m : Exec (List V6.Reply × World V6.Config)) (a : V6.Reply)
            → w'.references ≡ w.references + 1
            → Returns (λ r. r.1.references ≡ w'.references + n) m
            → Returns
                (λ r. r.1.references ≡ w.references + suc n)
                (and_then m (λ as_list. pure (a ∷ as_list)))
        finish w' (ok (as_list, w'')) a e h = omega (arith, h)
        finish w' (fault f) a e h = absurd h
