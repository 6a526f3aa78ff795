-- ===== src/Sysfs/V4/RoundTrip.antt =====
-- The handlers of the IPv4 module: what one writes of what another reads, and the lookup of a device.
use network_lab.Common.{
  ℕ, zero, suc, ◌+◌, ◌^◌, ◌<◌, ◌≡◌, refl, false, List, ◌∷◌, replicate, Exec, Returns, ok, fault,
  some, arith,
}
use network_lab.Printk.{Printer, Text, In6Addr, IsIn6Addr}
use network_lab.Printk
use network_lab.Sysfs.{Kernel, World, Status, bytes, value, Device, and_then, ◌>>=◌, pure, Sys}
use network_lab.Sysfs.Handlers.{Reading}
use network_lab.Sysfs.V4
use network_lab.Sysfs.V4.Laws.{IsReady}

-- The kernel's parsers read back what its formats print.
pub record ReadsBack (k : Kernel) (p : Printer) : Type 0 where
  pub lu_back : (v : ℕ) → v < 2 ^ 64 → k.kstrtoul (p.text (Printk.lu v)) ≡ value v
  pub hex2_back : (v : ℕ) → v < 2 ^ 32 → k.kstrtouint (p.text (Printk.hex2 v)) ≡ value v
  pub hex8_back : (v : ℕ) → v < 2 ^ 32 → k.kstrtou32 (p.text (Printk.hex8 v)) ≡ value v
  pub ip4_back : (v : ℕ) → v < 2 ^ 32 → k.in_aton (p.text (Printk.ip4 v)) ≡ v

-- The attributes that do not name a device.
pub data IsPlain : V4.Attribute → Type 0 where
  plain_warmup_count : IsPlain V4.warmup_count
  plain_loop_count : IsPlain V4.loop_count
  plain_batch_count : IsPlain V4.batch_count
  plain_flow_tos : IsPlain V4.flow_tos
  plain_flow_mark : IsPlain V4.flow_mark
  plain_flow_dst_ipaddr_s : IsPlain V4.flow_dst_ipaddr_s
  plain_flow_dst_ipaddr_e : IsPlain V4.flow_dst_ipaddr_e
  plain_flow_src_ipaddr : IsPlain V4.flow_src_ipaddr

-- `cat` an attribute, and `echo` what it said into it.
abbrev pub write_back : Kernel → Printer → V4.Attribute → ℕ → Sys V4.Config Status
write_back k p a count = do
  r ← V4.read_attribute k p a
  V4.write_attribute k a (p.text r.piece) count

module _ (k : Kernel) (p : Printer) where
  -- Where the kernel's parsers read back what its formats print, and from a state with the mutex
  -- free and valid variables, reading an attribute of the IPv4 module that names no device and
  -- writing its text back is accepted and changes nothing.
  pub write_back_lem :
      (a : V4.Attribute) (count : ℕ) (w : World V4.Config)
      → ReadsBack k p
      → IsPlain a
      → IsReady w
      → write_back k p a count w ≡ ok (bytes count, w)
  unfolding V4.read_attribute V4.write_attribute
  write_back_lem V4.warmup_count count w back plain_warmup_count i =
      ground (arith, back.lu_back w.config.warmup_count i.valid.warmup_count_ok.1)
  write_back_lem V4.loop_count count w back plain_loop_count i =
      ground (arith, back.lu_back w.config.loop_count i.valid.loop_count_ok.1)
  write_back_lem V4.batch_count count w back plain_batch_count i =
      ground (arith, back.lu_back w.config.batch_count i.valid.batch_count_ok.1)
  write_back_lem V4.flow_oif count w back plain i = elim plain [ ]
  write_back_lem V4.flow_iif count w back plain i = elim plain [ ]
  write_back_lem V4.flow_tos count w back plain_flow_tos i =
      ground (arith, back.hex2_back w.config.flow_tos (omega (arith, i.valid.flow_tos_ok)))
  write_back_lem V4.flow_mark count w back plain_flow_mark i =
      ground (arith, back.hex8_back w.config.flow_mark i.valid.flow_mark_ok)
  write_back_lem V4.flow_dst_ipaddr_s count w back plain_flow_dst_ipaddr_s i =
      ground (arith, back.ip4_back w.config.flow_dst_ipaddr_s i.valid.flow_dst_ipaddr_s_ok)
  write_back_lem V4.flow_dst_ipaddr_e count w back plain_flow_dst_ipaddr_e i =
      ground (arith, back.ip4_back w.config.flow_dst_ipaddr_e i.valid.flow_dst_ipaddr_e_ok)
  write_back_lem V4.flow_src_ipaddr count w back plain_flow_src_ipaddr i =
      ground (arith, back.ip4_back w.config.flow_src_ipaddr i.valid.flow_src_ipaddr_ok)

  module _ (dev : Device) where
    serve-hold :
        (w : World V4.Config)
        → w.locked ≡ false
        → k.dev_get_by_index w.config.flow_oif ≡ some dev
        → (r : Reading) × (V4.serve k p (V4.read_request V4.flow_oif) w
            ≡ ok (V4.reading r, record w { locked = false; references = w.references + 1 }))
    unfolding V4.serve V4.read_attribute
    serve-hold w free found =
        let piece = Printk.name dev.name in
        (record { piece = piece; size = p.scnprintf p.page_size piece }, ground arith)

    -- While the interface of `flow_oif` exists and the mutex is free, `n` reads of that attribute
    -- leave `n` more references on devices than before.
    pub serve_all-references :
        (n : ℕ) (w : World V4.Config)
        → w.locked ≡ false
        → k.dev_get_by_index w.config.flow_oif ≡ some dev
        → Returns
            (λ r. r.1.references ≡ w.references + n)
            (V4.serve_all k p (replicate n (V4.read_request V4.flow_oif)) w)
    unfolding V4.serve_all
    serve_all-references zero w free found = omega arith
    serve_all-references (suc n) w free found =
        let (r, e) = serve-hold w free found in
        let w' : World V4.Config = record w { locked = false; references = w.references + 1 } in
        rw (e, V4.serve_all)
          (finish w' (V4.serve_all k p (replicate n (V4.read_request V4.flow_oif)) w')
            (V4.reading r) (omega arith) (serve_all-references n w' refl found))
      where
        finish :
            (w' : World V4.Config) (m : Exec (List V4.Reply × World V4.Config)) (a : V4.Reply)
            → w'.references ≡ w.references + 1
            → Returns (λ r. r.1.references ≡ w'.references + n) m
            → Returns
                (λ r. r.1.references ≡ w.references + suc n)
                (and_then m (λ as_list. pure (a ∷ as_list)))
        finish w' (ok (as_list, w'')) a e h = omega (arith, h)
        finish w' (fault f) a e h = absurd h
