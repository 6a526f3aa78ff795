-- ===== src/Sysfs/Handlers.antt =====
-- The shapes of the handlers: what the attributes of one shape do alike is written once, over the
-- variable that is read or written.
use network_lab.Common.{ℕ, not, ◌&&◌, none, some, ℤ, pos, is_negative, ltb, ◌==◌, if◌then◌else◌}
use network_lab.Printk.{Text, In6Addr, Piece, Printer}
use network_lab.Printk
use network_lab.Sysfs.{
  Status, bytes, errno, einval, enodev, value, failed, Kernel, Sys, ◌>>=◌, ◌>>◌, pure, mutex_lock,
  mutex_unlock, get_config, modify, hold,
}

-- What a read gives: the piece that is printed, and the number of bytes.
pub record Reading : Type 0 where
  pub piece : Piece
  pub size : ℕ

module _ {C : Type 0} where
  -- `mutex_lock(&kb_lock); x = val; mutex_unlock(&kb_lock); return count;`
  unfoldable pub assign : (C → C) → ℕ → Sys C Status
  unfolding mutex_lock mutex_unlock modify
  assign set count = do mutex_lock; modify set; mutex_unlock; pure (bytes count)

  unfoldable pub show : Printer → (C → Piece) → Sys C Reading
  unfolding mutex_lock mutex_unlock get_config
  show p piece = do
    mutex_lock
    c ← get_config
    mutex_unlock
    pure (record { piece = piece c; size = p.scnprintf p.page_size (piece c) })

  -- `unsigned long`, at least 1
  unfoldable pub store_count : Kernel → (ℕ → C → C) → Text → ℕ → Sys C Status
  unfolding assign
  store_count k set buf count = elim (k.kstrtoul buf) [
    | failed e ↦ pure (errno e)
    | value v ↦ if ltb v 1 then pure (errno einval) else assign (set v) count
  ]

  -- `u32`, any value
  unfoldable pub store_u32 : Kernel → (ℕ → C → C) → Text → ℕ → Sys C Status
  unfolding assign
  store_u32 k set buf count = elim (k.kstrtou32 buf) [
    | failed e ↦ pure (errno e)
    | value v ↦ assign (set v) count
  ]

  -- `u8`, parsed as `unsigned int`; the source's test `val < 0` never holds of one
  unfoldable pub store_u8 : Kernel → (ℕ → C → C) → Text → ℕ → Sys C Status
  unfolding assign
  store_u8 k set buf count = elim (k.kstrtouint buf) [
    | failed e ↦ pure (errno e)
    | value v ↦ if ltb 255 v then pure (errno einval) else assign (set v) count
  ]

  -- an interface, by its number or by its name
  unfoldable pub store_device : Kernel → (ℤ → C → C) → Text → ℕ → Sys C Status
  unfolding assign hold
  store_device k set buf count = elim (k.kstrtoint buf) [
    | failed e ↦ elim (k.dev_get_by_name (k.scan_name buf)) [
      | none ↦ pure (errno enodev)
      | some dev ↦ do hold; assign (set (pos dev.ifindex)) count
    ]
    | value v ↦ if is_negative v then pure (errno einval) else assign (set v) count
  ]

  unfoldable pub print_device : Kernel → ℤ → Sys C Piece
  unfolding hold
  print_device k index = elim (k.dev_get_by_index index) [
    | none ↦ pure (Printk.d index)
    | some dev ↦ do hold; pure (Printk.name dev.name)
  ]

  unfoldable pub show_device : Kernel → Printer → (C → ℤ) → Sys C Reading
  unfolding mutex_lock mutex_unlock get_config print_device
  show_device k p get = do
    mutex_lock
    c ← get_config
    piece ← print_device k (get c)
    mutex_unlock
    pure (record { piece = piece; size = p.scnprintf p.page_size piece })

  -- an IPv4 address: `in_aton` refuses nothing
  unfoldable pub store_ip4 : Kernel → (ℕ → C → C) → Text → ℕ → Sys C Status
  unfolding assign
  store_ip4 k set buf count = assign (set (k.in_aton buf)) count

  -- an IPv6 address, up to the end of the text or of the line
  unfoldable pub store_ip6 : Kernel → (In6Addr → C → C) → Text → ℕ → Sys C Status
  unfolding assign
  store_ip6 k set buf count = elim (k.in6_pton buf count) [
    | none ↦ pure (errno einval)
    | some parsed ↦
        if not (parsed.1 == 0) && not (parsed.1 == b'\n')
        then pure (errno einval)
        else assign (set parsed.0) count
  ]
