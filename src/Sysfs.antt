-- ===== src/Sysfs.antt =====
-- The sysfs handlers of kbench_mod.c, by the shapes that the attributes share. The configuration is
-- a type of its own for each module, behind one mutex; the kernel's parsers, its devices and its
-- table of names (not part of the repository) are an interface.
pub mod Handlers
pub mod V4
pub mod V6
pub mod Old
use network_lab.Common.{
  ℕ, ◌+◌, ◌^◌, ◌≤◌, ◌<◌, ◌≡◌, Bool, true, false, Option, none, some, ℤ, pos, Exec, ok, fault,
  deadlock, if◌then◌else◌,
}
use network_lab.Printk.{Text, In6Addr, IsIn6Addr}

pub data Errno : Type 0 where
  einval enodev enomem : Errno
  other : ℕ → Errno

-- An `ssize_t`.
pub data Status : Type 0 where
  bytes : ℕ → Status
  errno : Errno → Status

pub data Parsed (A : Type 0) : Type 0 where
  value : A → Parsed A
  failed : Errno → Parsed A

pub record Device : Type 0 where
  pub name : Text
  pub ifindex : ℕ

abbrev pub IsBounded : ℕ → Parsed ℕ → Type 0
IsBounded bound (value v) = v < bound
IsBounded bound (failed e) = Unit

-- The address and the character behind it.
abbrev pub IsParsedIn6 : Option (In6Addr × ℕ) → Type 0
IsParsedIn6 none = Unit
IsParsedIn6 (some (a, c)) = IsIn6Addr a

pub record Kernel : Type 0 where
  pub kstrtoul : Text → Parsed ℕ
  pub kstrtoul_bound : (buf : Text) → IsBounded (2 ^ 64) (kstrtoul buf)
  pub kstrtouint : Text → Parsed ℕ
  pub kstrtouint_bound : (buf : Text) → IsBounded (2 ^ 32) (kstrtouint buf)
  pub kstrtou32 : Text → Parsed ℕ
  pub kstrtou32_bound : (buf : Text) → IsBounded (2 ^ 32) (kstrtou32 buf)
  pub kstrtoint : Text → Parsed ℤ
  -- `sscanf(buf, "%15s", ifname)`
  pub scan_name : Text → Text
  pub in_aton : Text → ℕ
  pub in_aton_bound : (buf : Text) → in_aton buf < 2 ^ 32
  -- `in6_pton(buf, count, …, -1, &end)`
  pub in6_pton : Text → ℕ → Option (In6Addr × ℕ)
  pub in6_pton_bound : (buf : Text) (count : ℕ) → IsParsedIn6 (in6_pton buf count)
  -- Both take a reference on the device that they find.
  pub dev_get_by_index : ℤ → Option Device
  pub dev_get_by_name : Text → Option Device

-- What a handler works on: the module's variables, its mutex, and the references on devices that the
-- handlers have taken and not given back.
pub record World (C : Type 0) : Type 0 where
  pub config : C
  pub locked : Bool
  pub references : ℕ

abbrev pub Sys : Type 0 → Type 0 → Type 0
Sys C A = World C → Exec (A × World C)

module _ {C : Type 0} where
  abbrev pub and_then : {A B : Type 0} → Exec (A × World C) → (A → Sys C B) → Exec (B × World C)
  and_then (ok (a, w)) k = k a w
  and_then (fault f) k = fault f

  infixl 5 ◌>>=◌ ◌>>◌
  abbrev pub ◌>>=◌ : {A B : Type 0} → Sys C A → (A → Sys C B) → Sys C B
  m >>= k = λ w. and_then (m w) k

  abbrev pub ◌>>◌ : {B : Type 0} → Sys C (Unit {0}) → Sys C B → Sys C B
  m >> k = λ w. and_then (m w) (λ _. k)

  abbrev pub pure : {A : Type 0} → A → Sys C A
  pure a w = ok (a, w)

  unfoldable pub mutex_lock : Sys C (Unit {0})
  mutex_lock w = if w.locked then fault deadlock else ok (tt, record w { locked = true })

  unfoldable pub mutex_unlock : Sys C (Unit {0})
  mutex_unlock w = ok (tt, record w { locked = false })

  unfoldable pub get_config : Sys C C
  get_config w = ok (w.config, w)

  unfoldable pub modify : (C → C) → Sys C (Unit {0})
  modify f w = ok (tt, record w { config = f w.config })

  -- A lookup that found a device.
  unfoldable pub hold : Sys C (Unit {0})
  hold w = ok (tt, record w { references = w.references + 1 })
