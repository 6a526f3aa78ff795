-- ===== src/Sysfs/V6.antt =====
-- The variables and the attributes of lab-routes-ipv6/2026/kbench_mod.c.
pub mod Laws
pub mod RoundTrip
use network_lab.Common.{ℕ, ◌^◌, ◌<◌, ◌≡◌, false, ℤ, pos, is_negative, List, [], ◌∷◌}
use network_lab.Printk.{Text, Printer, In6Addr, IsIn6Addr}
use network_lab.Printk
use network_lab.Sysfs.{Status, Kernel, Sys, ◌>>=◌, pure}
use network_lab.Sysfs.Handlers.{
  Reading, show, show_device, store_count, store_device, store_ip6, store_u32,
}

pub record Config : Type 0 where
  pub warmup_count : ℕ
  pub loop_count : ℕ
  pub max_loop_count : ℕ
  pub batch_count : ℕ
  pub flow_oif : ℤ
  pub flow_iif : ℤ
  pub flow_label : ℕ
  pub flow_mark : ℕ
  pub flow_dst_ipaddr_s : In6Addr
  pub flow_dst_ipaddr_e : In6Addr
  pub flow_src_ipaddr : In6Addr

-- The values that the variables are initialised with. The words of an address are read from its
-- bytes as a little-endian machine reads them.
abbrev pub defaults : Config
defaults = record {
  warmup_count = 100000;
  loop_count = 5000;
  max_loop_count = 1000000;
  batch_count = 1;
  flow_oif = pos 0;
  flow_iif = pos 0;
  flow_label = 0;
  flow_mark = 0x00000000;
  flow_dst_ipaddr_s = record { word0 = 0x20; word1 = 0; word2 = 0; word3 = 0 };
  flow_dst_ipaddr_e = record {
    word0 = 0xffffff3f;
    word1 = 0xffffffff;
    word2 = 0xffffffff;
    word3 = 0xffffffff;
  };
  flow_src_ipaddr = record { word0 = 0; word1 = 0; word2 = 0; word3 = 0 };
}

warmup_count_show : Printer → Sys Config Reading
unfolding show
warmup_count_show p = show p (λ c. Printk.lu c.warmup_count)

warmup_count_store : Kernel → Text → ℕ → Sys Config Status
unfolding store_count
warmup_count_store k = store_count k (λ v c. record c { warmup_count = v })

loop_count_show : Printer → Sys Config Reading
unfolding show
loop_count_show p = show p (λ c. Printk.lu c.loop_count)

loop_count_store : Kernel → Text → ℕ → Sys Config Status
unfolding store_count
loop_count_store k = store_count k (λ v c. record c { loop_count = v })

max_loop_count_show : Printer → Sys Config Reading
unfolding show
max_loop_count_show p = show p (λ c. Printk.lu c.max_loop_count)

max_loop_count_store : Kernel → Text → ℕ → Sys Config Status
unfolding store_count
max_loop_count_store k = store_count k (λ v c. record c { max_loop_count = v })

batch_count_show : Printer → Sys Config Reading
unfolding show
batch_count_show p = show p (λ c. Printk.lu c.batch_count)

batch_count_store : Kernel → Text → ℕ → Sys Config Status
unfolding store_count
batch_count_store k = store_count k (λ v c. record c { batch_count = v })

flow_oif_show : Kernel → Printer → Sys Config Reading
unfolding show_device
flow_oif_show k p = show_device k p (λ c. c.flow_oif)

flow_oif_store : Kernel → Text → ℕ → Sys Config Status
unfolding store_device
flow_oif_store k = store_device k (λ v c. record c { flow_oif = v })

flow_iif_show : Kernel → Printer → Sys Config Reading
unfolding show_device
flow_iif_show k p = show_device k p (λ c. c.flow_iif)

flow_iif_store : Kernel → Text → ℕ → Sys Config Status
unfolding store_device
flow_iif_store k = store_device k (λ v c. record c { flow_iif = v })

flow_label_show : Printer → Sys Config Reading
unfolding show
flow_label_show p = show p (λ c. Printk.hex8 c.flow_label)

flow_label_store : Kernel → Text → ℕ → Sys Config Status
unfolding store_u32
flow_label_store k = store_u32 k (λ v c. record c { flow_label = v })

flow_mark_show : Printer → Sys Config Reading
unfolding show
flow_mark_show p = show p (λ c. Printk.hex8 c.flow_mark)

flow_mark_store : Kernel → Text → ℕ → Sys Config Status
unfolding store_u32
flow_mark_store k = store_u32 k (λ v c. record c { flow_mark = v })

flow_dst_ipaddr_s_show : Printer → Sys Config Reading
unfolding show
flow_dst_ipaddr_s_show p = show p (λ c. Printk.ip6 c.flow_dst_ipaddr_s)

flow_dst_ipaddr_s_store : Kernel → Text → ℕ → Sys Config Status
unfolding store_ip6
flow_dst_ipaddr_s_store k = store_ip6 k (λ v c. record c { flow_dst_ipaddr_s = v })

flow_dst_ipaddr_e_show : Printer → Sys Config Reading
unfolding show
flow_dst_ipaddr_e_show p = show p (λ c. Printk.ip6 c.flow_dst_ipaddr_e)

flow_dst_ipaddr_e_store : Kernel → Text → ℕ → Sys Config Status
unfolding store_ip6
flow_dst_ipaddr_e_store k = store_ip6 k (λ v c. record c { flow_dst_ipaddr_e = v })

flow_src_ipaddr_show : Printer → Sys Config Reading
unfolding show
flow_src_ipaddr_show p = show p (λ c. Printk.ip6 c.flow_src_ipaddr)

flow_src_ipaddr_store : Kernel → Text → ℕ → Sys Config Status
unfolding store_ip6
flow_src_ipaddr_store k = store_ip6 k (λ v c. record c { flow_src_ipaddr = v })

-- The attributes of the group but for the two that run the benchmark.
pub data Attribute : Type 0 where
  warmup_count loop_count max_loop_count batch_count flow_oif flow_iif flow_label flow_mark
        flow_dst_ipaddr_s flow_dst_ipaddr_e flow_src_ipaddr :
      Attribute

unfoldable pub read_attribute : Kernel → Printer → Attribute → Sys Config Reading
unfolding warmup_count_show loop_count_show max_loop_count_show batch_count_show flow_oif_show
    flow_iif_show flow_label_show flow_mark_show flow_dst_ipaddr_s_show flow_dst_ipaddr_e_show
    flow_src_ipaddr_show
read_attribute k p warmup_count = warmup_count_show p
read_attribute k p loop_count = loop_count_show p
read_attribute k p max_loop_count = max_loop_count_show p
read_attribute k p batch_count = batch_count_show p
read_attribute k p flow_oif = flow_oif_show k p
read_attribute k p flow_iif = flow_iif_show k p
read_attribute k p flow_label = flow_label_show p
read_attribute k p flow_mark = flow_mark_show p
read_attribute k p flow_dst_ipaddr_s = flow_dst_ipaddr_s_show p
read_attribute k p flow_dst_ipaddr_e = flow_dst_ipaddr_e_show p
read_attribute k p flow_src_ipaddr = flow_src_ipaddr_show p

unfoldable pub write_attribute : Kernel → Attribute → Text → ℕ → Sys Config Status
unfolding warmup_count_store loop_count_store max_loop_count_store batch_count_store flow_oif_store
    flow_iif_store flow_label_store flow_mark_store flow_dst_ipaddr_s_store flow_dst_ipaddr_e_store
    flow_src_ipaddr_store
write_attribute k warmup_count = warmup_count_store k
write_attribute k loop_count = loop_count_store k
write_attribute k max_loop_count = max_loop_count_store k
write_attribute k batch_count = batch_count_store k
write_attribute k flow_oif = flow_oif_store k
write_attribute k flow_iif = flow_iif_store k
write_attribute k flow_label = flow_label_store k
write_attribute k flow_mark = flow_mark_store k
write_attribute k flow_dst_ipaddr_s = flow_dst_ipaddr_s_store k
write_attribute k flow_dst_ipaddr_e = flow_dst_ipaddr_e_store k
write_attribute k flow_src_ipaddr = flow_src_ipaddr_store k

-- What user space asks of the attributes.
pub data Request : Type 0 where
  read_request : Attribute → Request
  write_request : Attribute → Text → ℕ → Request

pub data Reply : Type 0 where
  reading : Reading → Reply
  written : Status → Reply

unfoldable pub serve : Kernel → Printer → Request → Sys Config Reply
unfolding read_attribute write_attribute
serve k p (read_request a) = do r ← read_attribute k p a; pure (reading r)
serve k p (write_request a buf count) = do s ← write_attribute k a buf count; pure (written s)

-- One request behind the other.
unfoldable pub serve_all : Kernel → Printer → List Request → Sys Config (List Reply)
serve_all k p [] = pure []
serve_all k p (r ∷ rs) = do a ← serve k p r; as_list ← serve_all k p rs; pure (a ∷ as_list)

-- What the benchmark relies on.
pub record IsValid (c : Config) : Type 0 where
  pub warmup_count_ok : (0 < c.warmup_count) × (c.warmup_count < 2 ^ 64)
  pub loop_count_ok : (0 < c.loop_count) × (c.loop_count < 2 ^ 64)
  pub max_loop_count_ok : (0 < c.max_loop_count) × (c.max_loop_count < 2 ^ 64)
  pub batch_count_ok : (0 < c.batch_count) × (c.batch_count < 2 ^ 64)
  pub flow_oif_ok : is_negative c.flow_oif ≡ false
  pub flow_iif_ok : is_negative c.flow_iif ≡ false
  pub flow_label_ok : c.flow_label < 2 ^ 32
  pub flow_mark_ok : c.flow_mark < 2 ^ 32
  pub flow_dst_ipaddr_s_ok : IsIn6Addr c.flow_dst_ipaddr_s
  pub flow_dst_ipaddr_e_ok : IsIn6Addr c.flow_dst_ipaddr_e
  pub flow_src_ipaddr_ok : IsIn6Addr c.flow_src_ipaddr
