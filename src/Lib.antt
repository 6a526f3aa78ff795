-- ===== src/Lib.antt =====
-- Three kernel modules of the repository measure the routing lookups of Linux: one for IPv4
-- (lab-routes-ipv4/kbench_mod.c), one for IPv6 (lab-routes-ipv6/2026/kbench_mod.c), and an older
-- one for IPv6, without batches (lab-routes-ipv6/kbench_mod.c). User space sets their variables
-- through files of sysfs, and reads a report of a run from another one. The run does lookups over a
-- range of addresses, keeps a cycle count for each lookup or batch of lookups, and prints
-- statistics and a histogram of the counts into one page. A fourth kernel module
-- (lab-teamd-activebackup/livepatch-teamd-ab.c) is a live patch, which lets a team of interfaces
-- accept frames from all its ports.
--
-- Parts, and the code that each is about:
--   Common    runs that may fault, lists and tests over the native numbers, signed integers
--   Sorting   `compare_ull` and `compare`; the kernel's `sort` is the interface `Sorter`
--   Stats     `percentile`, `mad` and `average` of the IPv4 module
--   Printk    what the modules print; `scnprintf` and the page are the interface `Printer`
--   Display   `display_statistics` of the IPv4 module; `ilog2` is the interface `Log`;
--             `Display.Rendering` reads the rows back from a page, and `Display.Tally` says which rows
--             the histogram of some values has
--   Fib6      `collect_depth` of the IPv6 module: the walk over the kernel's routing tree
--   Sysfs     the handlers of the attributes: `Sysfs.V4`, `Sysfs.V6` and, for the older module,
--             `Sysfs.Old`, over the shapes that they share (`Sysfs.Handlers`); the kernel's parsers
--             and devices are the interface `Kernel`
--   Bench4    `do_bench` of the IPv4 module; lookups, the cycle counter, the byte order and the
--             outcome of the allocations are the interface `Env`; `Bench4.Reference` says without
--             buffers what the loop is to measure
--   Addr6     the arithmetic on addresses in `do_bench` of the IPv6 module, and `lcg32`
--   Bench6    `do_bench` of the IPv6 module: the search and the batches (`Bench6`), the report
--             (`Bench6.Report`) and the whole function (`Bench6.Whole`); lookups, the cycle counter,
--             the byte order, the routing table and the outcome of the allocations are the interface
--             `Env6`; `Bench6.Reference` says without buffers what the search and the batches are to
--             measure
--   Older     `do_bench` of the older IPv6 module, over the definitions of `Bench6` for what the two
--             share word for word
--   Lifecycle `kbench_init` and `kbench_exit`, and the life of a module as a step relation; sysfs and
--             the kernel's objects are the interface `Kobjects`, a module is the interface `Service`,
--             which `Lifecycle.Modules` fills for each of the three, with the files that show and store
--             their variables and those that run their benchmarks
--   Threads   the handlers as steps of callers side by side, over the mutex; `Threads.Requests4` are
--             those of the IPv4 module, `Threads.Requests6` those of the IPv6 module
--   Livepatch the frame handler of the live patch, its load and its removal; the ports, the teams and
--             `skb_share_check` are the interface `Net`, the kernel's live patching is `Patching`
--   Examples  runs on concrete inputs, and stand-ins for the interfaces
--
-- The handlers keep the variables that `Bench4.plan` reads; `Bench4.loop` makes the array that
-- `Display.display_statistics` sorts and reports; `Bench6.Whole.finish6` reports what
-- `Bench6.measure_all` has kept, and the depths that `Fib6.collect_depth` finds.
--
-- State: a C function that writes variables is a function on a record of those variables. What C
-- leaves undefined, or stops the kernel (a read behind the values of an array, a write behind its
-- end, NULL, an object that was freed, a division by 0, a mutex locked twice by its holder), is a
-- fault, and a fault is the end
-- of a run. An array is the list of the values written so far. Machine integers are numbers with the
-- wrap-around written out: an `unsigned long` has 64 bits, an `unsigned` 32. So does the size of
-- an allocation, and an array has the room that was asked for, or none at all. The size of a flow is
-- a parameter of `Env` and `Env6`.
--
-- Fuel: the walk of `collect_depth` is run on fuel, and three rounds a node and two more are enough
-- for a tree; the loop of the histogram is given the number of values, the bytes of a page and one
-- more, which is enough since each round passes a value or prints at least a byte; the loop over the
-- batches is given the number of addresses and one more, since a batch passes at least one. All other
-- loops count down.
--
-- Requests of other callers can reach a module between the allocations of `do_bench` and its mutex:
-- `do_bench6_beside` and `older_bench_beside` take what they do as a parameter. The IPv4 module reads
-- its variables behind the mutex, but for the swap of its range, which never happens.
--
-- Not modelled: the branches for kernels before 2.6.39 (IPv4) and 3.18 (IPv6); the tables of the
-- live patch, which are data for the kernel; lab-bridge-linux/xdp_drop_all.c, a program of one
-- statement; and the set-ups of the laboratories, which are scripts and configuration files.
-- lab-routes-ipv4/2026/kbench_mod.c is the IPv4 module once more.
pub mod Common
pub mod Sorting
pub mod Stats
pub mod Printk
pub mod Display
pub mod Fib6
pub mod Sysfs
pub mod Bench4
pub mod Addr6
pub mod Examples
pub mod Bench6
pub mod Older
pub mod Lifecycle
pub mod Livepatch
pub mod Threads
