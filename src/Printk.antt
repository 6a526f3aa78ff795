-- ===== src/Printk.antt =====
-- What kbench_mod.c prints, and the kernel's formatted printing (lib/vsprintf.c, not part of the
-- repository) as an interface. A piece is one format string with its arguments; a page is the
-- sysfs buffer, as the pieces printed into it and the number of bytes that they take.
use network_lab.Common.{ℕ, ◌+◌, ◌-◌, ◌^◌, ◌≤◌, ◌<◌, ◌≡◌, List, [], ◌∷◌, ◌++◌, ℤ, min, length, arith}

abbrev pub Text : Type 0
Text = List ℕ

-- The arguments of the line of statistics.
pub record Summary : Type 0 where
  pub low : ℕ
  pub high : ℕ
  pub count : ℕ
  pub batch : ℕ
  pub average : ℕ
  pub p95 : ℕ
  pub p90 : ℕ
  pub p50 : ℕ
  pub mad : ℕ

-- A `struct in6_addr`, by its four words in network order.
pub record In6Addr : Type 0 where
  pub word0 : ℕ
  pub word1 : ℕ
  pub word2 : ℕ
  pub word3 : ℕ

abbrev pub IsIn6Addr : In6Addr → Type 0
IsIn6Addr a = (a.word0 < 2 ^ 32) × (a.word1 < 2 ^ 32) × (a.word2 < 2 ^ 32) × (a.word3 < 2 ^ 32)

pub data Piece : Type 0 where
  lu : ℕ → Piece
  d : ℤ → Piece
  name : Text → Piece
  hex2 : ℕ → Piece
  hex8 : ℕ → Piece
  ip4 : ℕ → Piece
  ip6 : In6Addr → Piece
  no_memory : Piece
  lookup_error : ℤ → Piece
  no_match : Piece
  summary : Summary → Piece
  -- the same line without the batch, which the older IPv6 module prints
  plain_summary : Summary → Piece
  -- the table, the tenths of the mean depth as a quotient and a remainder, and the greatest depth
  depth : ℕ → ℕ → ℕ → ℕ → Piece
  value_head : Piece
  axis_head : Piece
  count_head : Piece
  row_start : ℕ → Piece
  full_block : Piece
  half_block : Piece
  row_end : ℕ → ℕ → Piece

pub record Printer : Type 0 where
  pub page_size : ℕ
  pub page_size_min : 4096 ≤ page_size
  -- the text of a piece, without its final NUL
  pub text : Piece → Text
  pub row_start_nonempty : (start : ℕ) → 1 ≤ length (text (row_start start))
  -- the number of bytes that `scnprintf` writes, without the final NUL
  pub scnprintf : ℕ → Piece → ℕ
  pub scnprintf_lem : (size : ℕ) (p : Piece) → scnprintf size p ≡ min (length (text p)) (size - 1)

pub record Page : Type 0 where
  pub pieces : List Piece
  pub used : ℕ

abbrev pub blank : Page
blank = record { pieces = []; used = 0 }

-- `hist_buf += scnprintf(hist_buf, buf + PAGE_SIZE - hist_buf, …)`
unfoldable pub print : Printer → Piece → Page → Page
print k p page = record {
  pieces = page.pieces ++ p ∷ [];
  used = page.used + k.scnprintf (k.page_size - page.used) p;
}

-- A page holds its text and the NUL behind it.
abbrev pub Fits : Printer → Page → Type 0
Fits k page = page.used < k.page_size

pub print-Fits : (k : Printer) (p : Piece) (page : Page) → Fits k page → Fits k (print k p page)
unfolding print
print-Fits k p page h = omega (arith, k.scnprintf_lem (k.page_size - page.used) p)

pub used-print : (k : Printer) (p : Piece) (page : Page) → page.used ≤ (print k p page).used
unfolding print
used-print k p page = omega arith

-- A piece that is not empty takes room, where there is room for it.
pub used-lt-print :
    (k : Printer) (p : Piece) (page : Page)
    → 1 ≤ length (k.text p)
    → page.used + 1 < k.page_size
    → page.used < (print k p page).used
unfolding print
used-lt-print k p page h r = omega (arith, k.scnprintf_lem (k.page_size - page.used) p)
