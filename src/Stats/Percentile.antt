-- ===== src/Stats/Percentile.antt =====
-- Where `percentile` reads, and what it returns.
use network_lab.Common.{
  ℕ, ◌+◌, ◌*◌, ◌/◌, ◌%◌, ◌^◌, ◌-◌, ◌≤◌, ◌<◌, ◌≡◌, ◌≢◌, ◌↔◌, inl, inr, false, List, some, fault, ok,
  bad_read, Returns, arith, ◌==◌, ==_iff, Bool-cases, length, get_elem?, get_elem?-some,
  get_elem?-none, All-get_elem?,
}
use native.Mathlib.Decide.{dec_lt}
use network_lab.Sorting.Order.{IsSorted, IsWithin, get_elem?-mono}
use network_lab.Stats.{read, percentile}

pub read-some : (xs : List ℕ) (i : ℕ) {x : ℕ} → get_elem? xs i ≡ some x → read xs i ≡ ok x
unfolding read
read-some xs i h = rw (h, read)

pub read-none : (xs : List ℕ) (i : ℕ) → length xs ≤ i → read xs i ≡ fault bad_read
unfolding read
read-none xs i h = rw (get_elem?-none xs i h, read)

-- What the value `r` at the hundredfold rank `q` of an array is: an element, or the mean of two
-- neighbours.
pub data Rank (sorted : List ℕ) (q r : ℕ) : Type 0 where
  exact : q % 100 ≡ 0 → get_elem? sorted (q / 100) ≡ some r → Rank sorted q r
  middle :
      (a b : ℕ)
      → q % 100 ≢ 0
      → get_elem? sorted (q / 100) ≡ some a
      → get_elem? sorted (q / 100 + 1) ≡ some b
      → r ≡ (a + b) / 2
      → Rank sorted q r

-- Every rank that the code reads stands in the array.
abbrev pub IsCovered : ℕ → ℕ → Type 0
IsCovered q count = q % 100 ≢ 0 → q / 100 + 1 < count

pub Rank-mono :
    (sorted : List ℕ) (q q' r r' : ℕ)
    → IsSorted sorted
    → q ≤ q'
    → Rank sorted q r
    → Rank sorted q' r'
    → r ≤ r'
Rank-mono sorted q q' r r' s h (exact e g) (exact e' g') =
    get_elem?-mono sorted (q / 100) (q' / 100) s (omega arith) g g'
Rank-mono sorted q q' r r' s h (exact e g) (middle a b n g' g'' m) = omega (
  arith,
  get_elem?-mono sorted (q / 100) (q' / 100) s (omega arith) g g',
  get_elem?-mono sorted (q / 100) (q' / 100 + 1) s (omega arith) g g'',
)
Rank-mono sorted q q' r r' s h (middle a b n g g'' m) (exact e' g') = omega (
  arith,
  get_elem?-mono sorted (q / 100) (q' / 100) s (omega arith) g g',
  get_elem?-mono sorted (q / 100 + 1) (q' / 100) s (omega arith) g'' g',
)
Rank-mono sorted q q' r r' s h (middle a b n g k m) (middle a' b' n' g' k' m') = omega (
  arith,
  get_elem?-mono sorted (q / 100) (q' / 100) s (omega arith) g g',
  get_elem?-mono sorted (q / 100 + 1) (q' / 100 + 1) s (omega arith) k k',
)

pub Rank-IsWithin :
    (lo hi q r : ℕ) (sorted : List ℕ)
    → IsWithin lo hi sorted
    → Rank sorted q r
    → (lo ≤ r) × (r ≤ hi)
Rank-IsWithin lo hi q r sorted w (exact e g) = All-get_elem? _ sorted (q / 100) w g
Rank-IsWithin lo hi q r sorted w (middle a b n g g' m) = omega (
  arith,
  All-get_elem? (λ x. (lo ≤ x) × (x ≤ hi)) sorted (q / 100) w g,
  All-get_elem? (λ x. (lo ≤ x) × (x ≤ hi)) sorted (q / 100 + 1) w g',
)

module _ (p count : ℕ) (sorted : List ℕ) (small : p * count < 2 ^ 32) where
  product_lem : p * count % 2 ^ 32 ≡ p * count
  product_lem = omega arith

  percentile-exact : p * count % 100 ≡ 0 → percentile p sorted count ≡ read sorted (p * count / 100)
  unfolding percentile
  percentile-exact e = rw (product_lem, e)

  percentile-middle :
      (a b : ℕ)
      → p * count % 100 ≢ 0
      → get_elem? sorted (p * count / 100) ≡ some a
      → get_elem? sorted (p * count / 100 + 1) ≡ some b
      → percentile p sorted count ≡ ok ((a + b) % 2 ^ 64 / 2)
  unfolding percentile
  percentile-middle a b n g g' =
      let no_remainder : (p * count % 100 == 0) ≡ false = ground arith in
      rw (product_lem, no_remainder, read-some sorted _ g, read-some sorted _ g')

  percentile-past :
      (a : ℕ)
      → p * count % 100 ≢ 0
      → get_elem? sorted (p * count / 100) ≡ some a
      → length sorted ≤ p * count / 100 + 1
      → percentile p sorted count ≡ fault bad_read
  unfolding percentile
  percentile-past a n g h =
      let no_remainder : (p * count % 100 == 0) ≡ false = ground arith in
      rw (product_lem, no_remainder, read-some sorted _ g, read-none sorted _ h)

module _ (p count : ℕ) (sorted : List ℕ) (small : p * count < 2 ^ 32) where
  module _ (inside : p < 100) (filled : length sorted ≡ count) (nonempty : 0 < count) where
    index-lt : p * count / 100 < count
    index-lt = let few : p * count ≤ 99 * count = grind arith in omega arith

    -- Of a filled array of values below 2 ^ 63, for a percentile below 100 whose product with the
    -- count is below 2 ^ 32, and where every rank that is read stands in the array, `percentile`
    -- returns the value at its rank: an element, or the mean of two neighbours, rounded down.
    pub percentile-Rank :
        IsWithin 0 (2 ^ 63 - 1) sorted
        → IsCovered (p * count) count
        → Returns (Rank sorted (p * count)) (percentile p sorted count)
    percentile-Rank w c =
        let low = get_elem?-some sorted (p * count / 100) (omega (arith, index-lt)) in
        elim (Bool-cases (p * count % 100 == 0)) [
          | inl e ↦
              let e' = (==_iff (p * count % 100) 0).0 e in
              rw (percentile-exact p count sorted small e', read-some sorted _ low.1)
                (exact e' low.1)
          | inr n ↦
              let n' : p * count % 100 ≢ 0 = ground arith in
              let high = get_elem?-some sorted (p * count / 100 + 1) (omega (arith, c n')) in
              rw (percentile-middle p count sorted small low.0 high.0 n' low.1 high.1) (
                middle low.0 high.0 n' low.1 high.1 (
                  omega (
                    arith,
                    All-get_elem? (λ x. (0 ≤ x) × (x ≤ 2 ^ 63 - 1)) sorted _ w low.1,
                    All-get_elem? (λ x. (0 ≤ x) × (x ≤ 2 ^ 63 - 1)) sorted _ w high.1,
                  )))
        ]

    -- Of a filled array that is not empty, for a percentile below 100 whose product with the count
    -- is below 2 ^ 32, and where a rank that is read does not stand in the array, `percentile`
    -- reads behind the last value.
    pub percentile-bad_read :
        ¬ IsCovered (p * count) count → percentile p sorted count ≡ fault bad_read
    percentile-bad_read u =
        let low = get_elem?-some sorted (p * count / 100) (omega (arith, index-lt)) in
        percentile-past p count sorted small low.0 (λ e. u (λ n. absurd (n e))) low.1
          (elim (dec_lt (p * count / 100 + 1) count) [
            | yes h ↦ absurd (u (λ n. h))
            | no h ↦ omega arith
          ])

-- The ranks of the three percentiles that the module prints all stand in an array that is not empty
-- exactly from twenty values on.
pub printed_ranks_iff :
    (count : ℕ)
    → 0 < count
    → (IsCovered (95 * count) count × IsCovered (90 * count) count × IsCovered (50 * count) count)
      ↔ (20 ≤ count)
printed_ranks_iff count h = (enough, λ k. (λ n. omega arith, λ n. omega arith, λ n. omega arith))
  where
    enough :
        IsCovered (95 * count) count × IsCovered (90 * count) count × IsCovered (50 * count) count
        → 20 ≤ count
    enough c = elim (dec_lt count 20) [
      | yes few ↦ absurd (omega (arith, c.0 (omega arith)))
      | no many ↦ omega arith
    ]
