-- ===== src/Livepatch/Frames.antt =====
-- What the counters of a team add up to over its CPUs.
use native.Mathlib.Decide.{dec_lt, ℕ_discrete}
use network_lab.Common.{
  update, update-same, update-other, ==-same, ==-other, ℕ, zero, suc, ◌+◌, ◌%◌, ◌^◌, ◌<◌, ◌≡◌, refl,
  ap, ◌==◌, if◌then◌else◌, Option, none, some, List, [], ◌∷◌, arith, sym,
}
use network_lab.Livepatch.{
  Skb, Stats, Net, Counters, count, team_of, livepatch_team_handle_frame, deliver, handle_all,
}

pub total : ℕ → (ℕ → ℕ) → ℕ
total zero f = 0
total (suc n) f = total n f + f n

-- Families that agree everywhere have one sum, and where they differ at one index the sums differ as
-- the values there do.
total-same : (n : ℕ) (f g : ℕ → ℕ) → ((j : ℕ) → j < n → g j ≡ f j) → total n g ≡ total n f
unfolding total
total-same zero f g same = refl
total-same (suc n) f g same =
    let before = total-same n f g (λ j lt. same j (omega (arith, lt))) in
    let last = same n (omega arith) in omega (arith, before, last)

total-changed :
    (n i : ℕ) (f g : ℕ → ℕ)
    → i < n
    → ((j : ℕ) → ¬ (j ≡ i) → g j ≡ f j)
    → total n g + f i ≡ total n f + g i
unfolding total
total-changed zero i f g lt same = absurd (omega (arith, lt))
total-changed (suc n) i f g lt same = elim (dec_lt i n) [
  | yes below ↦
      let before = total-changed n i f g below same in
      let last = same n (λ e. omega (arith, below, e)) in omega (arith, before, last)
  | no above ↦
      let e : i ≡ n = omega (arith, lt, above) in
      let before = total-same n f g (λ j lt. same j (λ e'. omega (arith, lt, e, e'))) in
      rw e (omega (arith, before))
]

-- One of the counters, and what a frame adds to it.
pub data Field : Type 0 where
  packets byte_sum multicast : Field

abbrev pub field : Field → Stats → ℕ
field packets s = s.rx_packets
field byte_sum s = s.rx_bytes
field multicast s = s.rx_multicast

-- Each frame is handled on one of the first CPUs.
abbrev pub AreOn : ℕ → List (ℕ × Skb) → Type 0
AreOn cpus [] = Unit
AreOn cpus ((cpu, skb) ∷ frames) = (cpu < cpus) × AreOn cpus frames

module _ (net : Net) where
  abbrev pub weight : Field → Skb → ℕ
  weight packets skb = 1
  weight byte_sum skb = skb.len
  weight multicast skb = if skb.pkt_type == net.packet_multicast then 1 else 0

  field-count :
      (c : Field) (skb : Skb) (s : Stats)
      → field c (count net skb s) % 2 ^ 64 ≡ (field c s + weight c skb) % 2 ^ 64
  unfolding count
  field-count packets skb s = omega arith
  field-count byte_sum skb s = omega arith
  field-count multicast skb s = ground arith

  -- What one counter of a team sums up to over the first `cpus` CPUs.
  abbrev pub team_total : Field → (team cpus : ℕ) → Counters → ℕ
  team_total c team cpus counters = total cpus (λ cpu. field c (counters team cpu))

  -- What the frames that are let through add to a team.
  unfoldable pub added_by : Field → (team : ℕ) → Option Skb → ℕ
  added_by c team none = 0
  added_by c team (some skb) = if team_of net skb == team then weight c skb else 0

  unfoldable pub added : Field → (team call : ℕ) → List (ℕ × Skb) → ℕ
  unfolding added_by
  added c team call [] = 0
  added c team call ((cpu, skb) ∷ frames) =
      added_by c team (net.skb_share_check call skb) + added c team (call + 1) frames

  module _ (c : Field) (cpus cpu : ℕ) (skb : Skb) (counters : Counters) (lt : cpu < cpus) where
    abbrev row : ℕ → ℕ → Stats
    row team = update (counters team) cpu (count net skb (counters team cpu))

    row-total :
        (team : ℕ)
        → total cpus (λ j. field c (row team j)) % 2 ^ 64
          ≡ (team_total c team cpus counters + weight c skb) % 2 ^ 64
    row-total team =
        let old = λ (j : ℕ). field c (counters team j) in
        let new = λ (j : ℕ). field c (row team j) in
        let changed = total-changed cpus cpu old new lt (λ j other.
          ap (field c)
            (update-other (counters team) cpu (count net skb (counters team cpu)) j other)) in
        let there : new cpu ≡ field c (count net skb (counters team cpu)) =
          ap (field c) (update-same (counters team) cpu (count net skb (counters team cpu))) in
        let one = field-count c skb (counters team cpu) in omega (arith, changed, there, one)

    counted :
        (to team : ℕ)
        → team_total c team cpus (update counters to (row to)) % 2 ^ 64
          ≡ (team_total c team cpus counters + (if to == team then weight c skb else 0)) % 2 ^ 64
    counted to team = elim (ℕ_discrete to team) [
      | yes e ↦ rw (e, update-same counters team (row team), ==-same team) (row-total team)
      | no other ↦
          rw (update-other counters to (row to) team (λ e. other (sym e)), ==-other to team other)
            (omega arith)
    ]

  deliver-total :
      (c : Field) (team cpus cpu : ℕ) (skb : Skb) (m : Option Skb) (counters : Counters)
      → cpu < cpus
      → team_total c team cpus (deliver net cpu skb m counters).counters % 2 ^ 64
        ≡ (team_total c team cpus counters + added_by c team m) % 2 ^ 64
  unfolding deliver added_by
  deliver-total c team cpus cpu skb none counters lt = omega arith
  deliver-total c team cpus cpu skb (some skb') counters lt =
      counted c cpus cpu skb' counters lt (team_of net skb') team

  -- Behind any sequence of frames, each handled on one of the first `cpus` CPUs, each counter of a
  -- team, summed over those CPUs, has grown by what the frames of that team that `skb_share_check`
  -- let through add to it, modulo 2 ^ 64: all packets, their lengths, or the multicast packets
  -- among them.
  pub handle_all-total :
      (c : Field) (team cpus call : ℕ) (frames : List (ℕ × Skb)) (counters : Counters)
      → AreOn cpus frames
      → team_total c team cpus (handle_all net call frames counters) % 2 ^ 64
        ≡ (team_total c team cpus counters + added c team call frames) % 2 ^ 64
  unfolding handle_all added livepatch_team_handle_frame
  handle_all-total c team cpus call [] counters on = omega arith
  handle_all-total c team cpus call ((cpu, skb) ∷ frames) counters (lt, on) =
      let first = deliver-total c team cpus cpu skb (net.skb_share_check call skb) counters lt in
      let rest =
        handle_all-total c team cpus (call + 1) frames
          (livepatch_team_handle_frame net call cpu skb counters).counters on in
      omega (arith, first, rest)
