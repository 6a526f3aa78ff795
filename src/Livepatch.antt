-- ===== src/Livepatch.antt =====
-- lab-teamd-activebackup/livepatch-teamd-ab.c: the replacement of `team_handle_frame`, and the patch
-- that puts it into the kernel.
pub mod Frames
pub mod Load
use network_lab.Common.{
  update, ℕ, zero, suc, ◌+◌, ◌%◌, ◌^◌, ◌≡◌, Bool, true, false, ◌==◌, ◌&&◌, not, ◌==ℤ◌, ℤ, pos,
  if◌then◌else◌, Option, none, some, List, [], ◌∷◌,
}

-- `struct sk_buff`; a device is a number.
pub record Skb : Type 0 where
  pub dev : ℕ
  pub len : ℕ
  pub pkt_type : ℕ

-- `struct team_pcpu_stats`, of 64-bit counters
pub record Stats : Type 0 where
  pub rx_packets : ℕ
  pub rx_bytes : ℕ
  pub rx_multicast : ℕ

-- `rx_handler_result_t`
pub data Verdict : Type 0 where
  consumed another : Verdict

-- What the repository does not hold: the port behind a device, the team behind a port, the device of
-- a team, the number of a packet type, and `skb_share_check`, whose calls are numbered: it returns
-- the frame or a copy of it, and NULL where there is no memory for a copy.
pub record Net : Type 0 where
  pub rx_handler_data : ℕ → ℕ
  pub port_team : ℕ → ℕ
  pub team_dev : ℕ → ℕ
  pub packet_multicast : ℕ
  pub skb_share_check : ℕ → Skb → Option Skb

-- The counters of each team on each CPU.
abbrev pub Counters : Type 0
Counters = ℕ → ℕ → Stats

-- What a call leaves: its verdict, the frame behind `pskb`, and the counters.
pub record Handled : Type 0 where
  pub verdict : Verdict
  pub frame : Skb
  pub counters : Counters

module _ (net : Net) where
  unfoldable pub count : Skb → Stats → Stats
  count skb s = record {
    rx_packets = (s.rx_packets + 1) % 2 ^ 64;
    rx_bytes = (s.rx_bytes + skb.len) % 2 ^ 64;
    rx_multicast =
        if skb.pkt_type == net.packet_multicast
        then (s.rx_multicast + 1) % 2 ^ 64
        else s.rx_multicast;
  }

  abbrev pub team_of : Skb → ℕ
  team_of skb = net.port_team (net.rx_handler_data skb.dev)

  -- From behind `skb_share_check`, on CPU `cpu`, with the frame that came and what the check returned.
  unfoldable pub deliver : (cpu : ℕ) → Skb → Option Skb → Counters → Handled
  unfolding count update
  deliver cpu skb none counters = record { verdict = consumed; frame = skb; counters = counters }
  deliver cpu skb (some skb') counters =
      let team = team_of skb' in
      record {
        verdict = another;
        frame = record skb' { dev = net.team_dev team };
        counters =
            update counters team (update (counters team) cpu (count skb' (counters team cpu)));
      }

  -- `call` numbers the call of `skb_share_check`.
  unfoldable pub livepatch_team_handle_frame : (call cpu : ℕ) → Skb → Counters → Handled
  unfolding deliver
  livepatch_team_handle_frame call cpu skb counters =
      deliver cpu skb (net.skb_share_check call skb) counters

  -- Frames in the order in which they come, each with its CPU: what the counters are behind the last.
  unfoldable pub handle_all : ℕ → List (ℕ × Skb) → Counters → Counters
  unfolding livepatch_team_handle_frame
  handle_all call [] counters = counters
  handle_all call ((cpu, skb) ∷ frames) counters =
      handle_all (call + 1) frames (livepatch_team_handle_frame call cpu skb counters).counters

-- The kernel's live patching, over its own state `S`, and the number of its warnings.
pub record Patching (S : Type 0) : Type 0 where
  pub klp_register_patch : S → ℤ × S
  pub klp_enable_patch : S → ℤ × S
  pub klp_unregister_patch : S → ℤ × S

pub record Warned (S : Type 0) : Type 0 where
  pub state : S
  pub warnings : ℕ

module _ {S : Type 0} (klp : Patching S) where
  -- `WARN_ON(klp_unregister_patch(&patch))`
  unfoldable pub unregister : Warned S → Warned S
  unregister s =
      let r = klp.klp_unregister_patch s.state in
      record { state = r.1; warnings = if r.0 ==ℤ pos 0 then s.warnings else s.warnings + 1 }

  unfoldable pub livepatch_init : Warned S → ℤ × Warned S
  unfolding unregister
  livepatch_init s =
      let registered = klp.klp_register_patch s.state in
      let s1 : Warned S = record s { state = registered.1 } in
      if not (registered.0 ==ℤ pos 0)
      then (registered.0, s1)
      else let enabled = klp.klp_enable_patch s1.state in
        let s2 : Warned S = record s1 { state = enabled.1 } in
        if not (enabled.0 ==ℤ pos 0) then (enabled.0, unregister s2) else (pos 0, s2)

  unfoldable pub livepatch_exit : Warned S → Warned S
  unfolding unregister
  livepatch_exit s = unregister s
