-- ===== src/Examples/Patch.antt =====
-- Frames over two ports of one team, and a load of the patch that is refused.
use network_lab.Common.{
  ℕ, ◌+◌, ◌%◌, ◌^◌, ◌≡◌, refl, List, [], ◌∷◌, none, some, if◌then◌else◌, ◌==◌, Bool, true, ◌⊎◌, pos,
  negsuc, arith,
}
use network_lab.Livepatch.{Skb, Net, Counters, Patching, Warned, handle_all, livepatch_init}
use network_lab.Livepatch.Frames.{byte_sum, team_total, added, handle_all-total}
use network_lab.Livepatch.Load.{IsPatching, livepatch_init-all_or_nothing}

-- Devices 1 and 2 are ports of team 7, and the third frame finds no memory for its copy.
abbrev net : Net
net = record {
  rx_handler_data = λ dev. 10 + dev;
  port_team = λ port. if port == 13 then 8 else 7;
  team_dev = λ team. 100 + team;
  packet_multicast = 2;
  skb_share_check = λ call skb. if call == 2 then none else some skb;
}

abbrev frames : List (ℕ × Skb)
frames =
    (0, record { dev = 1; len = 60; pkt_type = 0 })
    ∷ (1, record { dev = 2; len = 1500; pkt_type = 2 })
    ∷ (1, record { dev = 1; len = 90; pkt_type = 0 })
    ∷ (0, record { dev = 3; len = 70; pkt_type = 0 })
    ∷ []

abbrev none_yet : Counters
none_yet team cpu = record { rx_packets = 0; rx_bytes = 0; rx_multicast = 0 }

handle_all-total_example :
    team_total net byte_sum 7 2 (handle_all net 0 frames none_yet) % 2 ^ 64
    ≡ (team_total net byte_sum 7 2 none_yet + added net byte_sum 7 0 frames) % 2 ^ 64
handle_all-total_example = handle_all-total net byte_sum 7 2 0 frames none_yet (ground arith)

-- No patch, a patch that is registered, or one that is enabled; the kernel refuses to enable it.
abbrev refusing : Patching ℕ
refusing = record {
  klp_register_patch = λ s. if s == 0 then (pos 0, 1) else (negsuc 21, s);
  klp_enable_patch = λ s. (negsuc 15, s);
  klp_unregister_patch = λ s. if s == 1 then (pos 0, 0) else (negsuc 21, s);
}

abbrev is_enabled : ℕ → Bool
is_enabled s = s == 2

refusing-IsPatching : IsPatching refusing is_enabled
refusing-IsPatching = record {
  register_error = λ s h. ground arith;
  enable_error = λ s h. refl;
  enabled = λ s h. ground arith;
  unregistered = λ s h. ground arith;
}

abbrev before : Warned ℕ
before = record { state = 0; warnings = 0 }

livepatch_init-all_or_nothing_example :
    let r = livepatch_init refusing before in
    ((r.0 ≡ pos 0) × (is_enabled r.1.state ≡ true) × (r.1.warnings ≡ 0))
    ⊎ (¬ (r.0 ≡ pos 0) × (r.1 ≡ before))
livepatch_init-all_or_nothing_example =
    livepatch_init-all_or_nothing refusing is_enabled refusing-IsPatching before
