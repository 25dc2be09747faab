-- ===== src/Net/Container/Silent.antt =====
-- Which kinds of calls set up a container's network.
use microbox.Base.{ℕ, Option, none, some}
use microbox.Os.{Call, db, mkdir_all, Kernel}
use microbox.Os.Kinds.{NoSignal, Ordinary-NoSignal}
use microbox.Os.Keeps.{Emits, Emits-weaken, emits_rules}
use microbox.Net.{NetworkMode, net_none, net_host, net_bridge, other_network}
use microbox.Net.Ipam.{CidrLibrary, IpamAllocator}
use microbox.Net.Ipam.Storing.{Storing, allocate_ip-Storing}
use microbox.Net.Veth.Plain.{setup_veth-Ordinary}
use microbox.Net.Container.{
  NetworkConfig, veth_config, bridge_options, connect, setup_in_mode, setup_container_networking,
}

Storing-NoSignal : (c : Call) → Storing c → NoSignal c
Storing-NoSignal (db c) h = tt
Storing-NoSignal (mkdir_all p m) h = tt
Storing-NoSignal _ h = absurd h

module _ (K : Kernel) (L : CidrLibrary) where
  connect-NoSignal :
      (child_pid : ℕ) (ipam : Option IpamAllocator) → Emits NoSignal (connect K child_pid ipam)
  unfolding connect
  connect-NoSignal child_pid none = search emits_rules
  connect-NoSignal child_pid (some ipam) =
      let veth =
        Emits-weaken _ Ordinary-NoSignal (setup_veth-Ordinary K child_pid (veth_config ipam)) in
      search emits_rules depth 9

  setup_in_mode-NoSignal :
      (rounds child_pid : ℕ) (mode : NetworkMode)
      → Emits NoSignal (setup_in_mode K L rounds child_pid mode)
  unfolding setup_in_mode
  setup_in_mode-NoSignal rounds child_pid net_bridge =
      let allocated =
        Emits-weaken _ Storing-NoSignal (allocate_ip-Storing K L rounds bridge_options) in
      search (emits_rules, allocated, connect-NoSignal) depth 9
  setup_in_mode-NoSignal rounds child_pid net_none = search emits_rules
  setup_in_mode-NoSignal rounds child_pid net_host = search emits_rules
  setup_in_mode-NoSignal rounds child_pid (other_network n) = search emits_rules

  pub setup-NoSignal :
      (rounds : ℕ) (cfg : NetworkConfig)
      → Emits NoSignal (setup_container_networking K L rounds cfg)
  unfolding setup_container_networking
  setup-NoSignal rounds cfg = setup_in_mode-NoSignal rounds cfg.child_pid cfg.mode
