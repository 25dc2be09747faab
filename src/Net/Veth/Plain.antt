-- ===== src/Net/Veth/Plain.antt =====
-- Which kinds of calls set up the bridge, the pair and the rules.
use microbox.Base.{ℕ, String, Bool, List}
use microbox.Os.{
  Call, NetCall, net, ns_set, route_replace, link_set_name, db, write_fd, Link, Kernel, Io,
}
use microbox.Os.Keeps.{Emits, Emits-weaken, emits_rules}
use microbox.Net.Interfaces.{assign_addr, in_namespace, in_child, configure_container_interface}
use microbox.Net.Interfaces.Plain.{
  StillNet, Still, Plain, assign_addr-Still, enable-Still, default_interface-Still,
  configure_inside-Plain,
}
use microbox.Net.Rules.{insert_unless, ensure_ipt_rule, add_forwarding_rules, add_masquerade_rule}
use microbox.Net.Veth.{
  VethConfig, up_with_address, add_new_bridge, create_bridge, attach_to, create_veth_pair, set_nat,
  set_up_veth, setup_veth_networking, delete_veth,
}
use microbox.Os.Kinds.{Ordinary}

-- The calls that are made in the host's namespace: no database, no pipe is written, no other namespace
-- is entered, no route is replaced and no interface renamed.
abbrev pub HostNet : NetCall → Type 0
HostNet (ns_set n) = ⊥
HostNet (route_replace index gw_ip) = ⊥
HostNet (link_set_name link name) = ⊥
HostNet _ = Unit

abbrev pub Host : Call → Type 0
Host (db c) = ⊥
Host (write_fd fd text) = ⊥
Host (net c) = HostNet c
Host _ = Unit

StillNet-HostNet : (c : NetCall) → StillNet c → HostNet c
StillNet-HostNet (ns_set n) h = absurd h
StillNet-HostNet (route_replace index gw_ip) h = absurd h
StillNet-HostNet (link_set_name link name) h = absurd h
StillNet-HostNet _ h = tt

Still-Host : (c : Call) → Still c → Host c
Still-Host (db c) h = absurd h
Still-Host (write_fd fd text) h = absurd h
Still-Host (net c) h = StillNet-HostNet c h
Still-Host _ h = tt

Host-Ordinary : (c : Call) → Host c → Ordinary c
Host-Ordinary (db c) h = absurd h
Host-Ordinary (write_fd fd text) h = absurd h
Host-Ordinary _ h = tt

Plain-Ordinary : (c : Call) → Plain c → Ordinary c
Plain-Ordinary (db c) h = absurd h
Plain-Ordinary (write_fd fd text) h = absurd h
Plain-Ordinary _ h = tt

module _ (K : Kernel) where
  insert_unless-Host :
      (table chain : String) (rule : List String) (exists : Bool)
      → Emits Host (insert_unless K table chain rule exists)
  unfolding insert_unless
  insert_unless-Host table chain rule exists = search emits_rules depth 9

  ensure-Host :
      (table chain : String) (rule : List String) → Emits Host (ensure_ipt_rule K table chain rule)
  unfolding ensure_ipt_rule
  ensure-Host table chain rule = search (emits_rules, insert_unless-Host) depth 9

  add_forwarding-Host :
      (iface subnet_cidr : String) → Emits Host (add_forwarding_rules K iface subnet_cidr)
  unfolding add_forwarding_rules
  add_forwarding-Host iface subnet_cidr =
      let found = Emits-weaken _ Still-Host (default_interface-Still K) in
      search (emits_rules, ensure-Host) depth 9

  add_masquerade-Host :
      (iface subnet_cidr : String) → Emits Host (add_masquerade_rule K iface subnet_cidr)
  unfolding add_masquerade_rule
  add_masquerade-Host iface subnet_cidr = search (emits_rules, ensure-Host) depth 9

  pub set_nat-Host : (cfg : VethConfig) → Emits Host (set_nat K cfg)
  unfolding set_nat
  set_nat-Host cfg =
      let enabled = Emits-weaken _ Still-Host (enable-Still K) in
      search (emits_rules, add_forwarding-Host, add_masquerade-Host) depth 9

  assign_addr-Host : (link : Link) (cidr : String) → Emits Host (assign_addr K link cidr)
  assign_addr-Host link cidr = Emits-weaken _ Still-Host (assign_addr-Still K link cidr)

  up_with_address-Host : (link : Link) (cidr : String) → Emits Host (up_with_address K link cidr)
  unfolding up_with_address
  up_with_address-Host link cidr = search (emits_rules, assign_addr-Host) depth 9

  add_new_bridge-Host : (name cidr : String) (mtu : ℕ) → Emits Host (add_new_bridge K name cidr mtu)
  unfolding add_new_bridge
  add_new_bridge-Host name cidr mtu = search (emits_rules, up_with_address-Host) depth 9

  pub create_bridge-Host :
      (name cidr : String) (mtu : ℕ) → Emits Host (create_bridge K name cidr mtu)
  unfolding create_bridge
  create_bridge-Host name cidr mtu =
      search (emits_rules, up_with_address-Host, add_new_bridge-Host) depth 9

  attach_to-Host : (bridge host_if : Link) → Emits Host (attach_to K bridge host_if)
  unfolding attach_to
  attach_to-Host bridge host_if = search emits_rules depth 9

  pub create_veth_pair-Host :
      (bridge : Link) (cfg : VethConfig) (child_pid : ℕ)
      → Emits Host (create_veth_pair K bridge cfg child_pid)
  unfolding create_veth_pair
  create_veth_pair-Host bridge cfg child_pid = search (emits_rules, attach_to-Host) depth 14

  in_namespace-Ordinary :
      (host_ns target_ns : ℕ) (body : Io (Unit {0}))
      → Emits Ordinary body
      → Emits Ordinary (in_namespace K host_ns target_ns body)
  unfolding in_namespace
  in_namespace-Ordinary host_ns target_ns body h = search emits_rules depth 9

  in_child-Ordinary :
      (child_pid host_ns : ℕ) (body : Io (Unit {0}))
      → Emits Ordinary body
      → Emits Ordinary (in_child K child_pid host_ns body)
  unfolding in_child
  in_child-Ordinary child_pid host_ns body h = search (emits_rules, in_namespace-Ordinary) depth 9

  configure-Ordinary :
      (child_pid : ℕ) (temp_name final_name addr_cidr gw_cidr : String)
      → Emits Ordinary
          (configure_container_interface K child_pid temp_name final_name addr_cidr gw_cidr)
  unfolding configure_container_interface
  configure-Ordinary child_pid temp_name final_name addr_cidr gw_cidr =
      let inside =
        Emits-weaken _ Plain-Ordinary
          (configure_inside-Plain K temp_name final_name addr_cidr gw_cidr) in
      search (emits_rules, in_child-Ordinary) depth 9

  set_up_veth-Ordinary :
      (child_pid : ℕ) (cfg : VethConfig) → Emits Ordinary (set_up_veth K child_pid cfg)
  unfolding set_up_veth
  set_up_veth-Ordinary child_pid cfg =
      let bridge =
        Emits-weaken _ Host-Ordinary (create_bridge-Host cfg.bridge_name cfg.bridge_ip cfg.mtu) in
      let pair =
        λ (b : Link). Emits-weaken _ Host-Ordinary (create_veth_pair-Host b cfg child_pid) in
      let nat = Emits-weaken _ Host-Ordinary (set_nat-Host cfg) in
      search (emits_rules, pair, configure-Ordinary) depth 12

  -- No part of the network but the allocator uses the database.
  pub setup_veth-Ordinary :
      (child_pid : ℕ) (cfg : VethConfig) → Emits Ordinary (setup_veth_networking K child_pid cfg)
  unfolding setup_veth_networking
  setup_veth-Ordinary child_pid cfg = set_up_veth-Ordinary child_pid _

  pub delete_veth-Ordinary : (host_if : Link) → Emits Ordinary (delete_veth K host_if)
  unfolding delete_veth
  delete_veth-Ordinary host_if = search emits_rules depth 9
