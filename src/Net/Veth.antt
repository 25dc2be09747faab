-- ===== src/Net/Veth.antt =====
-- net/veth.go: the bridge and the pair of virtual interfaces.
pub mod Plain
pub mod Names
use microbox.Base.{ℕ, ◌=ᵇ◌, String, ◌<>◌, Bool, true, false, List, [], ◌∷◌, if◌then◌else◌}
use microbox.Base.Text.{is_empty}
use microbox.Base.Decimal.{decimal}
use microbox.Os.{
  Link, net, link_by_name, add_bridge, add_veth, link_attrs, link_up, link_del, link_set_master,
  link_set_ns, is_exist, is_not_exist, Kernel, Io, pure, ◌>>=◌, ◌>>◌, ask, query, wrapping,
  tolerating, branching, perform,
}
use microbox.Net.Interfaces.{
  is_eexist, assign_addr, enable_ipv4_forwarding, configure_container_interface,
}
use microbox.Net.Rules.{add_forwarding_rules, add_masquerade_rule}

pub record VethConfig : Type 0 where
  pub bridge_name : String
  pub subnet_cidr : String
  pub bridge_ip : String
  pub container_ip : String
  pub container_if : String
  pub mtu : ℕ
  pub enable_nat : Bool

abbrev pub veth_default_bridge_name : String
veth_default_bridge_name = "mbx0"

abbrev pub veth_default_container_if : String
veth_default_container_if = "eth0"

abbrev pub veth_default_mtu : ℕ
veth_default_mtu = 1500

-- The defaults for what is not given.
abbrev pub with_defaults : VethConfig → VethConfig
with_defaults cfg = record cfg {
  bridge_name = if is_empty cfg.bridge_name then veth_default_bridge_name else cfg.bridge_name;
  container_if = if is_empty cfg.container_if then veth_default_container_if else cfg.container_if;
  mtu = if cfg.mtu =ᵇ 0 then veth_default_mtu else cfg.mtu;
}

abbrev pub host_name : ℕ → String
host_name child_pid = "vmbx" <> decimal child_pid

abbrev pub peer_name : ℕ → String
peer_name child_pid = "c" <> host_name child_pid

module _ (K : Kernel) where
  unfoldable pub up_with_address : Link → String → Io Link
  up_with_address link cidr = do
    perform K (net (link_up link))
    if is_empty cidr then pure tt else assign_addr K link cidr
    pure link

  unfoldable pub add_new_bridge : String → String → ℕ → Io Link
  add_new_bridge name cidr mtu = do
    tolerating is_exist (perform K (net (add_bridge name mtu)))
    bridge ← query (net (link_attrs name)) (λ l. K.link_attrs l name)
    up_with_address bridge cidr

  -- `CreateBridge`
  unfoldable pub create_bridge : String → String → ℕ → Io Link
  create_bridge name cidr mtu =
      branching (ask (net (link_by_name name)) (λ l. K.link_by_name l name))
        (λ link. up_with_address link cidr) (λ _. add_new_bridge name cidr mtu)

  unfoldable pub attach_to : Link → Link → Io (Unit {0})
  attach_to bridge host_if =
      if host_if.master =ᵇ bridge.index
      then pure tt
      else wrapping "attach host veth to bridge: %w" []
          (tolerating is_eexist (perform K (net (link_set_master host_if bridge))))

  -- `CreateVethPair`
  unfoldable pub create_veth_pair : Link → VethConfig → ℕ → Io (Link × String)
  create_veth_pair bridge cfg child_pid = do
    let host = host_name child_pid
    let peer = peer_name child_pid
    tolerating is_eexist (perform K (net (add_veth host peer cfg.mtu bridge.index)))
    host_if ← ask (net (link_by_name host)) (λ l. K.link_by_name l host)
    peer_if ← ask (net (link_by_name peer)) (λ l. K.link_by_name l peer)
    attach_to bridge host_if
    tolerating is_eexist (perform K (net (link_up host_if)))
    perform K (net (link_set_ns peer_if child_pid))
    pure (host_if, peer)

  unfoldable pub set_nat : VethConfig → Io (Unit {0})
  set_nat cfg =
      if cfg.enable_nat
      then (do
        enable_ipv4_forwarding K
        add_forwarding_rules K cfg.bridge_name cfg.subnet_cidr
        add_masquerade_rule K cfg.bridge_name cfg.subnet_cidr)
      else pure tt

  -- The function that removes the pair.
  unfoldable pub delete_veth : Link → Io (Unit {0})
  delete_veth host_if =
      wrapping "delete host veth: %w" []
        (tolerating is_not_exist (perform K (net (link_del host_if))))

  unfoldable pub set_up_veth : ℕ → VethConfig → Io (Io (Unit {0}))
  set_up_veth child_pid cfg = do
    bridge ← wrapping "create bridge: %w" [] (create_bridge cfg.bridge_name cfg.bridge_ip cfg.mtu)
    ends ← wrapping "veth setup: %w" [] (create_veth_pair bridge cfg child_pid)
    wrapping "configure container iface: %w" [] (
        configure_container_interface K child_pid ends.1 cfg.container_if cfg.container_ip
          cfg.bridge_ip)
    wrapping "host veth up: %w" [] (perform K (net (link_up ends.0)))
    set_nat cfg
    pure (delete_veth ends.0)

  -- `SetupVethNetworking`
  unfoldable pub setup_veth_networking : ℕ → VethConfig → Io (Io (Unit {0}))
  setup_veth_networking child_pid cfg = set_up_veth child_pid (with_defaults cfg)
