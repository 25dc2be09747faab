-- ===== src/Net/Container/InPlace.antt =====
-- The routes and the names of interfaces that a container's set-up changes, and the namespace set last.
use microbox.Base.{ℕ, Option, none, some, ◌≡◌, refl}
use microbox.Os.{
  Call, NetCall, db, mkdir_all, net, route_replace, link_set_name, Link, link_up, write_fd, Log,
  got, Error, Kernel, raise,
}
use microbox.Os.Keeps.{Emits-perform, Emits-raise}
use microbox.Os.Preserves.{
  Preserves, Preserves-bind, Preserves-pure, Preserves-wrapping, preserves_rules,
}
use microbox.Net.{NetworkMode, net_none, net_host, net_bridge, other_network}
use microbox.Net.Ipam.{CidrLibrary, IpamAllocator}
use microbox.Net.Ipam.Storing.{Storing, allocate_ip-Storing}
use microbox.Net.Veth.{VethConfig, set_up_veth, setup_veth_networking}
use microbox.Net.Veth.Plain.{Host, HostNet, create_bridge-Host, create_veth_pair-Host, set_nat-Host}
use microbox.Net.Container.{
  NetworkConfig, bridge_options, connect, setup_in_mode, setup_container_networking,
}
use microbox.Net.Interfaces.InPlace.{InPlace, Unmoved, Preserves-Unmoved, configure-InPlace}

HostNet-Unmoved : (c : NetCall) → HostNet c → Unmoved (net c)
HostNet-Unmoved (route_replace index gw_ip) h = absurd h
HostNet-Unmoved (link_set_name link name) h = absurd h
HostNet-Unmoved _ h = refl

Host-Unmoved : (c : Call) → Host c → Unmoved c
Host-Unmoved (db c) h = absurd h
Host-Unmoved (write_fd fd text) h = absurd h
Host-Unmoved (net c) h = HostNet-Unmoved c h
Host-Unmoved _ h = refl

Storing-Unmoved : (c : Call) → Storing c → Unmoved c
Storing-Unmoved (db c) h = refl
Storing-Unmoved (mkdir_all p m) h = refl
Storing-Unmoved _ h = absurd h

module _ (home target : ℕ) (K : Kernel) (child_pid : ℕ)
    (only : (l : Log) (ns : ℕ) → K.ns_get_pid l child_pid ≡ got ns → ns ≡ target) where
  set_up_veth-InPlace :
      (cfg : VethConfig) → Preserves (InPlace home target) (set_up_veth K child_pid cfg)
  unfolding set_up_veth
  set_up_veth-InPlace cfg =
      let bridge =
        Preserves-Unmoved home target Host _ Host-Unmoved
          (create_bridge-Host K cfg.bridge_name cfg.bridge_ip cfg.mtu) in
      let pair = λ (b : Link).
        Preserves-Unmoved home target Host _ Host-Unmoved
          (create_veth_pair-Host K b cfg child_pid) in
      let nat = Preserves-Unmoved home target Host _ Host-Unmoved (set_nat-Host K cfg) in
      let up = λ (link : Link).
        Preserves-Unmoved home target Unmoved _ (λ c u. u)
          (Emits-perform K (net (link_up link)) refl) in
      Preserves-bind _ _ (Preserves-wrapping _ _ _ bridge) λ b.
        Preserves-bind _ _ (Preserves-wrapping _ _ _ (pair b)) λ ends.
          Preserves-bind _ _
            (Preserves-wrapping _ _ _ (configure-InPlace home target K child_pid only _ _ _ _))
            λ _.
              Preserves-bind _ _ (Preserves-wrapping _ _ _ (up ends.0))
                λ _. Preserves-bind _ _ nat (λ _. Preserves-pure _)

  raise-InPlace : {A : Type 0} (e : Error) → Preserves (InPlace home target) (raise {A = A} e)
  raise-InPlace e = Preserves-Unmoved home target Unmoved _ (λ c u. u) (Emits-raise e)

  connect-InPlace :
      (ipam : Option IpamAllocator) → Preserves (InPlace home target) (connect K child_pid ipam)
  unfolding connect setup_veth_networking
  connect-InPlace none = raise-InPlace _
  connect-InPlace (some ipam) = search (preserves_rules, set_up_veth-InPlace)

  setup_in_mode-InPlace :
      (L : CidrLibrary) (rounds : ℕ) (mode : NetworkMode)
      → Preserves (InPlace home target) (setup_in_mode K L rounds child_pid mode)
  unfolding setup_in_mode
  setup_in_mode-InPlace L rounds net_bridge =
      let allocated =
        Preserves-Unmoved home target Storing _ Storing-Unmoved
          (allocate_ip-Storing K L rounds bridge_options) in
      search (preserves_rules, allocated, connect-InPlace)
  setup_in_mode-InPlace L rounds net_none = raise-InPlace _
  setup_in_mode-InPlace L rounds net_host = raise-InPlace _
  setup_in_mode-InPlace L rounds (other_network n) = raise-InPlace _

-- The order of the calls of `SetupContainerNetworking`, whatever fails in it: where a route is replaced
-- or an interface renamed, the namespace that was set last, with success, is the child's (the one
-- that netns gets from its pid, whenever it is asked), if this is so in the log before. The calls are
-- taken as those of one thread: the code does not lock its goroutine to a thread, and what another
-- thread is in is not said.
pub setup-InPlace :
    (K : Kernel) (L : CidrLibrary) (rounds home target : ℕ) (cfg : NetworkConfig)
    → ((l : Log) (ns : ℕ) → K.ns_get_pid l cfg.child_pid ≡ got ns → ns ≡ target)
    → (l : Log) → InPlace home target l
    → InPlace home target (setup_container_networking K L rounds cfg l).1
unfolding setup_container_networking
setup-InPlace K L rounds home target cfg only =
    (setup_in_mode-InPlace home target K cfg.child_pid only L rounds cfg.mode).at
