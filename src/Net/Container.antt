-- ===== src/Net/Container.antt =====
-- net/net.go: `SetupContainerNetworking`, and the cleanup that it returns.
pub mod Held
pub mod Silent
pub mod InPlace
use microbox.Base.{ℕ, String, true, Option, none, some, List, [], ◌∷◌}
use microbox.Base.Decimal.{decimal}
use microbox.Os.{Error, errorf, Kernel, Io, pure, raise, ◌>>=◌, ◌>>◌, ignoring}
use microbox.Net.{NetworkMode, net_none, net_host, net_bridge, other_network}
use microbox.Net.Ipam.{CidrLibrary, IpamOptions, IpamAllocator, allocate_ip, allocated_ip, release}
use microbox.Net.Veth.{VethConfig, setup_veth_networking}

pub record NetworkConfig : Type 0 where
  pub child_pid : ℕ
  pub mode : NetworkMode

pub record NetworkResult : Type 0 where
  pub ipam : IpamAllocator
  pub cleanup : Io (Unit {0})

abbrev pub subnet_cidr : String
subnet_cidr = "10.44.0.0/24"

abbrev pub bridge_ip : String
bridge_ip = "10.44.0.1/24"

-- 10.44.0.1
abbrev pub reserved_ips : List ℕ
reserved_ips = 170655745 ∷ []

abbrev pub bridge_options : IpamOptions
bridge_options = record { subnet_cidr = subnet_cidr; db_path = ""; reserved = reserved_ips }

abbrev pub veth_config : IpamAllocator → VethConfig
veth_config ipam = record {
  bridge_name = "";
  subnet_cidr = subnet_cidr;
  bridge_ip = bridge_ip;
  container_ip = allocated_ip ipam;
  container_if = "";
  mtu = 0;
  enable_nat = true;
}

abbrev pub mode_number : NetworkMode → ℕ
mode_number net_none = 0
mode_number net_host = 1
mode_number net_bridge = 2
mode_number (other_network n) = n

module _ (K : Kernel) where
  -- The address is released first, and its error is dropped.
  unfoldable pub cleanup_all : IpamAllocator → Io (Unit {0}) → Io (Unit {0})
  cleanup_all ipam cleanup = ignoring (release K ipam) >> cleanup

  -- From the allocated address on. (`none` stands for rounds that are used up: nothing in the source.)
  unfoldable pub connect : ℕ → Option IpamAllocator → Io NetworkResult
  connect child_pid none = raise (errorf "" [])
  connect child_pid (some ipam) = do
    cleanup ← setup_veth_networking K child_pid (veth_config ipam)
    pure (record { ipam = ipam; cleanup = cleanup_all ipam cleanup })

  unfoldable pub setup_in_mode : CidrLibrary → ℕ → ℕ → NetworkMode → Io NetworkResult
  setup_in_mode L rounds child_pid net_bridge = do
    ipam ← allocate_ip K L rounds bridge_options
    connect child_pid ipam
  setup_in_mode L rounds child_pid mode =
      raise (errorf "unsupported network mode: %d" (decimal (mode_number mode) ∷ []))

  -- `SetupContainerNetworking`, for a number of rounds of the loop of `AllocateIP`. (With 2 ^ 32 of
  -- them it returns an address or an error.)
  unfoldable pub setup_container_networking : CidrLibrary → ℕ → NetworkConfig → Io NetworkResult
  setup_container_networking L rounds cfg = setup_in_mode L rounds cfg.child_pid cfg.mode
