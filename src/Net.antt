-- ===== src/Net.antt =====
-- net/net.go: the network modes.
pub mod Address
pub mod Ipam
pub mod Sample
mod Tests
pub mod Interfaces
pub mod Rules
pub mod Veth
pub mod Container
use microbox.Base.{ℕ, String}

pub data NetworkMode : Type 0 where
  net_none net_host net_bridge : NetworkMode
  other_network : ℕ → NetworkMode

-- `NetworkMode.String`
unfoldable pub network_mode_string : NetworkMode → String
network_mode_string net_none = "none"
network_mode_string net_host = "host"
network_mode_string net_bridge = "bridge"
network_mode_string (other_network n) = "unknown"
