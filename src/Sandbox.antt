-- ===== src/Sandbox.antt =====
-- sandbox/: the sandboxed process.
pub mod Env
pub mod Capabilities
pub mod Seccomp
pub mod Pipe
pub mod Flags
pub mod Child
pub mod Parent
pub mod System
pub mod Id
pub mod Cgroup
pub mod Sample
mod Tests
mod Scenarios
