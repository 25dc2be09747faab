-- ===== src/Os.antt =====
-- The operating system as the program meets it: error values, system calls, and actions that make
-- them. The kernel's answers are a parameter.
mod Errors
mod Calls
mod Actions
pub mod Kinds
pub mod Keeps
pub mod Success
pub mod Preserves
pub mod Called
pub mod Sample
pub use Errors.*
pub use Calls.*
unfoldable pub use Actions.*
