-- ===== src/Fs.antt =====
-- fs/: the sandbox's root file system. The types and constants here, a module for each file.
pub mod Mount
pub mod Proc
pub mod Dev
pub mod Etc
pub mod Tmp
pub mod Setup
pub mod Preparing
mod Tests
