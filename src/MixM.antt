-- ===== src/MixM.antt =====
-- src/ambix-MixM: the variant of the module for mixed mode, where it differs from the hybrid one.
pub mod Callbacks
pub mod Walk
pub mod Pids
pub mod Selection
pub mod Same
pub mod Memcheck
mod Tests
mod MemcheckTests
