-- ===== src/Placement.antt =====
-- src/ambix_hyb-mod.c: the state of the kernel module (its global variables). The operations
-- stand in the modules below: `Pids` (the list of bound processes), `Callbacks` and `Walk` (the
-- page walks), `Switch`, `Request` (the request handler) and `Reply` (the answer's packets).
pub mod State
pub mod Pids
pub mod Callbacks
pub mod Walk
pub mod Switch
pub mod Request
pub mod Lifecycle
pub mod Reply
pub mod Machine
pub mod Paged
pub mod DemandTests
pub mod Tests
mod ListTests
