-- ===== src/Controller.antt =====
-- src/ambix_hyb-ctl.c: the controller in user space. `Comm` sends requests to the module and reads
-- its answers; `Migration` moves the pages.
pub mod Comm
pub mod RoundTrip
pub mod Migration
pub mod Migrated
pub mod Switch
pub mod Switched
pub mod Exchange
pub mod Restart
pub mod Find
pub mod Searched
pub mod Counted
pub mod Demanded
pub mod Exchanged
pub mod Buffers
pub mod Memcheck
pub mod Threads
pub mod Bind
pub mod Commands
pub mod Calls
pub mod Socket
mod Tests
mod FindTests
mod ThreadTests
pub mod MemcheckTests
mod LineTests
