-- ===== src/Bridge.antt =====
-- A contract and the host together: the SDK (src/lib.rs) linked with the imports of
-- src/runtime/host.rs.
pub mod Service
pub mod Entry
pub mod Read
pub mod Store
pub mod Verdict
pub mod Linked
pub mod Mocked
pub mod NoMemory
pub mod Refusals
pub mod Guest
pub mod Event
pub mod Init
pub mod Agree
