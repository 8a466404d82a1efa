-- ===== src/Sdk.antt =====
-- src/lib.rs, src/externf.rs, src/error.rs: the library that a contract is linked with.
pub mod Error
pub mod Context
pub mod Wire
pub mod Extern
pub mod Mock
pub mod Traced
pub mod Steady
pub mod Transfer
pub mod Contract
pub mod Bounds
