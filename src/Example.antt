-- ===== src/Example.antt =====
-- The example contracts: example/src/lib.rs, example2/src/lib.rs and example-malicious/src/lib.rs.
pub mod Counters
pub mod Data
pub mod Malicious
pub mod Reports
pub mod Executed
