-- ===== src/Runtime.antt =====
-- src/runtime: the host that compiles, validates and executes contract modules.
pub mod Error
pub mod Config
pub mod Memory
pub mod Linker
pub mod Staging
pub mod Failures
pub mod Imports
pub mod Engine
pub mod Metrics
pub mod Execute
pub mod Validate
pub mod Wasm
pub mod Compile
pub mod Fingerprint
