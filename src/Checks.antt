-- ===== src/Checks.antt =====
-- Runs of the model on small inputs, over a small host: linear memory as a vector of bytes, and
-- encodings of one byte and a payload.
pub mod Host
pub mod Guest
mod Init
mod Wasm
mod Live
pub mod Nodes
mod Fleet
mod Mocks
mod Executed
mod Hostile
mod Setup
mod Refusals
pub mod HostileInit
mod Executable
mod Failures
mod Concurrent
mod Calls
mod Runs
mod Parts
