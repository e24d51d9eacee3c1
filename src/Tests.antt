-- ===== src/Tests.antt =====
-- The theorems at concrete inputs: an SDK that can be run, threads, memories and streams.
pub mod Demo
pub mod Calm
mod Errors
mod Streams
mod Sessions
mod Ownership
mod Signing
mod Files
mod Protocol
mod Cpp
