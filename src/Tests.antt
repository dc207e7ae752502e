-- ===== src/Tests.antt =====
-- Concrete data, and the theorems at concrete inputs.
pub mod Data
mod Tables
mod Messages
mod Buffers
mod Routing
mod Runs
mod Sessions
