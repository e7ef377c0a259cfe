-- ===== src/Examples.antt =====
-- The theorems at concrete inputs: a store in memory, a bucket that counts, small configurations.
pub mod Memory
mod Appends
mod Deliveries
mod Publishing
mod Limits
mod Configs
mod Handlers
mod Systems
mod Coordination
mod Streams
mod Operations
mod Fronts
mod Modules
