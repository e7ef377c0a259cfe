-- ===== src/Cass.antt =====
-- The Cassandra event store of internal/modules/cassstore/module.go.
pub mod Connect
pub mod Tables
pub mod Driver
pub mod Backoff
pub mod Append
pub mod Outbox
pub mod DeadLetters
pub mod Inbox
pub mod Cleanup
pub mod Calls
