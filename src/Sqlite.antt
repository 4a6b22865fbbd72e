-- ===== src/Sqlite.antt =====
-- The SQLite reference host, examples/hosts/sqlite/src/server.ts: its rows and claims, and the
-- execution of a run in one process, with what other processes may do to the row meanwhile.
pub mod Rows
pub mod Engine
pub mod Claims
pub mod Heartbeats
pub mod Connections
pub mod Turns
pub mod Live
pub mod Feeds
pub mod Backlog
pub mod Broadcast
pub mod Cancelling
pub mod Endings
pub mod Host
pub mod Reads
pub mod Router
pub mod Orphans
pub mod Steps
pub mod Takeover
pub mod Shutdown
pub mod Handover
pub mod World
pub mod Idempotency
pub mod Access
pub mod Numbering
pub mod Tables
pub mod Lifetimes
pub mod Agreement
pub mod Simulation
pub mod Refinement
pub mod Alongside
pub mod Lockstep
pub mod Streaming
