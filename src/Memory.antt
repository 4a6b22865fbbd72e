-- ===== src/Memory.antt =====
-- The in-memory reference host, examples/hosts/in-memory/src/server.ts. The children model its parts.
pub mod Run
pub mod Engine
pub mod Turns
pub mod Log
pub mod Invariant
pub mod Progress
pub mod Fairness
pub mod Plan
pub mod Cancel
pub mod History
pub mod Host
pub mod Reads
pub mod Router
pub mod Flags
pub mod World
pub mod Idempotency
pub mod Cursor
pub mod Access
pub mod Streams
