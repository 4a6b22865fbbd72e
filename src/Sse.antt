-- ===== src/Sse.antt =====
-- The two readers of server-sent events: conformance/src/lib/sse.ts and sdk/typescript/src/sse.ts.
pub mod Parser
pub mod Chunks
pub mod Frames
pub mod Clients
pub mod Delivery
