-- ===== src/Client/Queue.antt =====
-- packages/client/src/queue.ts: the merchant queue.
pub mod State
pub mod Accept
pub mod Drain
pub mod Load
pub mod Preserved
pub mod Loaded
pub mod Duplicates
pub mod Exposure
pub mod Accepts
pub mod Counted
pub mod Recorded
pub mod Idle
pub mod IdleLoads
pub mod Resend
pub mod Closes
mod Examples
mod DrainExamples
