-- ===== src/Client/Pool.antt =====
-- packages/client/src/pool.ts: the nonce pool, the single owner of the payer's slot state.
pub mod State
pub mod Memory
pub mod Offline
pub mod Chain
pub mod Online
pub mod SpendSums
pub mod SpendBounds
pub mod Keeps
pub mod Attempt
pub mod SpendLimit
pub mod Handover
pub mod Reservations
pub mod Refills
pub mod Returns
mod Examples
