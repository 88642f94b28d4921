-- ===== src/Core/Mint.antt =====
-- packages/core/src/validate.ts: mint compatibility.
pub mod Json
pub mod Evaluate
pub mod Compatible
mod Examples
