-- ===== src/Shared.antt =====
-- apps/shared: what both apps show and limit.
pub mod Limits
pub mod Format
pub mod Copy
