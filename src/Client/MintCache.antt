-- ===== src/Client/MintCache.antt =====
-- packages/client/src/mint.ts: the mint compatibility cache.
pub mod Cache
pub mod Staleness
mod Examples
