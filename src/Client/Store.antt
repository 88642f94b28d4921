-- ===== src/Client/Store.antt =====
-- packages/client/src/store.ts: the key-value store.
pub mod Entries
pub mod Reads
mod Examples
