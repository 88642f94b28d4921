-- ===== src/Core.antt =====
-- packages/core: canonical message, validation, offline signing and verification.
pub mod Errors
pub mod Types
pub mod Kit
pub mod Derive
pub mod NonceReturn
pub mod RawKit
pub mod Mint
pub mod Canonical
