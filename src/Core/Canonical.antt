-- ===== src/Core/Canonical.antt =====
-- packages/core: the canonical message, its check, and offline signing and verification.
pub mod Message
pub mod Difference
pub mod Sign
pub mod RoundTrip
pub mod Verified
mod Examples
pub mod Wire
