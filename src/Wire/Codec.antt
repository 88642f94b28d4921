-- ===== src/Wire/Codec.antt =====
-- packages/wire/src/codec.ts: the four payload types, in the check order of the wire format.
pub mod Flags
pub mod Bytes
pub mod Header
pub mod Payloads
pub mod Writes
pub mod Accepts
pub mod IntentLayout
pub mod IntentRoundTrip
pub mod StaticRoundTrip
pub mod AuthLayout
pub mod AuthRoundTrip
pub mod ReturnRoundTrip
mod Examples
