-- ===== src/Client.antt =====
-- packages/client: chain access, the nonce pool, the merchant queue and submission.
pub mod Rpc
pub mod Pool
pub mod NonceCheck
mod Setting
pub mod Queue
pub mod MintCache
pub mod Store
pub mod Submit
pub mod Network
