-- ===== src/Client/Network.antt =====
-- packages/client/src/rpc.ts: `createRpc`, the access to a node of the chain.
pub mod Retry
pub mod Attempts
pub mod Confirm
pub mod Ends
pub mod Landed
pub mod Project
pub mod Requests
pub mod Evaluable
mod Examples
