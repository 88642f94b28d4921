-- ===== src/Client/Rpc.antt =====
-- packages/client/src/rpc.ts: the chain as the rest of the client sees it. The network answers are a
-- parameter: one record of answers for the duration of one call.
use vadum.Base.{ℕ, List}
use vadum.Base.Int.{ℤ}
use vadum.Base.Text.{Text}
use vadum.Core.Errors.{Result}

pub data NonceAccountState : Type 0 where
  absent uninitialized : NonceAccountState
  initialized : (authority value : Text) (lamports : ℤ) → NonceAccountState

-- The instructions that the pool sends.
pub data SetupInstruction : Type 0 where
  create_account_with_seed : (new_account base seed : Text) (amount : ℤ) → SetupInstruction
  initialize_nonce_account : (nonce_account authority : Text) → SetupInstruction
  withdraw_nonce_account : (nonce_account recipient : Text) (amount : ℤ) → SetupInstruction

-- The members of `VadumRpc` that the pool and the pre-check use: what the network answers while one
-- call runs, the same at each request of the call. A failed request is an error. The other members
-- stand where they are used: the mint in MintCache, the sending and its outcome in Submit.
pub record Rpc : Type 0 where
  pub nonce_rent_exemption : Result ℤ
  pub rent_exemption : ℕ → Result ℤ
  pub nonce_account : Text → Result NonceAccountState
  pub balance : Text → Result ℤ
  pub send_setup : List SetupInstruction → Result (Unit {0})
