-- ===== src/Client/Network/Requests.antt =====
-- packages/client/src/rpc.ts: the reads of `createRpc`, each retried, and the setup transactions.
use vadum.Base.{ℕ, Bool, false, ◌||◌, Option, none, some, List, ◌==◌, if◌then◌else◌}
use vadum.Base.Int.{ℤ}
use vadum.Base.Text.{Text, codes}
use vadum.Core.Errors.{vadum_error, mint_incompatible, Result, ok, err, ◌>>=◌}
use vadum.Core.Mint.Evaluate.{RawMintData}
use vadum.Client.Network.Confirm.{Node, broadcast_and_poll}
use vadum.Client.Network.Project.{AccountInfo, project_mint}
use vadum.Client.Network.Retry.{Answer, answered, threw, result_of, with_retry}
use vadum.Client.Rpc.{Rpc, NonceAccountState, absent, uninitialized, initialized, SetupInstruction}
use vadum.Client.Submit.{SignatureOutcome, landed_ok, landed_failed, not_seen, includes}

pub data Cluster : Type 0 where
  devnet mainnet_beta testnet localnet : Cluster

unfoldable pub cluster_of : Text → Cluster
cluster_of endpoint =
    if includes endpoint (codes "devnet")
    then devnet
    else if includes endpoint (codes "testnet")
    then testnet
    else if includes endpoint (codes "localhost") || includes endpoint (codes "127.0.0.1")
    then localnet
    else mainnet_beta

-- The accounts that kit decodes.
pub record NonceData : Type 0 where
  pub state : ℕ
  pub authority : Text
  pub blockhash : Text
  pub lamports : ℤ

pub record TokenData : Type 0 where
  pub amount : ℤ
  pub state : ℕ

-- What the node answers to each request, attempt by attempt.
pub record Requests : Type 0 where
  pub nonce_size : ℕ
  pub rent : (size : ℕ) → ℕ → Answer ℤ
  pub account_info : Text → ℕ → Answer (Option AccountInfo)
  pub nonce_data : Text → ℕ → Answer (Option NonceData)
  pub token_data : Text → ℕ → Answer (Option TokenData)
  pub balance_of : Text → ℕ → Answer ℤ
  pub fails : Text → ℕ → Answer (Option Bool)
  pub latest_blockhash : ℕ → Answer Text

unfoldable pub nonce_state : Option NonceData → NonceAccountState
nonce_state none = absent
nonce_state (some n) =
    if n.state == 1 then initialized n.authority n.blockhash n.lamports else uninitialized

unfoldable pub outcome_of_status : Option Bool → SignatureOutcome
outcome_of_status none = not_seen
outcome_of_status (some has_failed) = if has_failed then landed_failed else landed_ok

unfoldable pub fetched_account : Option AccountInfo → Text → ℕ → Result (RawMintData × ℕ)
fetched_account none mint now = err (vadum_error mint_incompatible)
fetched_account (some account) mint now = do raw ← project_mint mint account; ok (raw, now)

token_amount : Option TokenData → Option ℤ
token_amount none = none
token_amount (some t) = some t.amount

is_frozen : Option TokenData → Option Bool
is_frozen none = none
is_frozen (some t) = some (t.state == 2)

module _ (r : Requests) where
  unfoldable pub get_rent_exemption : ℕ → Result ℤ
  get_rent_exemption size = result_of (with_retry (r.rent size))

  unfoldable pub get_nonce_rent_exemption : Result ℤ
  get_nonce_rent_exemption = result_of (with_retry (r.rent r.nonce_size))

  -- `now` is `Date.now()` before the request.
  unfoldable pub get_mint_account : (now : ℕ) → Text → Result (RawMintData × ℕ)
  get_mint_account now mint = do
    value ← result_of (with_retry (r.account_info mint))
    fetched_account value mint now

  unfoldable pub get_nonce_account : Text → Result NonceAccountState
  get_nonce_account address = do
    account ← result_of (with_retry (r.nonce_data address))
    ok (nonce_state account)

  unfoldable pub get_token_balance : Text → Result (Option ℤ)
  unfolding token_amount
  get_token_balance ata = do
    account ← result_of (with_retry (r.token_data ata))
    ok (token_amount account)

  unfoldable pub is_ata_frozen : Text → Result (Option Bool)
  unfolding is_frozen
  is_ata_frozen ata = do account ← result_of (with_retry (r.token_data ata)); ok (is_frozen account)

  unfoldable pub get_balance : Text → Result ℤ
  get_balance address = result_of (with_retry (r.balance_of address))

  unfoldable pub get_signature_outcome : Text → Result SignatureOutcome
  get_signature_outcome signature = do
    status ← result_of (with_retry (r.fails signature))
    ok (outcome_of_status status)

  sign_and_poll :
      (fuel : ℕ)
      → (sign : List SetupInstruction → Text → Answer Text) → Node
      → List SetupInstruction
      → Answer Text
      → Option (Answer Text)
  sign_and_poll fuel sign node instructions (threw t) = some (threw t)
  sign_and_poll fuel sign node instructions (answered blockhash) =
      elim (sign instructions blockhash) [
        | threw t ↦ some (threw t)
        | answered signature ↦ broadcast_and_poll node signature fuel false
      ]

  -- `sign` is kit's signing of the instructions with a blockhash, down to the signature.
  unfoldable pub send_setup :
      (fuel : ℕ)
      → (sign : List SetupInstruction → Text → Answer Text) → Node
      → List SetupInstruction
      → Option (Answer Text)
  unfolding sign_and_poll
  send_setup fuel sign node instructions =
      sign_and_poll fuel sign node instructions (with_retry r.latest_blockhash)

  -- The part of the interface that the pool and the pre-check use; `setup` is what its `sendSetup` does.
  unfoldable pub create_rpc : (setup : List SetupInstruction → Result (Unit {0})) → Rpc
  create_rpc setup = record {
    nonce_rent_exemption = get_nonce_rent_exemption;
    rent_exemption = get_rent_exemption;
    nonce_account = get_nonce_account;
    balance = get_balance;
    send_setup = setup;
  }
