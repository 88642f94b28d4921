-- ===== src/Client/Submit.antt =====
-- packages/client/src/submit.ts: submission, and what a failed send cost.
pub mod FeeCharged
mod Examples
use vadum.Base.{
  ℕ, Bool, true, false, not, ◌&&◌, ◌||◌, Option, none, some, List, [], ◌∷◌, ◌==◌, any,
  if◌then◌else◌,
}
use vadum.Base.Int.{ℤ}
use vadum.Base.Text.{Text, codes}
use vadum.Core.Derive.{derive_nonce_address}
use vadum.Core.Errors.{
  ErrorCode, Failure, Result, ok, err, vadum_error, ◌>>=◌, submit_already_processed,
  submit_execution_failed, submit_blockhash_expired, submit_rpc_unavailable, submit_nonce_stale,
  submit_nonce_absent, internal_not_applicable,
}
use vadum.Core.Canonical.Wire.{TransactionKit, build_wire_transaction}
use vadum.Core.Kit.{Derivation, Crypto, KeyPair}
use vadum.Core.Types.{Lifetime, nonce, fresh, NonceRef, VerifiedPayment}
use vadum.Client.NonceCheck.{
  NonceVerdict, as_claimed, stale, no_account, not_initialized, wrong_authority, precheck_nonce,
}
use vadum.Client.Pool.Chain.{value_of}
use vadum.Client.Rpc.{Rpc}
use vadum.Client.Store.Entries.{starts_with}

pub data SubmitOutcome : Type 0 where
  did_settle : (signature : Text) (new_nonce_value : Option Text) → SubmitOutcome
  did_fail : (code : ErrorCode) (fee_charged : Bool) → SubmitOutcome

pub data SignatureOutcome : Type 0 where
  landed_ok landed_failed not_seen : SignatureOutcome

pub data PaymentLifetime : Type 0 where
  by_nonce : (value account authority : Text) → PaymentLifetime
  by_blockhash : (blockhash : Text) (last_valid_block_height : ℤ) → PaymentLifetime

-- The part of the network that submission uses, and the text that an error shows.
pub record Sender : Type 0 where
  pub signature_of : List ℕ → Result Text
  pub send_payment : List ℕ → PaymentLifetime → Result Text
  pub signature_outcome : Text → Result SignatureOutcome
  pub error_text : Failure → Text

-- `message.includes(marker)`.
unfoldable pub includes : Text → Text → Bool
includes [] marker = starts_with marker []
includes (c ∷ cs) marker = starts_with marker (c ∷ cs) || includes cs marker

execution_markers : List Text
execution_markers =
    codes "InstructionError"
    ∷ codes "custom program error"
    ∷ codes "insufficient funds"
    ∷ codes "insufficient lamports"
    ∷ codes "AccountFrozen"
    ∷ []

expiry_markers : List Text
expiry_markers =
    codes "BlockhashNotFound"
    ∷ codes "block height exceeded"
    ∷ codes "BlockHeightExceeded"
    ∷ codes "TransactionExpired"
    ∷ []

transport_markers : List Text
transport_markers =
    codes "fetch failed"
    ∷ codes "Failed to fetch"
    ∷ codes "NetworkError"
    ∷ codes "ECONNREFUSED"
    ∷ codes "ETIMEDOUT"
    ∷ codes "socket hang up"
    ∷ codes "timed out"
    ∷ codes "WebSocket failed to connect"
    ∷ codes "CHANNEL_FAILED_TO_CONNECT"
    ∷ []

unfoldable pub code_from_error : Text → Option ErrorCode
unfolding execution_markers expiry_markers transport_markers
code_from_error message =
    if includes message (codes "already been processed")
      || includes message (codes "AlreadyProcessed")
    then some submit_already_processed
    else if any (includes message) execution_markers
    then some submit_execution_failed
    else if any (includes message) expiry_markers
    then some submit_blockhash_expired
    else if any (includes message) transport_markers
    then some submit_rpc_unavailable
    else none

-- `fromError ?? 'SUBMIT_RPC_UNAVAILABLE'`.
unfoldable pub or_unavailable : Option ErrorCode → ErrorCode
or_unavailable none = submit_rpc_unavailable
or_unavailable (some c) = c

unfoldable pub payment_lifetime :
    Derivation → Lifetime → Text → Option NonceRef → Result PaymentLifetime
payment_lifetime d nonce payer none = err (vadum_error internal_not_applicable)
payment_lifetime d nonce payer (some r) = do
  address ← derive_nonce_address d payer r.index
  ok (by_nonce r.value address payer)
payment_lifetime d (fresh blockhash height) payer r = ok (by_blockhash blockhash height)

unfoldable pub new_nonce_value_of : Rpc → Derivation → Text → Option NonceRef → Result (Option Text)
new_nonce_value_of rpc d payer none = ok none
new_nonce_value_of rpc d payer (some r) = do
  address ← derive_nonce_address d payer r.index
  account ← rpc.nonce_account address
  ok (value_of account)

unfoldable pub outcome_of_verdict : Option ErrorCode → NonceVerdict → SubmitOutcome
outcome_of_verdict code (as_claimed value) = did_fail (or_unavailable code) false
outcome_of_verdict code (stale value) = did_fail submit_nonce_stale false
outcome_of_verdict code no_account = did_fail submit_nonce_absent false
outcome_of_verdict code not_initialized = did_fail submit_nonce_absent false
outcome_of_verdict code wrong_authority = did_fail submit_nonce_absent false

unfoldable pub is_processed : Option ErrorCode → Bool
is_processed (some submit_already_processed) = true
is_processed _ = false

module _ (rpc : Rpc) (sender : Sender) (d : Derivation) (payment : VerifiedPayment) where
  unfoldable pub new_value : Result (Option Text)
  new_value = new_nonce_value_of rpc d payment.input.payer payment.input.nonce_ref

  -- Nothing landed: which free failure it was.
  unfoldable pub free_failure : PaymentLifetime → Option ErrorCode → Result SubmitOutcome
  unfolding is_processed
  free_failure lifetime code =
      if is_processed code then ok (did_fail submit_already_processed false) else elim lifetime [
        | by_blockhash blockhash height ↦ ok (did_fail (or_unavailable code) false)
        | by_nonce value account authority ↦ do
          verdict ← precheck_nonce rpc d payment
          ok (outcome_of_verdict code verdict)
      ]

  unfoldable pub after_lookup :
      PaymentLifetime → Text → Failure → SignatureOutcome → Result SubmitOutcome
  unfolding new_value
  after_lookup lifetime signature e landed_ok = do
    value ← new_value
    ok (did_settle signature value)
  after_lookup lifetime signature e landed_failed = ok (did_fail submit_execution_failed true)
  after_lookup lifetime signature e not_seen =
      free_failure lifetime (code_from_error (sender.error_text e))

  -- What the `try` block answers, or what its `catch` makes of the error.
  unfoldable pub after_send : PaymentLifetime → Text → Result SubmitOutcome → Result SubmitOutcome
  after_send lifetime signature (ok outcome) = ok outcome
  after_send lifetime signature (err e) = do
    outcome ← sender.signature_outcome signature
    after_lookup lifetime signature e outcome

  unfoldable pub send : List ℕ → PaymentLifetime → Result SubmitOutcome
  unfolding new_value
  send wire lifetime = do
    signature ← sender.send_payment wire lifetime
    value ← new_value
    ok (did_settle signature value)

  unfoldable pub submit : Crypto → TransactionKit → KeyPair → Result SubmitOutcome
  submit c t key = do
    lifetime ←
        payment_lifetime d payment.input.intent.lifetime payment.input.payer payment.input.nonce_ref
    wire ← build_wire_transaction c t payment key
    signature ← sender.signature_of wire
    after_send lifetime signature (send wire lifetime)
