-- ===== src/Client/NonceCheck.antt =====
-- packages/client/src/nonce-check.ts: the look at the nonce account that an AUTH claims.
use vadum.Base.{not, Bool, if◌then◌else◌}
use vadum.Base.Text.{Text, text_eq}
use vadum.Core.Derive.{derive_nonce_address}
use vadum.Core.Errors.{
  Result, ok, vadum_error, ◌>>=◌, ◌>>◌, or_throw, throw_if, internal_not_applicable,
}
use vadum.Core.Kit.{Derivation}
use vadum.Core.Types.{Lifetime, nonce, fresh, VerifiedPayment}
use vadum.Client.Rpc.{Rpc, NonceAccountState, absent, uninitialized, initialized}

pub data NonceVerdict : Type 0 where
  as_claimed stale : (on_chain_value : Text) → NonceVerdict
  no_account not_initialized wrong_authority : NonceVerdict

-- `verdict.ok`.
unfoldable pub is_as_claimed : NonceVerdict → Bool
is_as_claimed (as_claimed value) = Bool.true
is_as_claimed _ = Bool.false

unfoldable pub on_nonce_path : Lifetime → Bool
on_nonce_path nonce = Bool.true
on_nonce_path (fresh blockhash height) = Bool.false

unfoldable pub verdict_of : (payer claimed : Text) → NonceAccountState → NonceVerdict
verdict_of payer claimed absent = no_account
verdict_of payer claimed uninitialized = not_initialized
verdict_of payer claimed (initialized authority value lamports) =
    if not (text_eq authority payer)
    then wrong_authority
    else if text_eq value claimed
    then as_claimed value
    else stale value

unfoldable pub precheck_nonce : Rpc → Derivation → VerifiedPayment → Result NonceVerdict
precheck_nonce rpc d payment = do
  throw_if (not (on_nonce_path payment.input.intent.lifetime)) internal_not_applicable
  claimed ← or_throw payment.input.nonce_ref (vadum_error internal_not_applicable)
  address ← derive_nonce_address d payment.input.payer claimed.index
  account ← rpc.nonce_account address
  ok (verdict_of payment.input.payer claimed.value account)
