-- ===== src/Core/NonceReturn.antt =====
-- packages/core/src/nonce-return.ts: the signed recovery payload. Both sides rebuild the statement, so
-- a return verifies only for the payer and the prior value that it was issued for.
pub mod Verified
mod Examples
use vadum.Base.{ℕ, Bool, not, Option, none, some, List, ◌∷◌, ◌++◌, length, ◌==◌, if◌then◌else◌}
use vadum.Base.Number.{Number, to_uint8}
use vadum.Base.Text.{Text, codes, text_eq}
use vadum.Core.Derive.{nonce_seed}
use vadum.Core.Errors.{
  Result, ok, err, foreign, vadum_error, ◌>>=◌, ◌>>◌, throw_if, or_throw, canon_account_mismatch,
  nonce_return_untrusted,
}
use vadum.Core.Kit.{Kit, Crypto, KeyPair}

-- ASCII, 21 bytes.
abbrev pub nonce_return_domain : List ℕ
nonce_return_domain = codes "vadum:nonce-return:v1"

pub record NonceReturnStatement : Type 0 where
  pub payer : Text
  pub nonce_index : Number
  pub spent_against_value : Text
  pub new_nonce_value : Text

pub record ReceivedReturn : Type 0 where
  pub nonce_index : Number
  pub new_nonce_value : Text
  pub signature : List ℕ

pub record ReturnLedger : Type 0 where
  pub payer : Text
  pub merchant : Text
  pub spent_against_value : Text

unfoldable pub only_32 : List ℕ → Option (List ℕ)
only_32 bytes = if length bytes == 32 then some bytes else none

-- A base58 value that must decode to exactly 32 bytes.
unfoldable pub base58_bytes32 : Kit → Text → Option (List ℕ)
unfolding only_32
base58_bytes32 k value = elim (k.base58_encode value) [ none ↦ none | some bytes ↦ only_32 bytes ]

-- The signed bytes: the domain, the payer, the index, the spent value and the new one.
unfoldable pub nonce_return_signing_bytes : Kit → NonceReturnStatement → Result (List ℕ)
nonce_return_signing_bytes k s = do
  _seed ← nonce_seed s.nonce_index
  spent ← or_throw (base58_bytes32 k s.spent_against_value) (vadum_error canon_account_mismatch)
  next ← or_throw (base58_bytes32 k s.new_nonce_value) (vadum_error canon_account_mismatch)
  payer ← or_throw (k.address_encode s.payer) foreign
  ok (nonce_return_domain ++ (payer ++ (to_uint8 s.nonce_index ∷ (spent ++ next))))

unfoldable pub sign_nonce_return : Kit → Crypto → NonceReturnStatement → KeyPair → Result (List ℕ)
sign_nonce_return k c s key = do bytes ← nonce_return_signing_bytes k s; ok (c.sign key bytes)

-- `try { … } catch { throw untrusted }`.
unfoldable pub or_untrusted {ℓ} : {A : Type ℓ} → Result A → Result A
or_untrusted (ok a) = ok a
or_untrusted (err e) = err (vadum_error nonce_return_untrusted)

unfoldable pub statement_of : ReceivedReturn → ReturnLedger → NonceReturnStatement
statement_of received ledger = record {
  payer = ledger.payer;
  nonce_index = received.nonce_index;
  spent_against_value = ledger.spent_against_value;
  new_nonce_value = received.new_nonce_value;
}

unfoldable pub check_return_signature : Kit → Crypto → ReceivedReturn → ReturnLedger → Result Bool
check_return_signature k c received ledger = do
  bytes ← nonce_return_signing_bytes k (statement_of received ledger)
  or_throw (c.verify ledger.merchant received.signature bytes) foreign

unfoldable pub verify_nonce_return :
    Kit → Crypto → ReceivedReturn → ReturnLedger → Result NonceReturnStatement
verify_nonce_return k c received ledger = do
  throw_if (text_eq received.new_nonce_value ledger.spent_against_value) nonce_return_untrusted
  throw_if (not (length received.signature == 64)) nonce_return_untrusted
  valid ← or_untrusted (check_return_signature k c received ledger)
  throw_if (not valid) nonce_return_untrusted
  ok (statement_of received ledger)
