-- ===== src/Reference/Statement.antt =====
-- packages/fixtures/src/nonce-return.ts: the reference statement of a nonce return, and its rejection.
use vadum.Base.{ℕ, not, Option, none, some, List, ◌∷◌, ◌++◌, if◌then◌else◌}
use vadum.Base.Number.{to_uint8}
use vadum.Base.Text.{codes, text_eq}
use vadum.Core.Errors.{Result, ok, foreign, or_throw, ◌>>=◌}
use vadum.Core.Kit.{Kit, Crypto, KeyPair}
use vadum.Core.NonceReturn.{NonceReturnStatement, ReceivedReturn, ReturnLedger}
use vadum.Reference.Bytes.{address_bytes, base58_bytes32}

abbrev pub domain : List ℕ
domain = codes "vadum:nonce-return:v1"

-- The fields are encoded in the order in which they are written.
unfoldable pub signing_bytes : Kit → NonceReturnStatement → Result (List ℕ)
signing_bytes k s = do
  payer ← address_bytes k s.payer
  spent ← base58_bytes32 k s.spent_against_value
  next ← base58_bytes32 k s.new_nonce_value
  ok (domain ++ (payer ++ (to_uint8 s.nonce_index ∷ (spent ++ next))))

unfoldable pub sign : Kit → Crypto → NonceReturnStatement → KeyPair → Result (List ℕ)
sign k c s key = do bytes ← signing_bytes k s; ok (c.sign key bytes)

pub data Rejection : Type 0 where
  bad_signature unchanged_value : Rejection

-- Why a payer rejects a return, or `none` where it accepts it. The key of the merchant is named by its
-- address.
unfoldable pub rejection : Kit → Crypto → ReceivedReturn → ReturnLedger → Result (Option Rejection)
rejection k c received ledger = do
  bytes ← signing_bytes k (record {
    payer = ledger.payer;
    nonce_index = received.nonce_index;
    spent_against_value = ledger.spent_against_value;
    new_nonce_value = received.new_nonce_value;
  })
  valid ← or_throw (c.verify ledger.merchant received.signature bytes) foreign
  ok (
      if not valid
      then some bad_signature
      else if text_eq received.new_nonce_value ledger.spent_against_value
      then some unchanged_value
      else none)
