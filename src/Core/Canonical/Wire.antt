-- ===== src/Core/Canonical/Wire.antt =====
-- packages/core/src/sign.ts: `buildWireTransaction`.
use vadum.Base.{ℕ, not, Option, none, some, List, ◌==◌, length, map, any, is_some, if◌then◌else◌}
use vadum.Base.Text.{Text, text_eq}
use vadum.Core.Errors.{
  Result, foreign, ◌>>=◌, ◌>>◌, throw_if, or_throw, sig_fee_payer_missing, sig_length,
}
use vadum.Core.Kit.{Crypto, KeyPair}
use vadum.Core.Types.{VerifiedPayment}

abbrev pub Signatures : Type 0
Signatures = List (Text × Option (List ℕ))

-- What kit does with a transaction: the signers of a message (none where it does not decode), the
-- signature of a key filled in, and the wire bytes.
pub record TransactionKit : Type 0 where
  pub signers_of : List ℕ → Option (List Text)
  pub partially_sign : KeyPair → List ℕ → Signatures → Result Signatures
  pub encode : List ℕ → Signatures → Result (List ℕ)

unfoldable pub slot_for : Text → List ℕ → Text → Text × Option (List ℕ)
slot_for payer signature address = (address, if text_eq address payer then some signature else none)

unfoldable pub build_wire_transaction :
    Crypto → TransactionKit → VerifiedPayment → KeyPair → Result (List ℕ)
build_wire_transaction c t payment key = do
  throw_if (not (text_eq (c.address_of key) payment.input.intent.fee_payer)) sig_fee_payer_missing
  throw_if (not (length payment.auth.signature == 64)) sig_length
  signers ← or_throw (t.signers_of payment.message_bytes) foreign
  signed ←
      t.partially_sign key payment.message_bytes
        (map (slot_for payment.auth.payer payment.auth.signature) signers)
  throw_if (any (λ s. not (is_some s.1)) signed) sig_fee_payer_missing
  t.encode payment.message_bytes signed
