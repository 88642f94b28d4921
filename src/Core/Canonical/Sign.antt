-- ===== src/Core/Canonical/Sign.antt =====
-- packages/core/src/sign.ts: offline signing and verification.
use vadum.Base.{Bool, false, not, Option, none, some, ◌==◌, length, if◌then◌else◌, is_some, bool_eq}
use vadum.Base.Int.{ℤ, eq_ℤ}
use vadum.Base.Text.{text_eq}
use vadum.Core.Errors.{
  Result, ok, err, vadum_error, ◌>>=◌, ◌>>◌, throw_if, wire_fee_payer_is_payer,
  canon_amount_mismatch, canon_account_mismatch, sig_length, sig_invalid,
}
use vadum.Core.Kit.{Derivation, Crypto, KeyPair}
use vadum.Core.Types.{Intent, Auth, CanonicalInput, VerifiedPayment}
use vadum.Core.Canonical.Message.{Compiler, build_message}
use vadum.Core.Canonical.Difference.{Decoder, assert_canonical}

-- The amount of a static intent, by the amount that the merchant expects and the one in the AUTH.
static_amount : (expected actual : Option ℤ) → Result ℤ
static_amount (some e) (some a) = if eq_ℤ a e then ok a else err (vadum_error canon_amount_mismatch)
static_amount _ _ = err (vadum_error canon_amount_mismatch)

dynamic_amount : (intended expected actual : Option ℤ) → Result ℤ
dynamic_amount (some i) none none = ok i
dynamic_amount (some i) (some e) none =
    if eq_ℤ e i then ok i else err (vadum_error canon_amount_mismatch)
dynamic_amount _ _ _ = err (vadum_error canon_amount_mismatch)

unfoldable pub resolve_amount : Intent → Auth → (expected : Option ℤ) → Result ℤ
unfolding static_amount dynamic_amount
resolve_amount i a expected =
    if i.is_static
    then static_amount expected a.amount
    else dynamic_amount i.amount expected a.amount

-- A `verifySignature` that throws leaves `valid` false.
unfoldable pub is_valid : Option Bool → Bool
is_valid none = false
is_valid (some b) = b

module _ (d : Derivation) (compile : Compiler) (c : Crypto) where
  unfoldable pub sign_as_payer : Decoder → CanonicalInput → KeyPair → Result Auth
  sign_as_payer decode input key = do
    throw_if (text_eq input.intent.fee_payer input.payer) wire_fee_payer_is_payer
    throw_if (not (bool_eq input.intent.is_static (not (is_some input.intent.amount))))
        canon_amount_mismatch
    throw_if (not (text_eq (c.address_of key) input.payer)) canon_account_mismatch
    message ← build_message d compile input
    assert_canonical d compile decode message input
    ok (record {
      payer = input.payer;
      nonce_ref = input.nonce_ref;
      amount = if input.intent.is_static then some input.amount else none;
      signature = c.sign key message;
    })

  unfoldable pub verify_auth : Intent → Auth → (expected : Option ℤ) → Result VerifiedPayment
  verify_auth i a expected = do
    throw_if (not (length a.signature == 64)) sig_length
    throw_if (text_eq i.fee_payer a.payer) wire_fee_payer_is_payer
    amount ← resolve_amount i a expected
    let input : CanonicalInput = record {
      intent = i;
      payer = a.payer;
      nonce_ref = a.nonce_ref;
      amount = amount;
    }
    message ← build_message d compile input
    throw_if (not (is_valid (c.verify a.payer a.signature message))) sig_invalid
    ok (record { input = input; message_bytes = message; auth = a })
