-- ===== src/Core/NonceReturn/Examples.antt =====
-- Nonce returns at concrete inputs.
use vadum.Base.{ℕ, ◌≡◌, refl, true, some, List, replicate, ◌++◌, ◌∷◌}
use vadum.Base.Number.{from_nat, is_u8, to_uint8}
use vadum.Base.Text.{text_eq}
use vadum.Core.Derive.{nonce_seed}
use vadum.Core.Errors.{ok, err, vadum_error, nonce_return_untrusted}
use vadum.Core.Kit.{Crypto}
use vadum.Core.RawKit.{raw, bytes_are_low, raw_kit, raw_kit-laws}
use vadum.Core.NonceReturn.{
  nonce_return_domain, NonceReturnStatement, ReceivedReturn, ReturnLedger, only_32, base58_bytes32,
  nonce_return_signing_bytes, or_untrusted, statement_of, check_return_signature,
  verify_nonce_return,
}
use vadum.Core.NonceReturn.Verified.{
  Signed, verify_nonce_return-Signed, verify_nonce_return-eq-err,
  nonce_return_signing_bytes-injective,
}

-- A signature scheme that accepts every signature of every key.
abbrev trusting : Crypto
trusting = record {
  address_of = λ key. replicate 32 key;
  sign = λ key message. replicate 64 key;
  verify = λ signer signature message. some true;
}

abbrev handed_over : ReceivedReturn
handed_over = record {
  nonce_index = from_nat 3;
  new_nonce_value = replicate 32 5;
  signature = replicate 64 9;
}

abbrev spent_record_of_payer : ReturnLedger
spent_record_of_payer = record {
  payer = replicate 32 1;
  merchant = replicate 32 2;
  spent_against_value = replicate 32 4;
}

abbrev statement : NonceReturnStatement
statement = record {
  payer = replicate 32 1;
  nonce_index = from_nat 3;
  spent_against_value = replicate 32 4;
  new_nonce_value = replicate 32 5;
}

abbrev statement_bytes : List ℕ
statement_bytes =
    nonce_return_domain ++ (replicate 32 1 ++ (3 ∷ (replicate 32 4 ++ replicate 32 5)))

bytes_of_statement : nonce_return_signing_bytes raw_kit statement ≡ ok statement_bytes
unfolding nonce_return_signing_bytes nonce_seed is_u8 base58_bytes32 only_32 raw bytes_are_low
    to_uint8
bytes_of_statement = refl

accepted : verify_nonce_return raw_kit trusting handed_over spent_record_of_payer ≡ ok statement
unfolding verify_nonce_return text_eq or_untrusted check_return_signature statement_of
    nonce_return_signing_bytes nonce_seed is_u8 base58_bytes32 only_32 raw bytes_are_low to_uint8
accepted = refl

abbrev stale : ReturnLedger
stale = record spent_record_of_payer { spent_against_value = replicate 32 5 }

refused :
    verify_nonce_return raw_kit trusting handed_over stale
    ≡ err (vadum_error nonce_return_untrusted)
unfolding verify_nonce_return text_eq
refused = refl

verify_nonce_return-Signed_example :
    Signed raw_kit trusting handed_over spent_record_of_payer
    × (statement ≡ statement_of handed_over spent_record_of_payer)
verify_nonce_return-Signed_example =
    verify_nonce_return-Signed raw_kit trusting handed_over spent_record_of_payer statement accepted

verify_nonce_return-eq-err_example :
    vadum_error nonce_return_untrusted ≡ vadum_error nonce_return_untrusted
verify_nonce_return-eq-err_example =
    verify_nonce_return-eq-err raw_kit trusting handed_over stale
      (vadum_error nonce_return_untrusted) refused

nonce_return_signing_bytes-injective_example : statement ≡ statement
nonce_return_signing_bytes-injective_example =
    nonce_return_signing_bytes-injective raw_kit raw_kit-laws statement statement statement_bytes
      bytes_of_statement bytes_of_statement
