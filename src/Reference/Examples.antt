-- ===== src/Reference/Examples.antt =====
-- Both implementations at concrete payloads.
use vadum.Base.{ℕ, ◌≡◌, refl, true, none, some, List, [], ◌∷◌, ◌++◌, replicate}
use vadum.Base.Number.{from_nat, is_u8, to_uint8}
use vadum.Core.Errors.{ok}
use vadum.Core.Kit.{Crypto}
use vadum.Core.NonceReturn.{ReceivedReturn, ReturnLedger, verify_nonce_return}
use vadum.Core.RawKit.{raw, bytes_are_low, raw_kit, raw_kit-laws}
use vadum.Reference.Check.{decodes_intent, check}
use vadum.Reference.ChecksAlike.{context_of, decoder_outcome, decoder_outcome-check}
use vadum.Reference.EncodesAlike.{of_return, encode, reference_encode, encode-reference_encode}
use vadum.Reference.Base45.{to_text}
use vadum.Reference.Statement.{rejection}
use vadum.Reference.StatementsAlike.{
  is_accepted, answers, verify_nonce_return-rejection, to_base45-letters,
}
use vadum.Wire.Base45.{to_base45}
use vadum.Wire.Codec.Bytes.{blit, put, write_key}
use vadum.Wire.Codec.Flags.{expected_length, type_byte, flags_to_byte}
use vadum.Wire.Codec.Header.{DecodeContext, write_header}
use vadum.Wire.Codec.Payloads.{NonceReturnPayload, no_flags, encode_nonce_return}

abbrev handed_back : NonceReturnPayload
handed_back = record {
  nonce_index = from_nat 3;
  new_nonce_value = replicate 32 5;
  signature = replicate 64 9;
}

abbrev return_bytes : List ℕ
return_bytes = 1 ∷ 4 ∷ 0 ∷ 3 ∷ (replicate 32 5 ++ replicate 64 9)

encoded : encode raw_kit (of_return handed_back) ≡ ok return_bytes
unfolding encode encode_nonce_return write_header raw bytes_are_low blit put expected_length is_u8
    write_key type_byte flags_to_byte to_uint8
encoded = refl

encode-reference_encode_example : reference_encode raw_kit (of_return handed_back) ≡ ok return_bytes
encode-reference_encode_example =
    encode-reference_encode raw_kit raw_kit-laws (of_return handed_back) return_bytes encoded

abbrev context : DecodeContext
context = record { mint_cache = λ mint. none; intent_flags = some no_flags }

-- An intent may not leave the amount to the payer.
decoder_outcome-check_example :
    decoder_outcome raw_kit context decodes_intent (1 ∷ 1 ∷ 16 ∷ [])
    ≡ check raw_kit (context_of context) decodes_intent (1 ∷ 1 ∷ 16 ∷ [])
decoder_outcome-check_example =
    decoder_outcome-check raw_kit context decodes_intent (1 ∷ 1 ∷ 16 ∷ []) no_flags refl refl

to_base45-letters_example : to_base45 (255 ∷ 7 ∷ 3 ∷ []) ≡ to_text (255 ∷ 7 ∷ 3 ∷ [])
to_base45-letters_example = to_base45-letters (255 ∷ 7 ∷ 3 ∷ [])

abbrev trusting : Crypto
trusting = record {
  address_of = λ key. key ∷ [];
  sign = λ key message. replicate 64 key;
  verify = λ signer signature message. some true;
}

abbrev handed_over : ReceivedReturn
handed_over = record {
  nonce_index = from_nat 3;
  new_nonce_value = replicate 32 5;
  signature = replicate 64 9;
}

abbrev ledger : ReturnLedger
ledger = record {
  payer = replicate 32 1;
  merchant = replicate 32 2;
  spent_against_value = replicate 32 4;
}

small : is_u8 handed_over.nonce_index ≡ true
unfolding is_u8
small = refl

verify_nonce_return-rejection_example :
    answers (verify_nonce_return raw_kit trusting handed_over ledger)
    ≡ is_accepted (rejection raw_kit trusting handed_over ledger)
verify_nonce_return-rejection_example =
    verify_nonce_return-rejection raw_kit trusting handed_over ledger small refl
