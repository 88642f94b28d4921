-- ===== src/Wire/Codec/Examples.antt =====
-- Concrete payloads through the codec, and its theorems at concrete inputs.
use vadum.Base.{
  ℕ, suc, ◌≡◌, refl, true, false, none, some, List, [], ◌∷◌, ◌++◌, arith, replicate, length, All,
}
use vadum.Base.Int.{pos}
use vadum.Base.Number.{from_nat, is_u8, to_uint8}
use vadum.Base.Text.{Text, text_eq}
use vadum.Core.Errors.{ok}
use vadum.Core.Kit.{IsByte}
use vadum.Core.RawKit.{raw, bytes_are_low, raw_kit, raw_kit-laws}
use vadum.Core.Types.{Intent, Auth, MintRecord, fresh, nonce, spl_token, same_program}
use vadum.Wire.Codec.Flags.{
  intent, has_bit, type_name, same_type, flags_from_byte, flags_to_byte, type_byte, expected_length,
}
use vadum.Wire.Codec.Bytes.{write_address, blit, put, write_u64, le_bytes, write_key}
use vadum.Wire.Codec.Header.{
  DecodeContext, write_header, read_header, read_type, is_unexpected, forbidden, static_constraint,
}
use vadum.Wire.Codec.Accepts.{Allowed, read_header-accepts, read_header-layout}
use vadum.Wire.Codec.Payloads.{
  NonceReturnPayload, is_fresh, write_blockhash, write_nonce_ref, write_amount, flags_of, no_flags,
  encode_intent, decode_intent, encode_static_intent, decode_static_intent, encode_auth,
  decode_auth, encode_nonce_return, decode_nonce_return,
}
use vadum.Wire.Codec.IntentRoundTrip.{Cached, received, decode_intent-encode_intent}
use vadum.Wire.Codec.StaticRoundTrip.{decode_static_intent-encode_static_intent}
use vadum.Wire.Codec.AuthRoundTrip.{decode_auth-encode_auth}
use vadum.Wire.Codec.ReturnRoundTrip.{decode_nonce_return-encode_nonce_return}

abbrev merchant : Text
merchant = replicate 32 7

abbrev mint : Text
mint = replicate 32 9

abbrev payer : Text
payer = replicate 32 11

abbrev blockhash : Text
blockhash = replicate 32 13

abbrev bill : Intent
bill = record {
  merchant = merchant;
  mint = mint;
  decimals = from_nat 6;
  amount = some (pos 2_500_000);
  lifetime = fresh blockhash (pos 0);
  include_create_ata = true;
  token_program = spl_token;
  fee_payer = merchant;
  is_static = false;
}

abbrev menu : Intent
menu = record bill { amount = none; lifetime = nonce; is_static = true }

abbrev mint_entry : MintRecord
mint_entry = record {
  mint = mint;
  token_program = spl_token;
  decimals = from_nat 6;
  compatible = true;
  blockers = [];
  warnings = [];
  is_mutable = false;
  checked_at = 0;
}

abbrev context : DecodeContext
context = record { mint_cache = λ m. some mint_entry; intent_flags = some (flags_of menu) }

bill-Cached : Cached context bill
bill-Cached = record {
  digits = 6;
  digits_fit = omega arith;
  digits_of_intent = refl;
  entry = mint_entry;
  entry_cached = refl;
  entry_decimals = refl;
  entry_program = refl;
}

menu-Cached : Cached context menu
menu-Cached = record {
  digits = 6;
  digits_fit = omega arith;
  digits_of_intent = refl;
  entry = mint_entry;
  entry_cached = refl;
  entry_decimals = refl;
  entry_program = refl;
}

abbrev bill_bytes : List ℕ
bill_bytes = 1 ∷ 1 ∷ 3 ∷ merchant ++ (mint ++ (160 ∷ 37 ∷ 38 ∷ 0 ∷ 0 ∷ 0 ∷ 0 ∷ 0 ∷ 6 ∷ blockhash))

abbrev menu_bytes : List ℕ
menu_bytes = 1 ∷ 2 ∷ 18 ∷ merchant ++ (mint ++ (6 ∷ []))

abbrev auth_bytes : List ℕ
auth_bytes =
    1 ∷ 3 ∷ 18 ∷ payer ++ (4 ∷ blockhash ++ (5 ∷ 0 ∷ 0 ∷ 0 ∷ 0 ∷ 0 ∷ 0 ∷ 0 ∷ replicate 64 99))

abbrev return_bytes : List ℕ
return_bytes = 1 ∷ 4 ∷ 0 ∷ 4 ∷ blockhash ++ replicate 64 99

abbrev reply : Auth
reply = record {
  payer = payer;
  nonce_ref = some (record { index = from_nat 4; value = blockhash });
  amount = some (pos 5);
  signature = replicate 64 99;
}

abbrev handed_back : NonceReturnPayload
handed_back = record {
  nonce_index = from_nat 4;
  new_nonce_value = blockhash;
  signature = replicate 64 99;
}

bill_encoded : encode_intent raw_kit bill ≡ ok bill_bytes
unfolding encode_intent write_header flags_of text_eq write_address raw bytes_are_low blit put
    expected_length write_u64 le_bytes write_blockhash write_nonce_ref write_amount is_u8 write_key
    type_byte flags_to_byte to_uint8 same_program is_fresh
bill_encoded = refl

menu_encoded : encode_static_intent raw_kit menu ≡ ok menu_bytes
unfolding encode_static_intent write_header flags_of text_eq write_address raw bytes_are_low blit
    put expected_length write_u64 le_bytes write_blockhash write_nonce_ref write_amount is_u8
    write_key type_byte flags_to_byte to_uint8 same_program is_fresh
menu_encoded = refl

reply_encoded : encode_auth raw_kit reply (flags_of menu) ≡ ok auth_bytes
unfolding encode_auth write_header flags_of text_eq write_address raw bytes_are_low blit put
    expected_length write_u64 le_bytes write_blockhash write_nonce_ref write_amount is_u8 write_key
    type_byte flags_to_byte to_uint8 same_program is_fresh
reply_encoded = refl

handed_back_encoded : encode_nonce_return raw_kit handed_back ≡ ok return_bytes
unfolding encode_nonce_return write_header flags_of text_eq write_address raw bytes_are_low blit put
    expected_length write_u64 le_bytes write_blockhash write_nonce_ref write_amount is_u8 write_key
    type_byte flags_to_byte to_uint8 same_program is_fresh
handed_back_encoded = refl

decode_intent-encode_intent_example : decode_intent raw_kit bill_bytes context ≡ ok (received bill)
decode_intent-encode_intent_example =
    decode_intent-encode_intent raw_kit raw_kit-laws bill context bill_bytes bill_encoded
      bill-Cached

decode_static_intent-encode_static_intent_example :
    decode_static_intent raw_kit menu_bytes context ≡ ok menu
decode_static_intent-encode_static_intent_example =
    decode_static_intent-encode_static_intent raw_kit raw_kit-laws menu context menu_bytes
      menu_encoded menu-Cached

decode_auth-encode_auth_example : decode_auth raw_kit auth_bytes context ≡ ok reply
decode_auth-encode_auth_example =
    decode_auth-encode_auth raw_kit raw_kit-laws reply (flags_of menu) context auth_bytes
      reply_encoded refl

decode_nonce_return-encode_nonce_return_example :
    decode_nonce_return raw_kit return_bytes ≡ ok handed_back
decode_nonce_return-encode_nonce_return_example =
    decode_nonce_return-encode_nonce_return raw_kit raw_kit-laws handed_back return_bytes
      handed_back_encoded

abbrev zero_bill : List ℕ
zero_bill = 1 ∷ 1 ∷ 0 ∷ replicate 73 0

zero_bill_read : read_header zero_bill intent ≡ ok no_flags
unfolding read_header read_type is_unexpected type_name same_type type_byte has_bit forbidden
    static_constraint flags_from_byte expected_length
zero_bill_read = refl

zero_bill-bytes : All IsByte zero_bill
zero_bill-bytes = omega arith

whole : suc (suc (suc (length (replicate {A = ℕ} 73 0)))) ≡ expected_length intent no_flags
unfolding expected_length
whole = refl

read_header-layout_example :
    (rest : List ℕ) × (zero_bill ≡ 1 ∷ type_byte intent ∷ flags_to_byte no_flags ∷ rest)
    × (no_flags.fee_payer_separate ≡ false)
    × Allowed intent no_flags
    × (suc (suc (suc (length rest))) ≡ expected_length intent no_flags)
read_header-layout_example =
    read_header-layout zero_bill intent no_flags zero_bill-bytes zero_bill_read

read_header-accepts_example :
    read_header (1 ∷ type_byte intent ∷ flags_to_byte no_flags ∷ replicate 73 0) intent
    ≡ ok no_flags
read_header-accepts_example = read_header-accepts intent no_flags (replicate 73 0) refl refl whole
