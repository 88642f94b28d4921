-- ===== src/Wire/Codec/Payloads.antt =====
-- packages/wire/src/codec.ts: the encoder and the decoder of each payload type.
use vadum.Base.{
  ℕ, ◌+◌, Bool, true, false, not, Option, none, some, List, ◌==◌, if◌then◌else◌, length, get_or,
  is_some, bool_eq,
}
use vadum.Base.Int.{ℤ, pos}
use vadum.Base.Number.{Number, from_nat, is_u8, to_uint8}
use vadum.Base.Text.{Text, text_eq}
use vadum.Core.Errors.{
  Result, ok, vadum_error, ◌>>=◌, ◌>>◌, throw_if, or_throw, wire_unexpected_type,
  wire_static_constraint, wire_flags_mismatch, sig_length, nonce_index_out_of_range,
}
use vadum.Core.Kit.{Kit}
use vadum.Core.Types.{Intent, Auth, NonceRef, Lifetime, nonce, fresh, token_2022, same_program}
use vadum.Wire.Codec.Bytes.{
  zeros, slice, put, blit, address_at, base58_at, u64_at, write_key, write_address, write_u64,
}
use vadum.Wire.Codec.Flags.{
  intent, static_intent, auth, nonce_return, WireFlags, flags_to_byte, expected_length,
}
use vadum.Wire.Codec.Header.{DecodeContext, write_header, read_header, check_against_cache}

pub record NonceReturnPayload : Type 0 where
  pub nonce_index : Number
  pub new_nonce_value : Text
  pub signature : List ℕ

unfoldable pub is_fresh : Lifetime → Bool
is_fresh nonce = false
is_fresh (fresh blockhash height) = true

unfoldable pub flags_of : Intent → WireFlags
unfolding is_fresh
flags_of i = record {
  lifetime_fresh = is_fresh i.lifetime;
  include_create_ata = i.include_create_ata;
  token2022 = same_program i.token_program token_2022;
  fee_payer_separate = not (text_eq i.fee_payer i.merchant);
  amount_in_auth = i.is_static;
}

abbrev pub no_flags : WireFlags
no_flags = record {
  lifetime_fresh = false;
  include_create_ata = false;
  token2022 = false;
  fee_payer_separate = false;
  amount_in_auth = false;
}

module _ (k : Kit) where
  unfoldable pub write_blockhash : Lifetime → List ℕ → Result (List ℕ)
  write_blockhash nonce out = ok out
  write_blockhash (fresh blockhash height) out = write_key k out 76 blockhash

  unfoldable pub encode_intent : Intent → Result (List ℕ)
  encode_intent i = do
    throw_if i.is_static wire_unexpected_type
    amount ← or_throw i.amount (vadum_error wire_static_constraint)
    let flags = flags_of i
    headed ← write_header (zeros (expected_length intent flags)) intent flags
    with_merchant ← write_address k headed 3 i.merchant
    with_mint ← write_address k with_merchant 35 i.mint
    with_amount ← write_u64 with_mint 67 amount
    write_blockhash i.lifetime (put with_amount 75 (to_uint8 i.decimals))

  unfoldable pub decode_intent : List ℕ → DecodeContext → Result Intent
  decode_intent bytes ctx = do
    flags ← read_header bytes intent
    let merchant = address_at k bytes 3
    let mint = address_at k bytes 35
    let decimals = get_or bytes 75 0
    program ← check_against_cache ctx mint decimals flags
    ok (record {
      merchant = merchant;
      mint = mint;
      decimals = from_nat decimals;
      amount = some (u64_at bytes 67);
      lifetime = if flags.lifetime_fresh then fresh (base58_at k bytes 76) (pos 0) else nonce;
      include_create_ata = flags.include_create_ata;
      token_program = program;
      fee_payer = merchant;
      is_static = false;
    })

  unfoldable pub encode_static_intent : Intent → Result (List ℕ)
  encode_static_intent i = do
    throw_if (not i.is_static) wire_unexpected_type
    throw_if (is_some i.amount) wire_static_constraint
    throw_if (is_fresh i.lifetime) wire_static_constraint
    let flags = flags_of i
    headed ← write_header (zeros (expected_length static_intent flags)) static_intent flags
    with_merchant ← write_address k headed 3 i.merchant
    with_mint ← write_address k with_merchant 35 i.mint
    ok (put with_mint 67 (to_uint8 i.decimals))

  unfoldable pub decode_static_intent : List ℕ → DecodeContext → Result Intent
  decode_static_intent bytes ctx = do
    flags ← read_header bytes static_intent
    let merchant = address_at k bytes 3
    let mint = address_at k bytes 35
    let decimals = get_or bytes 67 0
    program ← check_against_cache ctx mint decimals flags
    ok (record {
      merchant = merchant;
      mint = mint;
      decimals = from_nat decimals;
      amount = none;
      lifetime = nonce;
      include_create_ata = flags.include_create_ata;
      token_program = program;
      fee_payer = merchant;
      is_static = true;
    })

  -- The nonce reference, with the offset behind it.
  unfoldable pub write_nonce_ref : Option NonceRef → List ℕ → ℕ → Result (List ℕ × ℕ)
  write_nonce_ref none out offset = ok (out, offset)
  write_nonce_ref (some r) out offset = do
    throw_if (not (is_u8 r.index)) nonce_index_out_of_range
    written ← write_key k (put out offset (to_uint8 r.index)) (offset + 1) r.value
    ok (written, offset + 33)

  unfoldable pub write_amount : Option ℤ → List ℕ → ℕ → Result (List ℕ × ℕ)
  write_amount none out offset = ok (out, offset)
  write_amount (some amount) out offset = do
    written ← write_u64 out offset amount
    ok (written, offset + 8)

  unfoldable pub encode_auth : Auth → WireFlags → Result (List ℕ)
  encode_auth a flags = do
    throw_if (not (length a.signature == 64)) sig_length
    throw_if (not (bool_eq flags.lifetime_fresh (not (is_some a.nonce_ref)))) wire_flags_mismatch
    throw_if (not (bool_eq flags.amount_in_auth (is_some a.amount))) wire_flags_mismatch
    headed ← write_header (zeros (expected_length auth flags)) auth flags
    with_payer ← write_address k headed 3 a.payer
    (with_nonce, offset) ← write_nonce_ref a.nonce_ref with_payer 35
    (with_amount, offset') ← write_amount a.amount with_nonce offset
    blit with_amount offset' a.signature

  unfoldable pub decode_auth : List ℕ → DecodeContext → Result Auth
  decode_auth bytes ctx = do
    flags ← read_header bytes auth
    intent_flags ← or_throw ctx.intent_flags (vadum_error wire_flags_mismatch)
    throw_if (not (flags_to_byte intent_flags == get_or bytes 2 0)) wire_flags_mismatch
    let at_nonce : ℕ = 35
    let at_amount = if flags.lifetime_fresh then at_nonce else at_nonce + 33
    let at_signature = if flags.amount_in_auth then at_amount + 8 else at_amount
    ok (record {
      payer = address_at k bytes 3;
      nonce_ref =
          if flags.lifetime_fresh
          then none
          else some (record {
            index = from_nat (get_or bytes at_nonce 0);
            value = base58_at k bytes (at_nonce + 1);
          });
      amount = if flags.amount_in_auth then some (u64_at bytes at_amount) else none;
      signature = slice bytes at_signature 64;
    })

  unfoldable pub encode_nonce_return : NonceReturnPayload → Result (List ℕ)
  encode_nonce_return p = do
    throw_if (not (is_u8 p.nonce_index)) nonce_index_out_of_range
    throw_if (not (length p.signature == 64)) sig_length
    headed ← write_header (zeros (expected_length nonce_return no_flags)) nonce_return no_flags
    with_value ← write_key k (put headed 3 (to_uint8 p.nonce_index)) 4 p.new_nonce_value
    blit with_value 36 p.signature

  unfoldable pub decode_nonce_return : List ℕ → Result NonceReturnPayload
  decode_nonce_return bytes = do
    _flags ← read_header bytes nonce_return
    ok (record {
      nonce_index = from_nat (get_or bytes 3 0);
      new_nonce_value = base58_at k bytes 4;
      signature = slice bytes 36 64;
    })
