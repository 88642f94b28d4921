-- ===== src/Wire/Codec/Header.antt =====
-- packages/wire/src/codec.ts: the three header bytes, and the check order of a decoder.
use vadum.Base.{
  ℕ, Bool, false, not, Option, none, some, List, bit_and, ltb, ◌==◌, if◌then◌else◌, length, get_or,
}
use vadum.Base.Number.{number_is}
use vadum.Base.Text.{Text}
use vadum.Core.Errors.{
  Result, ok, vadum_error, ◌>>=◌, ◌>>◌, throw_if, or_throw, wire_length_mismatch,
  wire_version_unsupported, wire_unknown_type, wire_unexpected_type, wire_reserved_flag_set,
  wire_fee_payer_separate_unsupported, wire_flag_not_allowed_for_type, wire_static_constraint,
  mint_unknown, mint_decimals_mismatch, mint_token_program_mismatch,
}
use vadum.Core.Types.{MintRecord, TokenProgram, spl_token, token_2022, same_program}
use vadum.Wire.Codec.Bytes.{put}
use vadum.Wire.Codec.Flags.{
  PayloadType, intent, static_intent, auth, nonce_return, WireFlags, type_byte, type_name,
  same_type, has_bit, flags_from_byte, flags_to_byte, expected_length,
}

pub record DecodeContext : Type 0 where
  pub mint_cache : Text → Option MintRecord
  pub intent_flags : Option WireFlags

unfoldable pub write_header : List ℕ → PayloadType → WireFlags → Result (List ℕ)
write_header out type flags = do
  throw_if flags.fee_payer_separate wire_fee_payer_separate_unsupported
  ok (put (put (put out 0 1) 1 (type_byte type)) 2 (flags_to_byte flags))

-- `expected !== undefined && type !== expected`.
unfoldable pub is_unexpected : Option PayloadType → PayloadType → Bool
is_unexpected none type = false
is_unexpected (some expected) type = not (same_type type expected)

unfoldable pub read_type : List ℕ → Option PayloadType → Result PayloadType
unfolding is_unexpected
read_type bytes expected = do
  throw_if (ltb (length bytes) 3) wire_length_mismatch
  throw_if (not (get_or bytes 0 0 == 1)) wire_version_unsupported
  type ← or_throw (type_name (get_or bytes 1 0)) (vadum_error wire_unknown_type)
  throw_if (is_unexpected expected type) wire_unexpected_type
  ok type

-- Step 7: the flags that a payload type may not carry.
unfoldable pub forbidden : PayloadType → ℕ → ℕ
forbidden intent byte = bit_and byte 0b0001_0000
forbidden static_intent byte = 0
forbidden auth byte = 0
forbidden nonce_return byte = byte

-- Step 8: a printed intent carries no live blockhash and leaves the amount to the payer.
unfoldable pub static_constraint : PayloadType → WireFlags → Result (Unit {0})
static_constraint static_intent flags = do
  throw_if flags.lifetime_fresh wire_static_constraint
  throw_if (not flags.amount_in_auth) wire_static_constraint
static_constraint intent flags = ok tt
static_constraint auth flags = ok tt
static_constraint nonce_return flags = ok tt

unfoldable pub read_header : List ℕ → PayloadType → Result WireFlags
read_header bytes expected = do
  type ← read_type bytes (some expected)
  let byte = get_or bytes 2 0
  throw_if (has_bit byte 0b1110_0000) wire_reserved_flag_set
  throw_if (has_bit byte 0b0000_1000) wire_fee_payer_separate_unsupported
  throw_if (not (forbidden type byte == 0)) wire_flag_not_allowed_for_type
  let flags = flags_from_byte byte
  static_constraint type flags
  throw_if (not (length bytes == expected_length type flags)) wire_length_mismatch
  ok flags

unfoldable pub program_of : WireFlags → TokenProgram
program_of flags = if flags.token2022 then token_2022 else spl_token

-- Step 11: the mint is cached, and its decimals and token program agree.
unfoldable pub check_against_cache : DecodeContext → Text → ℕ → WireFlags → Result TokenProgram
unfolding program_of
check_against_cache ctx mint decimals flags = do
  found ← or_throw (ctx.mint_cache mint) (vadum_error mint_unknown)
  throw_if (not (number_is found.decimals decimals)) mint_decimals_mismatch
  throw_if (not (same_program found.token_program (program_of flags))) mint_token_program_mismatch
  ok (program_of flags)

-- `peekPayloadType`.
unfoldable pub peek_payload_type : List ℕ → Result PayloadType
peek_payload_type bytes = read_type bytes none
