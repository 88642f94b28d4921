-- ===== src/Reference/Check.antt =====
-- packages/fixtures/src/wire.ts: `check`, the normative order of a decoder's checks. A `Reject` is an
-- `err` with the code that a decoder must raise, and a plain Error is `foreign`.
use vadum.Base.{
  ℕ, Bool, true, false, not, ◌&&◌, ◌||◌, Option, none, some, List, bit_and, ltb, ◌==◌,
  if◌then◌else◌, length, get_or, take, drop, bool_eq,
}
use vadum.Base.Number.{Number, number_is}
use vadum.Base.Text.{Text}
use vadum.Core.Errors.{
  Result, ok, vadum_error, foreign, ◌>>=◌, ◌>>◌, throw_if, or_throw, wire_length_mismatch,
  wire_version_unsupported, wire_unknown_type, wire_unexpected_type, wire_reserved_flag_set,
  wire_fee_payer_separate_unsupported, wire_flag_not_allowed_for_type, wire_static_constraint,
  wire_flags_mismatch, mint_unknown, mint_decimals_mismatch, mint_token_program_mismatch,
}
use vadum.Core.Kit.{Kit}
use vadum.Core.Types.{TokenProgram, spl_token, token_2022}
use vadum.Reference.Wire.{type_code, expected_length}
use vadum.Wire.Codec.Flags.{PayloadType, intent, static_intent, auth, nonce_return}

pub data Entry : Type 0 where
  peeks decodes_intent decodes_static_intent decodes_auth decodes_nonce_return : Entry

-- `ENTRY_TYPE`; the peek has none.
unfoldable pub entry_type : Entry → Option PayloadType
entry_type peeks = none
entry_type decodes_intent = some intent
entry_type decodes_static_intent = some static_intent
entry_type decodes_auth = some auth
entry_type decodes_nonce_return = some nonce_return

pub record CachedMint : Type 0 where
  pub token_program : TokenProgram
  pub decimals : Number

pub record CheckContext : Type 0 where
  pub mint_cache : Text → Option CachedMint
  pub intent_flags : Option ℕ

-- `Object.keys(TYPE).find(…)`.
unfoldable pub type_of : ℕ → Option PayloadType
type_of byte =
    if type_code intent == byte
    then some intent
    else if type_code static_intent == byte
    then some static_intent
    else if type_code auth == byte
    then some auth
    else if type_code nonce_return == byte
    then some nonce_return
    else none

-- `(flags & mask) !== 0`.
unfoldable pub is_set : ℕ → ℕ → Bool
is_set flags mask = not (bit_and flags mask == 0)

unfoldable pub forbidden_flags : PayloadType → ℕ → ℕ
forbidden_flags intent flags = bit_and flags 16
forbidden_flags nonce_return flags = flags
forbidden_flags static_intent flags = 0
forbidden_flags auth flags = 0

unfoldable pub is_static_type : PayloadType → Bool
is_static_type static_intent = true
is_static_type _ = false

unfoldable pub is_token_2022 : TokenProgram → Bool
is_token_2022 spl_token = false
is_token_2022 token_2022 = true

-- Steps 5 to 9.
unfoldable pub check_flags : PayloadType → List ℕ → ℕ → Result (Unit {0})
check_flags type bytes flags = do
  throw_if (is_set flags 0b1110_0000) wire_reserved_flag_set
  throw_if (is_set flags 8) wire_fee_payer_separate_unsupported
  throw_if (not (forbidden_flags type flags == 0)) wire_flag_not_allowed_for_type
  throw_if (is_static_type type && (is_set flags 1 || bit_and flags 16 == 0)) wire_static_constraint
  throw_if (not (length bytes == expected_length type flags)) wire_length_mismatch

module _ (k : Kit) (context : CheckContext) where
  -- Step 11, with the offset of the decimals.
  unfoldable pub check_mint : List ℕ → ℕ → ℕ → Result (Unit {0})
  check_mint bytes at flags = do
    cached ←
        or_throw (context.mint_cache (k.base58_decode (take 32 (drop 35 bytes))))
          (vadum_error mint_unknown)
    throw_if (not (number_is cached.decimals (get_or bytes at 0))) mint_decimals_mismatch
    throw_if (not (bool_eq (is_set flags 4) (is_token_2022 cached.token_program)))
        mint_token_program_mismatch

  -- Step 10.
  unfoldable pub check_answer : ℕ → Result (Unit {0})
  check_answer flags = do
    intent_flags ← or_throw context.intent_flags foreign
    throw_if (not (flags == intent_flags)) wire_flags_mismatch

  unfoldable pub check_context : PayloadType → List ℕ → ℕ → Result (Unit {0})
  check_context intent bytes flags = check_mint bytes 75 flags
  check_context static_intent bytes flags = check_mint bytes 67 flags
  check_context auth bytes flags = check_answer flags
  check_context nonce_return bytes flags = ok tt

  -- Steps 4 to 11 of an entry that expects a type.
  unfoldable pub check_as : PayloadType → PayloadType → List ℕ → Result (Unit {0})
  check_as expected type bytes = do
    throw_if (not (type_code type == type_code expected)) wire_unexpected_type
    check_flags type bytes (get_or bytes 2 0)
    check_context type bytes (get_or bytes 2 0)

  check_for : Option PayloadType → PayloadType → List ℕ → Result (Unit {0})
  check_for none type bytes = ok tt
  check_for (some expected) type bytes = check_as expected type bytes

  unfoldable pub check : Entry → List ℕ → Result (Unit {0})
  unfolding check_for
  check entry bytes = do
    throw_if (ltb (length bytes) 3) wire_length_mismatch
    throw_if (not (get_or bytes 0 0 == 0x01)) wire_version_unsupported
    type ← or_throw (type_of (get_or bytes 1 0)) (vadum_error wire_unknown_type)
    check_for (entry_type entry) type bytes
