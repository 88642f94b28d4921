-- ===== src/Reference/ChecksAlike.antt =====
-- packages/wire/src/codec.ts and packages/fixtures/src/wire.ts: the decoders refuse what `check` rejects,
-- with its code.
use vadum.Base.{
  ℕ, ◌≡◌, refl, sym, ap, ◌∙◌, Bool, true, false, not, Option, none, some, List, bit_and, ltb, ◌==◌,
  if◌then◌else◌, length, get_or, take, drop, bool_eq, arith,
}
use vadum.Base.Number.{number_is}
use vadum.Core.Errors.{
  Result, ok, vadum_error, foreign, ◌>>=◌, ◌>>◌, throw_if, or_throw, wire_length_mismatch,
  wire_version_unsupported, wire_unknown_type, wire_unexpected_type, wire_flags_mismatch,
  mint_unknown, mint_decimals_mismatch, mint_token_program_mismatch,
}
use vadum.Core.Kit.{Kit}
use vadum.Core.Types.{TokenProgram, spl_token, token_2022, MintRecord, same_program}
use vadum.Reference.Check.{
  Entry, peeks, decodes_intent, decodes_static_intent, decodes_auth, decodes_nonce_return,
  entry_type, CachedMint, CheckContext, type_of, is_set, is_token_2022, check_flags, check_mint,
  check_answer, check_context, check_as, check,
}
use vadum.Reference.Wire.{type_code}
use vadum.Wire.Codec.Flags.{
  PayloadType, intent, static_intent, auth, nonce_return, WireFlags, same_type→eq, has_bit,
  flags_from_byte, flags_to_byte,
}
use vadum.Wire.Codec.Header.{
  DecodeContext, is_unexpected, read_type, read_header, program_of, check_against_cache,
  peek_payload_type,
}
use vadum.Wire.Codec.Bytes.{address_at}
use vadum.Wire.Codec.Payloads.{
  decode_intent, decode_static_intent, decode_auth, decode_nonce_return,
}
use vadum.Reference.HeaderAlike.{
  outcome, outcome-bind, type_name-type_of, same_type-type_code, throw-under, header_then,
  header-under, read_header-alike,
}

cached_of : Option MintRecord → Option CachedMint
cached_of none = none
cached_of (some m) = some (record { token_program = m.token_program; decimals = m.decimals })

byte_of : Option WireFlags → Option ℕ
byte_of none = none
byte_of (some f) = some (flags_to_byte f)

-- The context of a decoder, as the reference takes it.
unfoldable pub context_of : DecodeContext → CheckContext
unfolding cached_of byte_of
context_of ctx = record {
  mint_cache = λ key. cached_of (ctx.mint_cache key);
  intent_flags = byte_of ctx.intent_flags;
}

module _ (k : Kit) (ctx : DecodeContext) where
  -- The decoder that an entry names, its answer left out.
  unfoldable pub decoder_outcome : Entry → List ℕ → Result (Unit {0})
  decoder_outcome peeks bytes = outcome (peek_payload_type bytes)
  decoder_outcome decodes_intent bytes = outcome (decode_intent k bytes ctx)
  decoder_outcome decodes_static_intent bytes = outcome (decode_static_intent k bytes ctx)
  decoder_outcome decodes_auth bytes = outcome (decode_auth k bytes ctx)
  decoder_outcome decodes_nonce_return bytes = outcome (decode_nonce_return k bytes)

program-alike :
    (p : TokenProgram) (b : Bool)
    → same_program p (if b then token_2022 else spl_token) ≡ bool_eq b (is_token_2022 p)
unfolding same_program is_token_2022
program-alike spl_token true = refl
program-alike spl_token false = refl
program-alike token_2022 true = refl
program-alike token_2022 false = refl

==_comm : (a b : ℕ) → (a == b) ≡ (b == a)
==_comm a b = ground arith

module _ (k : Kit) (ctx : DecodeContext) where
  -- Behind the header of an expected type, the context steps alone are left.
  expected-alike :
      (expected type : PayloadType) (bytes : List ℕ) (rest : Result (Unit {0}))
      → rest ≡ check_context k (context_of ctx) expected bytes (get_or bytes 2 0)
      → (throw_if (not (type_code type == type_code expected)) wire_unexpected_type
          >> (check_flags type bytes (get_or bytes 2 0) >> rest))
        ≡ check_as k (context_of ctx) expected type bytes
  unfolding check_as
  expected-alike expected type bytes rest h =
      throw-under (not (type_code type == type_code expected)) wire_unexpected_type (λ same.
        let e : type ≡ expected =
          same_type→eq type expected (same_type-type_code type expected ∙ ground arith) in
        ap (λ r. check_flags type bytes (get_or bytes 2 0) >> r)
          (h ∙ ap (λ t. check_context k (context_of ctx) t bytes (get_or bytes 2 0)) (sym e)))

  decoder-alike :
      {A : Type 0} (expected : PayloadType) (bytes : List ℕ) (body : WireFlags → Result A)
      → outcome (body (flags_from_byte (get_or bytes 2 0)))
        ≡ check_context k (context_of ctx) expected bytes (get_or bytes 2 0)
      → outcome (read_header bytes expected >>= body)
        ≡ header_then bytes (λ type. check_as k (context_of ctx) expected type bytes)
  decoder-alike expected bytes body h =
      outcome-bind (read_header bytes expected) body
      ∙ read_header-alike expected bytes (λ flags. outcome (body flags))
      ∙ header-under bytes (λ type. expected-alike expected type bytes _ h)

  mint_by :
      {A : Type 0} (o : Option MintRecord) (decimals byte : ℕ) (answer : TokenProgram → A)
      → outcome (
          (or_throw o (vadum_error mint_unknown) >>= (λ found.
            throw_if (not (number_is found.decimals decimals)) mint_decimals_mismatch
            >> (throw_if
                  (not (same_program found.token_program (program_of (flags_from_byte byte))))
                  mint_token_program_mismatch
                >> ok (program_of (flags_from_byte byte)))))
          >>= (λ program. ok (answer program)))
        ≡ (or_throw (cached_of o) (vadum_error mint_unknown) >>= (λ cached.
            throw_if (not (number_is cached.decimals decimals)) mint_decimals_mismatch
            >> throw_if
                (not (bool_eq (is_set byte 4) (is_token_2022 cached.token_program)))
                mint_token_program_mismatch))
  unfolding cached_of program_of flags_from_byte has_bit is_set outcome
  mint_by none decimals byte answer = refl
  mint_by (some m) decimals byte answer =
      rw (program-alike m.token_program (not (bit_and byte 4 == 0))) (
        by_tests (not (number_is m.decimals decimals))
          (not (bool_eq (not (bit_and byte 4 == 0)) (is_token_2022 m.token_program))) _)
    where
      by_tests :
          (a b : Bool) (p : TokenProgram)
          → outcome (
              (throw_if a mint_decimals_mismatch
                >> (throw_if b mint_token_program_mismatch >> ok p))
              >>= (λ program. ok (answer program)))
            ≡ (throw_if a mint_decimals_mismatch >> throw_if b mint_token_program_mismatch)
      by_tests true b p = refl
      by_tests false true p = refl
      by_tests false false p = refl

  mint-alike :
      {A : Type 0} (bytes : List ℕ) (at byte : ℕ) (answer : TokenProgram → A)
      → k.address_decode (take 32 (drop 35 bytes)) ≡ k.base58_decode (take 32 (drop 35 bytes))
      → outcome (
          check_against_cache ctx (address_at k bytes 35) (get_or bytes at 0) (flags_from_byte byte)
          >>= (λ program. ok (answer program)))
        ≡ check_mint k (context_of ctx) bytes at byte
  unfolding check_against_cache check_mint address_at context_of
  mint-alike bytes at byte answer same =
      rw same (mint_by (ctx.mint_cache (k.base58_decode (take 32 (drop 35 bytes)))) _ byte answer)

  answer_by :
      {A : Type 0} (o : Option WireFlags) (f : WireFlags) (byte : ℕ) (answer : A)
      → o ≡ some f
      → outcome (
          or_throw o (vadum_error wire_flags_mismatch) >>= (λ flags.
            throw_if (not (flags_to_byte flags == byte)) wire_flags_mismatch >> ok answer))
        ≡ (or_throw (byte_of o) foreign
            >>= (λ flags. throw_if (not (byte == flags)) wire_flags_mismatch))
  unfolding byte_of outcome
  answer_by o f byte answer e =
      rw (e, ==_comm (flags_to_byte f) byte) (by_test (not (byte == flags_to_byte f)))
    where
      by_test :
          (b : Bool)
          → outcome (throw_if b wire_flags_mismatch >> ok answer) ≡ throw_if b wire_flags_mismatch
      by_test true = refl
      by_test false = refl

  peek_by :
      (a b : Bool) (o : Option PayloadType)
      → outcome (
          throw_if a wire_length_mismatch
          >> (throw_if b wire_version_unsupported
              >> (or_throw o (vadum_error wire_unknown_type) >>= (λ type.
                  throw_if (is_unexpected none type) wire_unexpected_type >> ok type))))
        ≡ (throw_if a wire_length_mismatch
            >> (throw_if b wire_version_unsupported
                >> (or_throw o (vadum_error wire_unknown_type) >>= (λ type. ok tt))))
  unfolding outcome is_unexpected
  peek_by true b o = refl
  peek_by false true o = refl
  peek_by false false none = refl
  peek_by false false (some type) = refl

  peek-alike : (bytes : List ℕ) → outcome (read_type bytes none) ≡ header_then bytes (λ type. ok tt)
  unfolding read_type
  peek-alike bytes =
      rw (type_name-type_of (get_or bytes 1 0))
        (peek_by (ltb (length bytes) 3) (not (get_or bytes 0 0 == 1)) (type_of (get_or bytes 1 0)))

  -- For any bytes whose mint field kit decodes alike as an address and as base58, and a context
  -- that holds flags of an answered intent, each decoder of the codec, and `peekPayloadType`,
  -- passes if the reference `check` passes and throws the code that `check` rejects with
  -- otherwise.
  pub decoder_outcome-check :
      (entry : Entry) (bytes : List ℕ) (f : WireFlags)
      → k.address_decode (take 32 (drop 35 bytes)) ≡ k.base58_decode (take 32 (drop 35 bytes))
      → ctx.intent_flags ≡ some f
      → decoder_outcome k ctx entry bytes ≡ check k (context_of ctx) entry bytes
  unfolding decoder_outcome check entry_type check_context decode_intent decode_static_intent
      decode_auth decode_nonce_return peek_payload_type outcome check_answer context_of
  decoder_outcome-check peeks bytes f same echo = peek-alike bytes
  decoder_outcome-check decodes_intent bytes f same echo =
      decoder-alike intent bytes _ (mint-alike bytes 75 (get_or bytes 2 0) _ same)
  decoder_outcome-check decodes_static_intent bytes f same echo =
      decoder-alike static_intent bytes _ (mint-alike bytes 67 (get_or bytes 2 0) _ same)
  decoder_outcome-check decodes_auth bytes f same echo =
      decoder-alike auth bytes _ (answer_by ctx.intent_flags f (get_or bytes 2 0) _ echo)
  decoder_outcome-check decodes_nonce_return bytes f same echo =
      decoder-alike nonce_return bytes _ refl
