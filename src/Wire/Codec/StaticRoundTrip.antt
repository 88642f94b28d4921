-- ===== src/Wire/Codec/StaticRoundTrip.antt =====
-- A payer who scans a printed STATIC_INTENT sees the merchant's intent.
use vadum.Base.{
  ℕ, suc, ◌≡◌, refl, ap, sym, ◌∙◌, true, List, [], ◌∷◌, ◌++◌, arith, length, get_or, length-append,
}
use vadum.Base.Number.{from_nat, to_uint8}
use vadum.Core.Errors.{ok}
use vadum.Core.Kit.{Kit, KitLaws}
use vadum.Core.Types.{Intent, Intent-eq, nonce}
use vadum.Wire.Codec.Bytes.{address_at}
use vadum.Wire.Codec.Flags.{static_intent, type_byte, flags_to_byte, expected_length}
use vadum.Wire.Codec.Header.{DecodeContext, read_header}
use vadum.Wire.Codec.Accepts.{Allowed, read_header-accepts}
use vadum.Wire.Codec.Payloads.{flags_of, is_fresh, encode_static_intent, decode_static_intent}
use vadum.Wire.Codec.IntentLayout.{StaticLayout, encode_static_intent-layout}
use vadum.Wire.Codec.IntentRoundTrip.{
  Cached, check_against_cache-accepts, key_at_3, key_at_35, byte_at_67, one_payer, byte_of_digits,
}

static_flags :
    (i : Intent) → i.is_static ≡ true → i.lifetime ≡ nonce → Allowed static_intent (flags_of i)
unfolding flags_of is_fresh
static_flags i s l = (ap is_fresh l, s)

module _ (k : Kit) where
  decode_static_intent-layout :
      (i : Intent) (ctx : DecodeContext) (bytes : List ℕ)
      → StaticLayout k i bytes
      → Cached ctx i
      → decode_static_intent k bytes ctx ≡ ok i
  unfolding decode_static_intent flags_of
  decode_static_intent-layout i ctx bytes b c =
      let x = b.merchant_key in
      let y = b.mint_key in
      let d = to_uint8 i.decimals in
      let f = flags_of i in
      let z = flags_to_byte f in
      let tb = type_byte static_intent in
      let rest = x ++ (y ++ (d ∷ [])) in
      let sized : suc (suc (suc (length rest))) ≡ 68 = omega (
        arith,
        length-append x (y ++ (d ∷ [])),
        length-append y (d ∷ []),
        b.merchant_IsKey.0,
        b.mint_IsKey.0,
      ) in
      let header : read_header (1 ∷ tb ∷ z ∷ rest) static_intent ≡ ok f =
        read_header-accepts static_intent f rest b.one_payer
          (static_flags i b.static b.no_blockhash) (unfold expected_length in sized) in
      let merchant : address_at k (1 ∷ tb ∷ z ∷ rest) 3 ≡ i.merchant =
        key_at_3 k 1 tb z x (y ++ (d ∷ [])) b.merchant_IsKey ∙ b.merchant_decodes in
      let mint : address_at k (1 ∷ tb ∷ z ∷ rest) 35 ≡ i.mint =
        key_at_35 k 1 tb z x y (d ∷ []) b.merchant_IsKey b.mint_IsKey ∙ b.mint_decodes in
      let digits : get_or (1 ∷ tb ∷ z ∷ rest) 67 0 ≡ d =
        byte_at_67 x y (d ∷ []) b.merchant_IsKey b.mint_IsKey 1 tb z in
      rw (b.shape, header, mint, digits, check_against_cache-accepts ctx i c)
        (ap ok (
          Intent-eq _ i merchant refl
            (ap from_nat (byte_of_digits i ctx c) ∙ sym c.digits_of_intent) (sym b.no_amount)
            (sym b.no_blockhash) refl refl (merchant ∙ sym (one_payer i b.one_payer))
            (sym b.static)))

module _ (k : Kit) (laws : KitLaws k) where
  -- Where `encodeStaticIntent` succeeds, and the mint is cached with the decimals (at most 255)
  -- and the token program of the intent, `decodeStaticIntent` of the bytes gives exactly the
  -- intent back.
  pub decode_static_intent-encode_static_intent :
      (i : Intent) (ctx : DecodeContext) (bytes : List ℕ)
      → encode_static_intent k i ≡ ok bytes
      → Cached ctx i
      → decode_static_intent k bytes ctx ≡ ok i
  decode_static_intent-encode_static_intent i ctx bytes h c =
      decode_static_intent-layout k i ctx bytes (encode_static_intent-layout k laws i h) c
