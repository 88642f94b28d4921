-- ===== src/Reference/EncodesAlike.antt =====
-- packages/wire/src/codec.ts and packages/fixtures/src/wire.ts: both encode a payload to the same bytes.
use vadum.Base.{ℕ, ◌%◌, ◌≡◌, sym, ap, ◌∙◌, true, Option, none, some, List, ◌==◌, length, arith}
use vadum.Base.Int.{ℤ, pos}
use vadum.Base.Number.{to_uint8-from_nat}
use vadum.Base.Text.{Text}
use vadum.Core.Errors.{Result, ok}
use vadum.Core.Kit.{Kit, KitLaws, IsKey}
use vadum.Core.Types.{Intent, Auth, NonceRef, Lifetime, nonce, fresh}
use vadum.Reference.Bytes.{u64le, address_bytes, base58_bytes32}
use vadum.Reference.Wire
use vadum.Reference.Wire.{
  IntentFields, StaticIntentFields, NonceFields, AuthFields, header, type_code, amount_bytes,
  blockhash_bytes, nonce_bytes,
}
use vadum.Wire.Codec.AuthLayout.{NonceBytes, AmountBytes, AuthLayout, encode_auth-layout}
use vadum.Wire.Codec.Flags.{WireFlags, flags_to_byte, flags_to_byte-lt, type_byte}
use vadum.Wire.Codec.IntentLayout.{
  Tail, IntentLayout, StaticLayout, encode_intent-layout, encode_static_intent-layout,
}
use vadum.Wire.Codec.ReturnRoundTrip.{ReturnLayout, encode_nonce_return-layout}
use vadum.Wire.Codec.Payloads.{
  NonceReturnPayload, flags_of, encode_intent, encode_static_intent, encode_auth,
  encode_nonce_return,
}

-- What one device shows another.
pub data Payload : Type 0 where
  of_intent of_static_intent : Intent → Payload
  of_auth : Auth → WireFlags → Payload
  of_return : NonceReturnPayload → Payload

abbrev pub blockhash_of : Lifetime → Option Text
blockhash_of nonce = none
blockhash_of (fresh blockhash height) = some blockhash

-- An intent that is encoded has an amount.
abbrev pub amount_of : Option ℤ → ℤ
amount_of none = pos 0
amount_of (some v) = v

abbrev pub nonce_fields : Option NonceRef → Option NonceFields
nonce_fields none = none
nonce_fields (some r) = some (record { index = r.index; value = r.value })

module _ (k : Kit) where
  unfoldable pub encode : Payload → Result (List ℕ)
  encode (of_intent i) = encode_intent k i
  encode (of_static_intent i) = encode_static_intent k i
  encode (of_auth a flags) = encode_auth k a flags
  encode (of_return p) = encode_nonce_return k p

  -- The same values, given to the reference encoders.
  unfoldable pub reference_encode : Payload → Result (List ℕ)
  reference_encode (of_intent i) = Wire.encode_intent k (record {
    flags = flags_to_byte (flags_of i);
    merchant = i.merchant;
    mint = i.mint;
    amount = amount_of i.amount;
    decimals = i.decimals;
    blockhash = blockhash_of i.lifetime;
  })
  reference_encode (of_static_intent i) = Wire.encode_static_intent k (record {
    flags = flags_to_byte (flags_of i);
    merchant = i.merchant;
    mint = i.mint;
    decimals = i.decimals;
  })
  reference_encode (of_auth a flags) = Wire.encode_auth k (record {
    flags = flags_to_byte flags;
    payer = a.payer;
    nonce = nonce_fields a.nonce_ref;
    amount = a.amount;
    signature = a.signature;
  })
  reference_encode (of_return p) =
      Wire.encode_nonce_return k p.nonce_index p.new_nonce_value p.signature

  module _ (laws : KitLaws k) where
    address_bytes-of_key :
        (a : Text) (key : List ℕ)
        → IsKey key
        → k.address_decode key ≡ a
        → address_bytes k a ≡ ok key
    unfolding address_bytes
    address_bytes-of_key a key whole back =
        let e : k.address_encode a ≡ some key =
          ap k.address_encode (sym back) ∙ laws.address_encode-decode key whole in
        rw e

    base58_bytes32-of_key :
        (t : Text) (key : List ℕ)
        → IsKey key
        → k.base58_decode key ≡ t
        → base58_bytes32 k t ≡ ok key
    unfolding base58_bytes32
    base58_bytes32-of_key t key whole back =
        let e : k.base58_encode t ≡ some key =
          ap k.base58_encode (sym back) ∙ laws.base58_encode-decode key whole in
        let long : (length key == 32) ≡ true = let n = whole.0 in ground arith in rw e (rw long)

    header-byte : (f : WireFlags) → flags_to_byte f % 256 ≡ flags_to_byte f
    header-byte f = omega (arith, flags_to_byte-lt f)

    blockhash-Tail :
        (l : Lifetime) (tail : List ℕ)
        → Tail k l tail
        → blockhash_bytes k (blockhash_of l) ≡ ok tail
    unfolding blockhash_bytes
    blockhash-Tail nonce tail h = ap ok (sym h)
    blockhash-Tail (fresh blockhash height) tail h = base58_bytes32-of_key blockhash tail h.0 h.1

    intent-alike :
        (i : Intent) (bytes : List ℕ)
        → IntentLayout k i bytes
        → reference_encode (of_intent i) ≡ ok bytes
    unfolding reference_encode Wire.encode_intent header type_code type_byte u64le flags_of
    intent-alike i bytes b = rw (
      address_bytes-of_key i.merchant b.merchant_key b.merchant_IsKey b.merchant_decodes,
      address_bytes-of_key i.mint b.mint_key b.mint_IsKey b.mint_decodes,
      blockhash-Tail i.lifetime b.tail b.tail_Tail,
      header-byte (flags_of i),
      b.amount,
      b.shape,
    )

    static-alike :
        (i : Intent) (bytes : List ℕ)
        → StaticLayout k i bytes
        → reference_encode (of_static_intent i) ≡ ok bytes
    unfolding reference_encode Wire.encode_static_intent header type_code type_byte
    static-alike i bytes b = rw (
      address_bytes-of_key i.merchant b.merchant_key b.merchant_IsKey b.merchant_decodes,
      address_bytes-of_key i.mint b.mint_key b.mint_IsKey b.mint_decodes,
      header-byte (flags_of i),
      b.shape,
    )

    nonce-alike :
        (r : Option NonceRef) (bytes : List ℕ)
        → NonceBytes k r bytes
        → nonce_bytes k (nonce_fields r) ≡ ok bytes
    unfolding nonce_bytes
    nonce-alike none bytes h = ap ok (sym h)
    nonce-alike (some r) bytes (n, key, index, low, whole, back, h) =
        rw (base58_bytes32-of_key r.value key whole back, h, index, to_uint8-from_nat n low)

    amount-alike : (v : Option ℤ) (bytes : List ℕ) → AmountBytes v bytes → amount_bytes v ≡ bytes
    unfolding amount_bytes u64le
    amount-alike none bytes h = sym h
    amount-alike (some v) bytes (a, e, fits, h) = rw (e, h)

    auth-alike :
        (a : Auth) (flags : WireFlags) (bytes : List ℕ)
        → AuthLayout k a flags bytes
        → reference_encode (of_auth a flags) ≡ ok bytes
    unfolding reference_encode Wire.encode_auth header type_code type_byte
    auth-alike a flags bytes b = rw (
      address_bytes-of_key a.payer b.payer_key b.payer_IsKey b.payer_decodes,
      nonce-alike a.nonce_ref b.nonce_bytes b.nonce_NonceBytes,
      amount-alike a.amount b.amount_bytes b.amount_AmountBytes,
      header-byte flags,
      b.shape,
    )

    return-alike :
        (p : NonceReturnPayload) (bytes : List ℕ)
        → ReturnLayout k p bytes
        → reference_encode (of_return p) ≡ ok bytes
    unfolding reference_encode Wire.encode_nonce_return header type_code
    return-alike p bytes b = rw (
      base58_bytes32-of_key p.new_nonce_value b.value_key b.value_IsKey b.value_decodes,
      b.shape,
      b.index_byte,
      to_uint8-from_nat b.index b.index_low,
    )

    -- With the laws of the codecs of kit, where the codec encodes an intent, a static intent, an
    -- AUTH or a nonce return, the reference encoder of the same fields gives the same bytes.
    pub encode-reference_encode :
        (p : Payload) (bytes : List ℕ) → encode p ≡ ok bytes → reference_encode p ≡ ok bytes
    unfolding encode
    encode-reference_encode (of_intent i) bytes h =
        intent-alike i bytes (encode_intent-layout k laws i h)
    encode-reference_encode (of_static_intent i) bytes h =
        static-alike i bytes (encode_static_intent-layout k laws i h)
    encode-reference_encode (of_auth a flags) bytes h =
        auth-alike a flags bytes (encode_auth-layout k laws a flags h)
    encode-reference_encode (of_return p) bytes h =
        return-alike p bytes (encode_nonce_return-layout k laws p h)
