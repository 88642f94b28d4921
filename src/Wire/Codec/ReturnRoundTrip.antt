-- ===== src/Wire/Codec/ReturnRoundTrip.antt =====
-- A payer who decodes what a merchant encoded sees the merchant's NONCE_RETURN.
use vadum.Base.{
  ℕ, ◌≤◌, ◌≡◌, refl, ap, sym, ◌∙◌, not, List, [], ◌∷◌, ◌++◌, arith, ◌==◌, length, take, drop,
  append-nil, length-append, take-append, drop-append,
}
use vadum.Base.Number.{from_nat, to_uint8, is_u8, is_u8→nat, to_uint8-from_nat}
use vadum.Core.Errors.{ok, >>=-eq-ok, passed}
use vadum.Core.Kit.{Kit, KitLaws, IsKey}
use vadum.Wire.Codec.Bytes.{zeros, blit, put-next, base58_at, write_key}
use vadum.Wire.Codec.Flags.{nonce_return, type_byte, flags_to_byte, expected_length}
use vadum.Wire.Codec.Header.{read_header}
use vadum.Wire.Codec.Accepts.{read_header-accepts}
use vadum.Wire.Codec.Payloads.{
  NonceReturnPayload, no_flags, encode_nonce_return, decode_nonce_return,
}
use vadum.Wire.Codec.Writes.{write_header-next, write_key-layout, blit-layout}

pub record ReturnLayout (k : Kit) (p : NonceReturnPayload) (bytes : List ℕ) : Type 0 where
  pub index : ℕ
  pub value_key : List ℕ
  pub index_byte : p.nonce_index ≡ from_nat index
  pub index_low : index ≤ 255
  pub value_IsKey : IsKey value_key
  pub value_decodes : k.base58_decode value_key ≡ p.new_nonce_value
  pub long : length p.signature ≡ 64
  pub shape : bytes ≡ 1 ∷ 4 ∷ 0 ∷ index ∷ (value_key ++ p.signature)

module _ (k : Kit) (laws : KitLaws k) where
  return_body :
      (p : NonceReturnPayload) (i : ℕ) {bytes : List ℕ}
      → p.nonce_index ≡ from_nat i
      → i ≤ 255
      → length p.signature ≡ 64
      → (w : List ℕ) × (write_key k ((1 ∷ 4 ∷ 0 ∷ i ∷ []) ++ zeros 96) 4 p.new_nonce_value ≡ ok w)
        × (blit w 36 p.signature ≡ ok bytes)
      → ReturnLayout k p bytes
  return_body p i index low long (w, h1, h2) =
      let pre = 1 ∷ 4 ∷ 0 ∷ i ∷ [] in
      let (key, whole, back, shape) =
        write_key-layout k laws pre p.new_nonce_value 4 96 64 refl refl h1 in
      record {
        index = i;
        value_key = key;
        index_byte = index;
        index_low = low;
        value_IsKey = whole;
        value_decodes = back;
        long = long;
        shape =
            blit-layout (pre ++ key) p.signature 36 64 0 (omega (arith, whole.0)) (omega arith)
              (rw shape at h2)
            ∙ append-nil ((pre ++ key) ++ p.signature);
      }

  pub encode_nonce_return-layout :
      (p : NonceReturnPayload) {bytes : List ℕ}
      → encode_nonce_return k p ≡ ok bytes
      → ReturnLayout k p bytes
  unfolding encode_nonce_return expected_length type_byte flags_to_byte
  encode_nonce_return-layout p h =
      let (a, h1) = passed (not (is_u8 p.nonce_index)) _ _ h in
      let (b, h2) = passed (not (length p.signature == 64)) _ _ h1 in
      let (i, index, low) = is_u8→nat p.nonce_index (ground arith) in
      let byte : to_uint8 p.nonce_index ≡ i = ap to_uint8 index ∙ to_uint8-from_nat i low in
      let (sep, h3) = write_header-next 100 97 nonce_return no_flags _ h2 refl in
      let placed = put-next (1 ∷ 4 ∷ 0 ∷ []) 3 97 96 (to_uint8 p.nonce_index) refl refl in
      return_body p i index low (ground arith) (>>=-eq-ok _ _ (rw (placed, byte) at h3))

  return_header :
      (rest : List ℕ) → length rest ≡ 97 → read_header (1 ∷ 4 ∷ 0 ∷ rest) nonce_return ≡ ok no_flags
  unfolding type_byte flags_to_byte expected_length
  return_header rest e = read_header-accepts nonce_return no_flags rest refl refl (omega arith)

  decode_nonce_return-layout :
      (p : NonceReturnPayload) (bytes : List ℕ)
      → ReturnLayout k p bytes
      → decode_nonce_return k bytes ≡ ok p
  unfolding decode_nonce_return base58_at
  decode_nonce_return-layout p bytes b =
      let i = b.index in
      let x = b.value_key in
      let s = p.signature in
      let header =
        return_header (i ∷ (x ++ s)) (omega (arith, length-append x s, b.value_IsKey.0, b.long)) in
      let value : k.base58_decode (take 32 (x ++ s)) ≡ p.new_nonce_value =
        ap k.base58_decode (take-append x s b.value_IsKey.0) ∙ b.value_decodes in
      let signature : take 64 (drop 32 (x ++ s)) ≡ s =
        ap (take 64) (drop-append x s b.value_IsKey.0 ∙ sym (append-nil s))
        ∙ take-append s [] b.long in
      rw (b.shape, header)
        (ap ok (λ j. record {
          nonce_index = sym b.index_byte j;
          new_nonce_value = value j;
          signature = signature j;
        }))

  -- Where `encodeNonceReturn` succeeds, `decodeNonceReturn` of the bytes gives exactly the payload
  -- back.
  pub decode_nonce_return-encode_nonce_return :
      (p : NonceReturnPayload) (bytes : List ℕ)
      → encode_nonce_return k p ≡ ok bytes
      → decode_nonce_return k bytes ≡ ok p
  decode_nonce_return-encode_nonce_return p bytes h =
      decode_nonce_return-layout p bytes (encode_nonce_return-layout p h)
