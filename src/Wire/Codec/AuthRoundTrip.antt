-- ===== src/Wire/Codec/AuthRoundTrip.antt =====
-- A merchant who decodes what a payer encoded sees the payer's AUTH.
use vadum.Base.{
  ℕ, suc, ◌+◌, ◌≡◌, refl, ap, sym, ◌∙◌, not, Option, none, some, List, [], ◌∷◌, ◌++◌, arith, length,
  take, drop, get_or, append-nil, length-append, if◌then◌else◌, is_some, ==_refl, take-append,
}
use vadum.Base.{drop-append}
use vadum.Base.Int.{ℤ, pos}
use vadum.Base.Number.{from_nat}
use vadum.Core.Errors.{ok}
use vadum.Core.Kit.{Kit, KitLaws, IsKey}
use vadum.Core.Types.{Auth, Auth-eq, NonceRef}
use vadum.Wire.Codec.Bytes.{
  slice, le_bytes, le_value, le_value-le_bytes, length-le_bytes, address_at, base58_at, u64_at,
  drop_past, get_or-drop,
}
use vadum.Wire.Codec.Flags.{auth, WireFlags, type_byte, flags_to_byte, expected_length}
use vadum.Wire.Codec.Header.{DecodeContext, read_header}
use vadum.Wire.Codec.Accepts.{read_header-accepts}
use vadum.Wire.Codec.Payloads.{encode_auth, decode_auth}
use vadum.Wire.Codec.AuthLayout.{
  nonce_room, amount_room, NonceBytes, AmountBytes, AuthLayout, auth_size, NonceBytes-length,
  AmountBytes-length, encode_auth-layout,
}
use vadum.Wire.Codec.IntentRoundTrip.{key_at_3}

-- What stands behind the payer's key.
behind_payer :
    (a b c : ℕ) (x rest : List ℕ) (n : ℕ)
    → IsKey x
    → drop (35 + n) (a ∷ b ∷ c ∷ (x ++ rest)) ≡ drop n rest
behind_payer a b c x rest n key =
    let e : 35 + n ≡ suc (suc (suc (32 + n))) = omega arith in rw e (drop_past x rest 32 n key.0)

nonce_back :
    (k : Kit) (ref : Option NonceRef) (bytes nb rest : List ℕ)
    → NonceBytes k ref nb
    → drop 35 bytes ≡ nb ++ rest
    → drop 36 bytes ≡ drop 1 (nb ++ rest)
    → (if not (is_some ref)
        then none
        else some (record { index = from_nat (get_or bytes 35 0); value = base58_at k bytes 36 }))
      ≡ ref
unfolding base58_at
nonce_back k none bytes nb rest h e e' = refl
nonce_back k (some r) bytes nb rest (n, key, index, low, whole, back, shape) e e' =
    let first : get_or bytes 35 0 ≡ n =
      get_or-drop bytes 35 0 ∙ ap (λ bs. get_or bs 0 0) (e ∙ ap (λ bs. bs ++ rest) shape) in
    let text : k.base58_decode (take 32 (drop 36 bytes)) ≡ r.value =
      ap (λ bs. k.base58_decode (take 32 bs)) (e' ∙ ap (λ bs. drop 1 (bs ++ rest)) shape)
      ∙ ap k.base58_decode (take-append key rest whole.0)
      ∙ back in
    λ i. some (record { index = (ap from_nat first ∙ sym index) i; value = text i })

amount_back :
    (v : Option ℤ) (bytes ab rest : List ℕ) (o : ℕ)
    → AmountBytes v ab
    → drop o bytes ≡ ab ++ rest
    → (if is_some v then some (u64_at bytes o) else none) ≡ v
unfolding u64_at
amount_back none bytes ab rest o h e = refl
amount_back (some v) bytes ab rest o (a, value, fits, shape) e =
    let read : le_value (take 8 (drop o bytes)) ≡ a =
      ap (λ bs. le_value (take 8 bs)) (e ∙ ap (λ bs. bs ++ rest) shape)
      ∙ ap le_value (take-append (le_bytes 8 a) rest (length-le_bytes 8 a))
      ∙ le_value-le_bytes 8 a fits in
    ap some (ap pos read ∙ sym value)

amount_offset :
    (a : Auth) (flags : WireFlags)
    → flags.lifetime_fresh ≡ not (is_some a.nonce_ref)
    → (if flags.lifetime_fresh then 35 else 68) ≡ 35 + (nonce_room a.nonce_ref + 0)
amount_offset a flags e = ground arith

signature_offset :
    (a : Auth) (flags : WireFlags) (o : ℕ)
    → flags.amount_in_auth ≡ is_some a.amount
    → o ≡ 35 + nonce_room a.nonce_ref
    → (if flags.amount_in_auth then o + 8 else o)
      ≡ 35 + (nonce_room a.nonce_ref + amount_room a.amount)
signature_offset a flags o e h = ground arith

module _ (k : Kit) where
  decode_auth-layout :
      (a : Auth) (flags : WireFlags) (ctx : DecodeContext) (bytes : List ℕ)
      → AuthLayout k a flags bytes
      → ctx.intent_flags ≡ some flags
      → decode_auth k bytes ctx ≡ ok a
  unfolding decode_auth
  decode_auth-layout a flags ctx bytes b echo =
      let x = b.payer_key in
      let nb = b.nonce_bytes in
      let ab = b.amount_bytes in
      let s = a.signature in
      let z = flags_to_byte flags in
      let tb = type_byte auth in
      let rest = x ++ (nb ++ (ab ++ s)) in
      let whole = 1 ∷ tb ∷ z ∷ rest in
      let nr = nonce_room a.nonce_ref in
      let ar = amount_room a.amount in
      let n_long : length nb ≡ nr = NonceBytes-length k a.nonce_ref nb b.nonce_NonceBytes in
      let a_long : length ab ≡ ar = AmountBytes-length a.amount ab b.amount_AmountBytes in
      let sized : suc (suc (suc (length rest))) ≡ expected_length auth flags = omega (
        arith,
        auth_size a flags b.fresh_flag b.amount_flag,
        length-append x (nb ++ (ab ++ s)),
        length-append nb (ab ++ s),
        length-append ab s,
        b.payer_IsKey.0,
        b.long,
      ) in
      let header : read_header whole auth ≡ ok flags =
        read_header-accepts auth flags rest b.one_payer tt sized in
      let f = flags.lifetime_fresh in
      let at_amount : ℕ = if f then 35 else 68 in
      let at_signature : ℕ = if flags.amount_in_auth then at_amount + 8 else at_amount in
      let o1 : at_amount ≡ 35 + (nr + 0) = amount_offset a flags b.fresh_flag in
      let o2 : at_signature ≡ 35 + (nr + ar) =
        signature_offset a flags at_amount b.amount_flag (omega (arith, o1)) in
      let past_nonce : (n : ℕ) → drop (35 + (nr + n)) whole ≡ drop n (ab ++ s) = λ n.
        behind_payer 1 tb z x (nb ++ (ab ++ s)) (nr + n) b.payer_IsKey
        ∙ drop_past nb (ab ++ s) nr n n_long in
      let nonce_ref =
        ap
          (λ t.
            if t
            then none
            else some
                (record { index = from_nat (get_or whole 35 0); value = base58_at k whole 36 }))
          b.fresh_flag
        ∙ nonce_back k a.nonce_ref whole nb (ab ++ s) b.nonce_NonceBytes
            (behind_payer 1 tb z x (nb ++ (ab ++ s)) 0 b.payer_IsKey)
            (behind_payer 1 tb z x (nb ++ (ab ++ s)) 1 b.payer_IsKey) in
      let amount =
        ap (λ t. if t then some (u64_at whole at_amount) else none) b.amount_flag
        ∙ amount_back a.amount whole ab s at_amount b.amount_AmountBytes
            (ap (λ o. drop o whole) o1 ∙ past_nonce 0) in
      let signature : slice whole at_signature 64 ≡ s =
        ap (λ o. take 64 (drop o whole)) o2
        ∙ ap (take 64) (past_nonce ar ∙ drop-append ab s a_long)
        ∙ ap (take 64) (sym (append-nil s))
        ∙ take-append s [] b.long in
      let payer : address_at k whole 3 ≡ a.payer =
        key_at_3 k 1 tb z x (nb ++ (ab ++ s)) b.payer_IsKey ∙ b.payer_decodes in
      rw (b.shape, header, echo, ==_refl z) (ap ok (Auth-eq _ a payer nonce_ref amount signature))

module _ (k : Kit) (laws : KitLaws k) where
  -- Where `encodeAuth` succeeds under some flags, `decodeAuth` in a context that holds those flags
  -- gives exactly the AUTH back.
  pub decode_auth-encode_auth :
      (a : Auth) (flags : WireFlags) (ctx : DecodeContext) (bytes : List ℕ)
      → encode_auth k a flags ≡ ok bytes
      → ctx.intent_flags ≡ some flags
      → decode_auth k bytes ctx ≡ ok a
  decode_auth-encode_auth a flags ctx bytes h echo =
      decode_auth-layout k a flags ctx bytes (encode_auth-layout k laws a flags h) echo
