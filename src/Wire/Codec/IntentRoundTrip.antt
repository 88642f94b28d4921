-- ===== src/Wire/Codec/IntentRoundTrip.antt =====
-- A payer who decodes what a merchant encoded sees the merchant's intent.
use vadum.Base.{
  ℕ, suc, ◌+◌, ◌≤◌, ◌≡◌, refl, ap, sym, ◌∙◌, true, false, some, List, [], ◌∷◌, ◌++◌, arith, length,
  take, drop, get_or, append-nil, length-append, if◌then◌else◌, take-append, drop-append,
}
use vadum.Base.Int.{pos}
use vadum.Base.Number.{from_nat, to_uint8, number_is, number_is-from_nat, to_uint8-from_nat}
use vadum.Base.Text.{text_eq→eq}
use vadum.Core.Errors.{ok}
use vadum.Core.Kit.{Kit, KitLaws, IsKey}
use vadum.Core.Types.{
  Intent-eq, Intent, MintRecord, Lifetime, nonce, fresh, TokenProgram, spl_token, token_2022,
  same_program,
}
use vadum.Wire.Codec.Bytes.{
  drop_past, get_or-drop, le_bytes, le_value, le_value-le_bytes, length-le_bytes, address_at,
  base58_at, u64_at,
}
use vadum.Wire.Codec.Flags.{intent, type_byte, flags_to_byte, expected_length}
use vadum.Wire.Codec.Header.{DecodeContext, read_header, program_of, check_against_cache}
use vadum.Wire.Codec.Accepts.{read_header-accepts}
use vadum.Wire.Codec.Payloads.{flags_of, is_fresh, encode_intent, decode_intent}
use vadum.Wire.Codec.IntentLayout.{
  Tail-length, expected_room, Tail, IntentLayout, encode_intent-layout,
}

-- The decimals fit the byte, and the payer has cached the mint with the intent's decimals and token
-- program.
pub record Cached (ctx : DecodeContext) (i : Intent) : Type 0 where
  pub digits : ℕ
  pub digits_fit : digits ≤ 255
  pub digits_of_intent : i.decimals ≡ from_nat digits
  pub entry : MintRecord
  pub entry_cached : ctx.mint_cache i.mint ≡ some entry
  pub entry_decimals : entry.decimals ≡ i.decimals
  pub entry_program : entry.token_program ≡ i.token_program

-- What the payer receives: `lastValidBlockHeight` is not on the wire, and reads as 0.
abbrev pub received_lifetime : Lifetime → Lifetime
received_lifetime nonce = nonce
received_lifetime (fresh blockhash height) = fresh blockhash (pos 0)

abbrev pub received : Intent → Intent
received i = record i { lifetime = received_lifetime i.lifetime }

program_of-flags_of : (i : Intent) → program_of (flags_of i) ≡ i.token_program
unfolding program_of flags_of same_program
program_of-flags_of i = ground arith

same_program_refl : (p : TokenProgram) → same_program p p ≡ true
unfolding same_program
same_program_refl spl_token = refl
same_program_refl token_2022 = refl

pub byte_of_digits :
    (i : Intent) (ctx : DecodeContext) (c : Cached ctx i) → to_uint8 i.decimals ≡ c.digits
byte_of_digits i ctx c = ap to_uint8 c.digits_of_intent ∙ to_uint8-from_nat c.digits c.digits_fit

pub check_against_cache-accepts :
    (ctx : DecodeContext) (i : Intent) (c : Cached ctx i)
    → check_against_cache ctx i.mint (to_uint8 i.decimals) (flags_of i) ≡ ok i.token_program
unfolding check_against_cache
check_against_cache-accepts ctx i c =
    let byte : to_uint8 i.decimals ≡ c.digits =
      ap to_uint8 c.digits_of_intent ∙ to_uint8-from_nat c.digits c.digits_fit in
    let same : number_is c.entry.decimals c.digits ≡ true =
      ap (λ x. number_is x c.digits) (c.entry_decimals ∙ c.digits_of_intent)
      ∙ number_is-from_nat c.digits in
    rw (
      c.entry_cached,
      byte,
      same,
      c.entry_program,
      program_of-flags_of i,
      same_program_refl i.token_program,
    )

-- The fields of a sequence of keys behind the header.
pub key_at_3 :
    (k : Kit) (a b c : ℕ) (x rest : List ℕ)
    → IsKey x
    → address_at k (a ∷ b ∷ c ∷ (x ++ rest)) 3 ≡ k.address_decode x
unfolding address_at
key_at_3 k a b c x rest key = ap k.address_decode (take-append x rest key.0)

pub key_at_35 :
    (k : Kit) (a b c : ℕ) (x y rest : List ℕ)
    → IsKey x
    → IsKey y
    → address_at k (a ∷ b ∷ c ∷ (x ++ (y ++ rest))) 35 ≡ k.address_decode y
unfolding address_at
key_at_35 k a b c x y rest kx ky =
    ap k.address_decode (ap (take 32) (drop-append x (y ++ rest) kx.0) ∙ take-append y rest ky.0)

module _ (x y rest : List ℕ) (kx : IsKey x) (ky : IsKey y) where
  pub past_keys : (n : ℕ) → drop (64 + n) (x ++ (y ++ rest)) ≡ drop n rest
  past_keys n =
      let e : 64 + n ≡ 32 + (32 + n) = omega arith in
      rw e (drop_past x (y ++ rest) 32 (32 + n) kx.0 ∙ drop_past y rest 32 n ky.0)

  pub byte_at_67 : (a b c : ℕ) → get_or (a ∷ b ∷ c ∷ (x ++ (y ++ rest))) 67 0 ≡ get_or rest 0 0
  byte_at_67 a b c = get_or-drop (x ++ (y ++ rest)) 64 0 ∙ ap (λ bs. get_or bs 0 0) (past_keys 0)

module _ (x y l rest : List ℕ) (kx : IsKey x) (ky : IsKey y) (long : length l ≡ 8) where
  past_amount : (n : ℕ) → drop (72 + n) (x ++ (y ++ (l ++ rest))) ≡ drop n rest
  past_amount n =
      let e : 72 + n ≡ 64 + (8 + n) = omega arith in
      rw e (past_keys x y (l ++ rest) kx ky (8 + n) ∙ drop_past l rest 8 n long)

  u64_at_67 : (a b c : ℕ) → u64_at (a ∷ b ∷ c ∷ (x ++ (y ++ (l ++ rest)))) 67 ≡ pos (le_value l)
  unfolding u64_at
  u64_at_67 a b c =
      ap (λ bs. pos (le_value (take 8 bs))) (past_keys x y (l ++ rest) kx ky 0)
      ∙ ap (λ bs. pos (le_value bs)) (take-append l rest long)

  byte_at_75 : (a b c : ℕ) → get_or (a ∷ b ∷ c ∷ (x ++ (y ++ (l ++ rest)))) 75 0 ≡ get_or rest 0 0
  byte_at_75 a b c =
      get_or-drop (x ++ (y ++ (l ++ rest))) 72 0 ∙ ap (λ bs. get_or bs 0 0) (past_amount 0)

length_fields :
    (x y l : List ℕ) (d : ℕ) (tail : List ℕ)
    → length (x ++ (y ++ (l ++ (d ∷ tail)))) ≡ length x + length y + length l + suc (length tail)
length_fields x y l d tail = omega (
  arith,
  length-append x (y ++ (l ++ (d ∷ tail))),
  length-append y (l ++ (d ∷ tail)),
  length-append l (d ∷ tail),
)

pub dynamic_flags : (i : Intent) → i.is_static ≡ false → (flags_of i).amount_in_auth ≡ false
unfolding flags_of
dynamic_flags i h = h

pub one_payer : (i : Intent) → (flags_of i).fee_payer_separate ≡ false → i.fee_payer ≡ i.merchant
unfolding flags_of
one_payer i h = text_eq→eq i.fee_payer i.merchant (ground arith)

module _ (k : Kit) where
  received-Tail :
      (l : Lifetime) (tail : List ℕ)
      → Tail k l tail
      → (if is_fresh l then fresh (k.base58_decode (take 32 tail)) (pos 0) else nonce)
        ≡ received_lifetime l
  unfolding is_fresh
  received-Tail nonce tail h = refl
  received-Tail (fresh b height) tail h =
      let whole : take 32 tail ≡ tail =
        ap (take 32) (sym (append-nil tail)) ∙ take-append tail [] h.0.0 in
      rw (whole, h.1)

  decode_intent-layout :
      (i : Intent) (ctx : DecodeContext) (bytes : List ℕ)
      → IntentLayout k i bytes
      → Cached ctx i
      → decode_intent k bytes ctx ≡ ok (received i)
  unfolding decode_intent flags_of is_fresh
  decode_intent-layout i ctx bytes b c =
      let x = b.merchant_key in
      let y = b.mint_key in
      let l = le_bytes 8 b.value in
      let d = to_uint8 i.decimals in
      let f = flags_of i in
      let whole : length l ≡ 8 = length-le_bytes 8 b.value in
      let z = flags_to_byte f in
      let tb = type_byte intent in
      let rest = x ++ (y ++ (l ++ (d ∷ b.tail))) in
      let sized : suc (suc (suc (length rest))) ≡ expected_length intent f = omega (
        arith,
        length_fields x y l d b.tail,
        b.merchant_IsKey.0,
        b.mint_IsKey.0,
        Tail-length k i.lifetime b.tail b.tail_Tail,
        expected_room i b.one_payer,
      ) in
      let header : read_header (1 ∷ tb ∷ z ∷ rest) intent ≡ ok f =
        read_header-accepts intent f rest b.one_payer (dynamic_flags i b.dynamic) sized in
      let merchant : address_at k (1 ∷ tb ∷ z ∷ rest) 3 ≡ i.merchant =
        key_at_3 k 1 tb z x (y ++ (l ++ (d ∷ b.tail))) b.merchant_IsKey ∙ b.merchant_decodes in
      let mint : address_at k (1 ∷ tb ∷ z ∷ rest) 35 ≡ i.mint =
        key_at_35 k 1 tb z x y (l ++ (d ∷ b.tail)) b.merchant_IsKey b.mint_IsKey ∙ b.mint_decodes in
      let digits : get_or (1 ∷ tb ∷ z ∷ rest) 75 0 ≡ d =
        byte_at_75 x y l (d ∷ b.tail) b.merchant_IsKey b.mint_IsKey whole 1 tb z in
      let amount : u64_at (1 ∷ tb ∷ z ∷ rest) 67 ≡ pos b.value =
        u64_at_67 x y l (d ∷ b.tail) b.merchant_IsKey b.mint_IsKey whole 1 tb z
        ∙ ap pos (le_value-le_bytes 8 b.value b.value_fits) in
      let blockhash : base58_at k (1 ∷ tb ∷ z ∷ rest) 76 ≡ k.base58_decode (take 32 b.tail) =
        unfold base58_at in
        ap (λ bs. k.base58_decode (take 32 bs))
          (past_amount x y l (d ∷ b.tail) b.merchant_IsKey b.mint_IsKey whole 1) in
      rw (b.shape, header, mint, digits, check_against_cache-accepts ctx i c)
        (ap ok (
          Intent-eq _ (received i) merchant refl
            (ap from_nat (byte_of_digits i ctx c) ∙ sym c.digits_of_intent)
            (ap some amount ∙ sym b.amount)
            (ap (λ h. if f.lifetime_fresh then fresh h (pos 0) else nonce) blockhash
              ∙ received-Tail i.lifetime b.tail b.tail_Tail)
            refl refl (merchant ∙ sym (one_payer i b.one_payer)) (sym b.dynamic)))

module _ (k : Kit) (laws : KitLaws k) where
  -- Where `encodeIntent` succeeds, and the mint is cached with the decimals (at most 255) and the
  -- token program of the intent, `decodeIntent` of the bytes gives the intent back, its block
  -- height read as 0.
  pub decode_intent-encode_intent :
      (i : Intent) (ctx : DecodeContext) (bytes : List ℕ)
      → encode_intent k i ≡ ok bytes
      → Cached ctx i
      → decode_intent k bytes ctx ≡ ok (received i)
  decode_intent-encode_intent i ctx bytes h c =
      decode_intent-layout k i ctx bytes (encode_intent-layout k laws i h) c
