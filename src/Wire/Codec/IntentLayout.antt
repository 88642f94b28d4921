-- ===== src/Wire/Codec/IntentLayout.antt =====
-- The bytes of an INTENT and of a STATIC_INTENT, as a sequence of fields.
use vadum.Base.{
  ℕ, ◌+◌, ◌-◌, ◌^◌, ◌≤◌, ◌<◌, ◌≡◌, refl, ap, sym, ◌∙◌, true, false, not, Option, none, some, List,
  [], ◌∷◌, ◌++◌, arith, length, append_assoc, append-nil, length-append, is_some,
}
use vadum.Base.Int.{ℤ, pos}
use vadum.Base.Number.{to_uint8}
use vadum.Base.Text.{Text}
use vadum.Core.Errors.{Result, ◌>>=◌, ok, passed, found, ok-injective}
use vadum.Core.Kit.{Kit, KitLaws, IsKey}
use vadum.Core.Types.{Intent, Lifetime, nonce, fresh}
use vadum.Wire.Codec.Bytes.{
  zeros, put, le_bytes, put-next, length-le_bytes, write_address, write_u64,
}
use vadum.Wire.Codec.Flags.{
  PayloadType, intent, static_intent, type_byte, flags_to_byte, expected_length,
}
use vadum.Wire.Codec.Payloads.{
  flags_of, is_fresh, write_blockhash, encode_intent, encode_static_intent,
}
use vadum.Wire.Codec.Writes.{
  write_header-next, write_address-next, write_u64-next, write_key-layout,
}

-- The bytes behind the decimals.
abbrev pub Tail : Kit → Lifetime → List ℕ → Type 0
Tail k nonce tail = tail ≡ []
Tail k (fresh blockhash height) tail = IsKey tail × (k.base58_decode tail ≡ blockhash)

abbrev pub room : Lifetime → ℕ
room nonce = 0
room (fresh blockhash height) = 32

pub record IntentLayout (k : Kit) (i : Intent) (bytes : List ℕ) : Type 0 where
  pub merchant_key : List ℕ
  pub mint_key : List ℕ
  pub value : ℕ
  pub tail : List ℕ
  pub merchant_IsKey : IsKey merchant_key
  pub merchant_decodes : k.address_decode merchant_key ≡ i.merchant
  pub mint_IsKey : IsKey mint_key
  pub mint_decodes : k.address_decode mint_key ≡ i.mint
  pub amount : i.amount ≡ some (pos value)
  pub value_fits : value < 256 ^ 8
  pub tail_Tail : Tail k i.lifetime tail
  pub dynamic : i.is_static ≡ false
  pub one_payer : (flags_of i).fee_payer_separate ≡ false
  pub shape :
      bytes
      ≡ 1
        ∷ type_byte intent
        ∷ flags_to_byte (flags_of i)
        ∷ (merchant_key ++ (mint_key ++ (le_bytes 8 value ++ (to_uint8 i.decimals ∷ tail))))

pub record StaticLayout (k : Kit) (i : Intent) (bytes : List ℕ) : Type 0 where
  pub merchant_key : List ℕ
  pub mint_key : List ℕ
  pub merchant_IsKey : IsKey merchant_key
  pub merchant_decodes : k.address_decode merchant_key ≡ i.merchant
  pub mint_IsKey : IsKey mint_key
  pub mint_decodes : k.address_decode mint_key ≡ i.mint
  pub no_amount : i.amount ≡ none
  pub no_blockhash : i.lifetime ≡ nonce
  pub static : i.is_static ≡ true
  pub one_payer : (flags_of i).fee_payer_separate ≡ false
  pub shape :
      bytes
      ≡ 1
        ∷ type_byte static_intent
        ∷ flags_to_byte (flags_of i)
        ∷ (merchant_key ++ (mint_key ++ (to_uint8 i.decimals ∷ [])))

is_some→none {ℓ} : {A : Type ℓ} (o : Option A) → is_some o ≡ false → o ≡ none
is_some→none none h = refl
is_some→none (some a) h = cc

not_fresh : (l : Lifetime) → is_fresh l ≡ false → l ≡ nonce
unfolding is_fresh
not_fresh nonce h = refl
not_fresh (fresh b height) h = cc

pub Tail-length : (k : Kit) (l : Lifetime) (tail : List ℕ) → Tail k l tail → length tail ≡ room l
Tail-length k nonce tail h = ap length h
Tail-length k (fresh blockhash height) tail h = h.0.0

pub expected_room :
    (i : Intent)
    → (flags_of i).fee_payer_separate ≡ false
    → expected_length intent (flags_of i) ≡ 76 + room i.lifetime
unfolding flags_of expected_length is_fresh
expected_room i e = ground arith

intent_size : (i : Intent) → 76 ≤ expected_length intent (flags_of i)
unfolding expected_length
intent_size i = omega arith

abbrev header : PayloadType → Intent → List ℕ
header type i = 1 ∷ type_byte type ∷ flags_to_byte (flags_of i) ∷ []

regroup :
    (pre l : List ℕ) (d : ℕ) (tail : List ℕ)
    → ((pre ++ l) ++ (d ∷ [])) ++ tail ≡ pre ++ (l ++ (d ∷ tail))
regroup pre l d tail = simp append_assoc

module _ (k : Kit) (laws : KitLaws k) where
  write_blockhash-layout :
      (l : Lifetime) (pre : List ℕ) {out : List ℕ}
      → length pre ≡ 76
      → write_blockhash k l (pre ++ zeros (room l)) ≡ ok out
      → (tail : List ℕ) × Tail k l tail × (out ≡ pre ++ tail)
  unfolding write_blockhash
  write_blockhash-layout nonce pre e h = ([], refl, sym (ok-injective h))
  write_blockhash-layout (fresh b height) pre e h =
      let (bs, key, back, out) = write_key-layout k laws pre b 76 32 0 e (omega arith) h in
      (bs, (key, back), out ∙ append-nil (pre ++ bs))

  -- The two addresses behind the header, which both intents carry.
  pub two_addresses {ℓ} :
      {B : Type ℓ} (pre : List ℕ) (a b : Text) (n m : ℕ) (f : List ℕ → Result B) {r : B}
      → length pre ≡ 3
      → n ≡ 64 + m
      → (write_address k (pre ++ zeros n) 3 a >>= (λ w. write_address k w 35 b >>= f)) ≡ ok r
      → (x y : List ℕ) × (IsKey x × (k.address_decode x ≡ a))
        × (IsKey y × (k.address_decode y ≡ b))
        × (f ((pre ++ (x ++ y)) ++ zeros m) ≡ ok r)
  two_addresses pre a b n m f e s h =
      let (x, x_key, x_back, h1) =
        write_address-next k laws pre a 3 n (32 + m) _ h e (omega arith) in
      let (y, y_key, y_back, h2) =
        write_address-next k laws (pre ++ x) b 35 (32 + m) m f h1
          (omega (arith, length-append pre x)) refl in
      (x, y, (x_key, x_back), (y_key, y_back), rw (append_assoc pre x y) at h2)

  amount_and_Tail :
      (pre : List ℕ) (v : ℤ) (d : ℕ) (l : Lifetime) (n : ℕ) {bytes : List ℕ}
      → length pre ≡ 67
      → n ≡ 9 + room l
      → (write_u64 (pre ++ zeros n) 67 v >>= (λ w. write_blockhash k l (put w 75 d))) ≡ ok bytes
      → (a : ℕ) × (tail : List ℕ) × (v ≡ pos a)
        × (a < 256 ^ 8)
        × Tail k l tail
        × (bytes ≡ pre ++ (le_bytes 8 a ++ (d ∷ tail)))
  amount_and_Tail pre v d l n {bytes} e s h =
      finish (write_u64-next pre v 67 n (1 + room l) _ h e (omega arith))
    where
      finish :
          ((a : ℕ) × (v ≡ pos a)
            × (a < 256 ^ 8)
            × (write_blockhash k l (put ((pre ++ le_bytes 8 a) ++ zeros (1 + room l)) 75 d)
                ≡ ok bytes))
          → (a : ℕ) × (tail : List ℕ) × (v ≡ pos a)
            × (a < 256 ^ 8)
            × Tail k l tail
            × (bytes ≡ pre ++ (le_bytes 8 a ++ (d ∷ tail)))
      finish (a, value, fits, h1) =
          let fields = pre ++ le_bytes 8 a in
          let whole : length fields ≡ 75 =
            omega (arith, length-append pre (le_bytes 8 a), length-le_bytes 8 a) in
          let (tail, tailed, out) =
            write_blockhash-layout l (fields ++ (d ∷ []))
              (omega (arith, length-append fields (d ∷ [])))
              (rw (put-next fields 75 (1 + room l) (room l) d whole (omega arith)) at h1) in
          (a, tail, value, fits, tailed, out ∙ regroup pre (le_bytes 8 a) d tail)

  intent_body :
      (i : Intent) (v : ℤ) (n : ℕ) {bytes : List ℕ}
      → i.is_static ≡ false
      → i.amount ≡ some v
      → (flags_of i).fee_payer_separate ≡ false
      → n ≡ 73 + room i.lifetime
      → (x y : List ℕ) × (IsKey x × (k.address_decode x ≡ i.merchant))
        × (IsKey y × (k.address_decode y ≡ i.mint))
        × ((write_u64 ((header intent i ++ (x ++ y)) ++ zeros (n - 64)) 67 v
              >>= (λ w. write_blockhash k i.lifetime (put w 75 (to_uint8 i.decimals))))
            ≡ ok bytes)
      → IntentLayout k i bytes
  intent_body i v n dynamic e sep s (x, y, (x_key, x_back), (y_key, y_back), h) =
      let (a, tail, value, fits, tailed, out) =
        amount_and_Tail (header intent i ++ (x ++ y)) v (to_uint8 i.decimals) i.lifetime (n - 64)
          (omega (arith, length-append x y)) (omega arith) h in
      record {
        merchant_key = x;
        mint_key = y;
        value = a;
        tail = tail;
        merchant_IsKey = x_key;
        merchant_decodes = x_back;
        mint_IsKey = y_key;
        mint_decodes = y_back;
        amount = e ∙ ap some value;
        value_fits = fits;
        tail_Tail = tailed;
        dynamic = dynamic;
        one_payer = sep;
        shape = out ∙ simp append_assoc;
      }

  -- What `encodeIntent` writes, field by field.
  pub encode_intent-layout :
      (i : Intent) {bytes : List ℕ} → encode_intent k i ≡ ok bytes → IntentLayout k i bytes
  unfolding encode_intent
  encode_intent-layout i h =
      let size = expected_length intent (flags_of i) in
      let (dynamic, h1) = passed i.is_static _ _ h in
      let (v, e, h2) = found i.amount _ _ h1 in
      let large : 76 ≤ size = intent_size i in
      let (sep, h3) = write_header-next size (size - 3) intent (flags_of i) _ h2 (omega arith) in
      let left : size ≡ 76 + room i.lifetime = expected_room i sep in
      intent_body i v (size - 3) dynamic e sep (omega arith) (
        two_addresses (header intent i) i.merchant i.mint (size - 3) (size - 3 - 64) _ refl
          (omega arith) h3)

  static_body :
      (i : Intent) {bytes : List ℕ}
      → i.is_static ≡ true
      → i.amount ≡ none
      → i.lifetime ≡ nonce
      → (flags_of i).fee_payer_separate ≡ false
      → (x y : List ℕ) × (IsKey x × (k.address_decode x ≡ i.merchant))
        × (IsKey y × (k.address_decode y ≡ i.mint))
        × (ok (put ((header static_intent i ++ (x ++ y)) ++ zeros 1) 67 (to_uint8 i.decimals))
            ≡ ok bytes)
      → StaticLayout k i bytes
  static_body i static free live sep (x, y, (x_key, x_back), (y_key, y_back), h) =
      let pre = header static_intent i ++ (x ++ y) in
      let last =
        put-next pre 67 1 0 (to_uint8 i.decimals) (omega (arith, length-append x y)) refl in
      record {
        merchant_key = x;
        mint_key = y;
        merchant_IsKey = x_key;
        merchant_decodes = x_back;
        mint_IsKey = y_key;
        mint_decodes = y_back;
        no_amount = free;
        no_blockhash = live;
        static = static;
        one_payer = sep;
        shape = sym (ok-injective h) ∙ last ∙ simp (append_assoc, append-nil);
      }

  -- What `encodeStaticIntent` writes, field by field.
  pub encode_static_intent-layout :
      (i : Intent) {bytes : List ℕ} → encode_static_intent k i ≡ ok bytes → StaticLayout k i bytes
  unfolding encode_static_intent expected_length
  encode_static_intent-layout i h =
      let (static, h1) = passed (not i.is_static) _ _ h in
      let (free, h2) = passed (is_some i.amount) _ _ h1 in
      let (live, h3) = passed (is_fresh i.lifetime) _ _ h2 in
      let (sep, h4) = write_header-next 68 65 static_intent (flags_of i) _ h3 refl in
      static_body i (ground arith) (is_some→none i.amount free) (not_fresh i.lifetime live) sep
        (two_addresses (header static_intent i) i.merchant i.mint 65 1 _ refl refl h4)
