-- ===== src/Wire/Codec/AuthLayout.antt =====
-- The bytes of an AUTH, as a sequence of fields.
use vadum.Base.{
  ℕ, ◌≤◌, suc, ◌+◌, ◌-◌, ◌^◌, ◌<◌, ◌≡◌, refl, ap, sym, ◌∙◌, Bool, true, false, not, Option, none,
  some, List, [], ◌∷◌, ◌++◌, arith, length, append_assoc, append-nil, length-append, is_some,
  bool_eq, ◌==◌,
}
use vadum.Base.Int.{ℤ, pos}
use vadum.Base.Number.{from_nat, to_uint8, is_u8, is_u8→nat, to_uint8-from_nat}
use vadum.Core.Errors.{Result, ◌>>=◌, ok, >>=-eq-ok, passed}
use vadum.Core.Kit.{Kit, KitLaws, IsKey}
use vadum.Core.Types.{Auth, NonceRef}
use vadum.Wire.Codec.Bytes.{zeros, put, blit, le_bytes, put-next, length-le_bytes, write_key}
use vadum.Wire.Codec.Flags.{auth, WireFlags, type_byte, flags_to_byte, expected_length}
use vadum.Wire.Codec.Payloads.{write_nonce_ref, write_amount, encode_auth}
use vadum.Wire.Codec.Writes.{
  write_header-next, write_address-next, write_key-layout, write_u64-next, blit-layout,
}

abbrev pub nonce_room : Option NonceRef → ℕ
nonce_room none = 0
nonce_room (some r) = 33

abbrev pub amount_room : Option ℤ → ℕ
amount_room none = 0
amount_room (some v) = 8

abbrev pub NonceBytes : Kit → Option NonceRef → List ℕ → Type 0
NonceBytes k none bytes = bytes ≡ []
NonceBytes k (some r) bytes =
    (n : ℕ) × (key : List ℕ) × (r.index ≡ from_nat n)
    × (n ≤ 255)
    × IsKey key
    × (k.base58_decode key ≡ r.value)
    × (bytes ≡ n ∷ key)

abbrev pub AmountBytes : Option ℤ → List ℕ → Type 0
AmountBytes none bytes = bytes ≡ []
AmountBytes (some v) bytes = (a : ℕ) × (v ≡ pos a) × (a < 256 ^ 8) × (bytes ≡ le_bytes 8 a)

pub record AuthLayout (k : Kit) (a : Auth) (flags : WireFlags) (bytes : List ℕ) : Type 0 where
  pub payer_key : List ℕ
  pub nonce_bytes : List ℕ
  pub amount_bytes : List ℕ
  pub payer_IsKey : IsKey payer_key
  pub payer_decodes : k.address_decode payer_key ≡ a.payer
  pub nonce_NonceBytes : NonceBytes k a.nonce_ref nonce_bytes
  pub amount_AmountBytes : AmountBytes a.amount amount_bytes
  pub long : length a.signature ≡ 64
  pub fresh_flag : flags.lifetime_fresh ≡ not (is_some a.nonce_ref)
  pub amount_flag : flags.amount_in_auth ≡ is_some a.amount
  pub one_payer : flags.fee_payer_separate ≡ false
  pub shape :
      bytes
      ≡ 1
        ∷ type_byte auth
        ∷ flags_to_byte flags
        ∷ (payer_key ++ (nonce_bytes ++ (amount_bytes ++ a.signature)))

pub bool_eq→eq : (a b : Bool) → bool_eq a b ≡ true → a ≡ b
bool_eq→eq a b h = ground arith

abbrev header : WireFlags → List ℕ
header flags = 1 ∷ type_byte auth ∷ flags_to_byte flags ∷ []

pub auth_size :
    (a : Auth) (flags : WireFlags)
    → flags.lifetime_fresh ≡ not (is_some a.nonce_ref)
    → flags.amount_in_auth ≡ is_some a.amount
    → expected_length auth flags ≡ 99 + nonce_room a.nonce_ref + amount_room a.amount
unfolding expected_length
auth_size a flags e h = ground arith

pub NonceBytes-length :
    (k : Kit) (r : Option NonceRef) (bytes : List ℕ)
    → NonceBytes k r bytes
    → length bytes ≡ nonce_room r
NonceBytes-length k none bytes h = ap length h
NonceBytes-length k (some r) bytes (n, key, e, low, whole, back, h) = ap length h ∙ ap suc whole.0

pub AmountBytes-length :
    (v : Option ℤ) (bytes : List ℕ) → AmountBytes v bytes → length bytes ≡ amount_room v
AmountBytes-length none bytes h = ap length h
AmountBytes-length (some v) bytes (a, e, fits, h) = ap length h ∙ length-le_bytes 8 a

regroup : (p x n a s : List ℕ) → (((p ++ x) ++ n) ++ a) ++ s ≡ p ++ (x ++ (n ++ (a ++ s)))
regroup p x n a s = simp append_assoc

abbrev with_offset : ℕ → List ℕ → Result (List ℕ × ℕ)
with_offset o out = ok (out, o)

module _ (k : Kit) (laws : KitLaws k) where
  nonce-IsKey :
      (r : NonceRef) (pre : List ℕ) (o n m : ℕ) (out : List ℕ) (o' : ℕ)
      → length pre ≡ o
      → n ≡ 33 + m
      → (write_key k (put (pre ++ zeros n) o (to_uint8 r.index)) (o + 1) r.value
          >>= with_offset (o + 33))
        ≡ ok (out, o')
      → (key : List ℕ) × IsKey key
        × (k.base58_decode key ≡ r.value)
        × (out ≡ (pre ++ (to_uint8 r.index ∷ key)) ++ zeros m)
        × (o' ≡ o + 33)
  nonce-IsKey r pre o n m out o' e s h =
      let z = to_uint8 r.index in
      let placed = put-next pre o n (32 + m) z e (omega arith) in
      let (w, p, q) =
        >>=-eq-ok (write_key k ((pre ++ (z ∷ [])) ++ zeros (32 + m)) (o + 1) r.value) _
          (rw placed at h) in
      let (key, whole, back, shape) =
        write_key-layout k laws (pre ++ (z ∷ [])) r.value (o + 1) (32 + m) m
          (omega (arith, length-append pre (z ∷ []))) refl p in
      let split : (w ≡ out) × (o + 33 ≡ o') = (cc q, cc q) in
      (
        key,
        whole,
        back,
        sym split.0 ∙ shape ∙ ap (λ bs. bs ++ zeros m) (append_assoc pre (z ∷ []) key),
        sym split.1,
      )

  write_nonce_ref-layout :
      (ref : Option NonceRef) (pre : List ℕ) (o n m : ℕ) (out : List ℕ) (o' : ℕ)
      → length pre ≡ o
      → n ≡ nonce_room ref + m
      → write_nonce_ref k ref (pre ++ zeros n) o ≡ ok (out, o')
      → (bytes : List ℕ) × NonceBytes k ref bytes
        × (out ≡ (pre ++ bytes) ++ zeros m)
        × (o' ≡ o + nonce_room ref)
  unfolding write_nonce_ref
  write_nonce_ref-layout none pre o n m out o' e s h =
      let same : n ≡ m = omega arith in
      let split : (pre ++ zeros n ≡ out) × (o ≡ o') = (cc h, cc h) in
      (
        [],
        refl,
        sym split.0
            ∙ ap (λ j. pre ++ zeros j) same
            ∙ ap (λ bs. bs ++ zeros m) (sym (append-nil pre)),
        omega arith,
      )
  write_nonce_ref-layout (some r) pre o n m out o' e s h =
      let (small, h1) = passed (not (is_u8 r.index)) _ _ h in
      let (i, index, low) = is_u8→nat r.index (ground arith) in
      let byte : to_uint8 r.index ≡ i = ap to_uint8 index ∙ to_uint8-from_nat i low in
      let (key, whole, back, shape, next) = nonce-IsKey r pre o n m out o' e s h1 in
      (
        to_uint8 r.index ∷ key,
        (
          to_uint8 r.index,
          key,
          index ∙ ap from_nat (sym byte),
          omega (arith, low, byte),
          whole,
          back,
          refl,
        ),
        shape,
        next,
      )

  write_amount-layout :
      (v : Option ℤ) (pre : List ℕ) (o n m : ℕ) (out : List ℕ) (o' : ℕ)
      → length pre ≡ o
      → n ≡ amount_room v + m
      → write_amount k v (pre ++ zeros n) o ≡ ok (out, o')
      → (bytes : List ℕ) × AmountBytes v bytes
        × (out ≡ (pre ++ bytes) ++ zeros m)
        × (o' ≡ o + amount_room v)
  unfolding write_amount
  write_amount-layout none pre o n m out o' e s h =
      let same : n ≡ m = omega arith in
      let split : (pre ++ zeros n ≡ out) × (o ≡ o') = (cc h, cc h) in
      (
        [],
        refl,
        sym split.0
            ∙ ap (λ j. pre ++ zeros j) same
            ∙ ap (λ bs. bs ++ zeros m) (sym (append-nil pre)),
        omega arith,
      )
  write_amount-layout (some v) pre o n m out o' e s h =
      let (a, value, fits, h1) = write_u64-next pre v o n m _ h e s in
      let split : ((pre ++ le_bytes 8 a) ++ zeros m ≡ out) × (o + 8 ≡ o') = (cc h1, cc h1) in
      (le_bytes 8 a, (a, value, fits, refl), sym split.0, sym split.1)

  signature_part :
      (a : Auth) (pre : List ℕ) (o n : ℕ) {bytes : List ℕ}
      → length pre ≡ o
      → length a.signature ≡ 64
      → n ≡ 64
      → blit (pre ++ zeros n) o a.signature ≡ ok bytes
      → bytes ≡ pre ++ a.signature
  signature_part a pre o n e long s h =
      blit-layout pre a.signature o n 0 e (omega arith) h ∙ append-nil (pre ++ a.signature)

  amount_part :
      (a : Auth) (pre : List ℕ) (o n : ℕ) {bytes : List ℕ}
      → length pre ≡ o
      → length a.signature ≡ 64
      → n ≡ amount_room a.amount + 64
      → (r : List ℕ × ℕ) × (write_amount k a.amount (pre ++ zeros n) o ≡ ok r)
        × (blit r.0 r.1 a.signature ≡ ok bytes)
      → (ab : List ℕ) × AmountBytes a.amount ab × (bytes ≡ (pre ++ ab) ++ a.signature)
  amount_part a pre o n e long s ((out, o'), p, q) =
      let (ab, written, shape, next) = write_amount-layout a.amount pre o n 64 out o' e s p in
      let size = AmountBytes-length a.amount ab written in
      (
        ab,
        written,
        signature_part a (pre ++ ab) o' 64 (omega (arith, length-append pre ab)) long refl
            (rw shape at q),
      )

  nonce_part :
      (a : Auth) (pre : List ℕ) (n : ℕ) {bytes : List ℕ}
      → length pre ≡ 35
      → length a.signature ≡ 64
      → n ≡ nonce_room a.nonce_ref + (amount_room a.amount + 64)
      → (r : List ℕ × ℕ) × (write_nonce_ref k a.nonce_ref (pre ++ zeros n) 35 ≡ ok r)
        × ((write_amount k a.amount r.0 r.1 >>= (λ s. blit s.0 s.1 a.signature)) ≡ ok bytes)
      → (nb ab : List ℕ) × NonceBytes k a.nonce_ref nb
        × AmountBytes a.amount ab
        × (bytes ≡ ((pre ++ nb) ++ ab) ++ a.signature)
  nonce_part a pre n e long s ((out, o'), p, q) =
      let (nb, written, shape, next) =
        write_nonce_ref-layout a.nonce_ref pre 35 n (amount_room a.amount + 64) out o' e s p in
      let size = NonceBytes-length k a.nonce_ref nb written in
      let (ab, more, all) =
        amount_part a (pre ++ nb) o' (amount_room a.amount + 64)
          (omega (arith, length-append pre nb)) long refl
          (>>=-eq-ok (write_amount k a.amount ((pre ++ nb) ++ zeros (amount_room a.amount + 64)) o')
            (λ s. blit s.0 s.1 a.signature) (rw shape at q)) in
      (nb, ab, written, more, all)

  auth_body :
      (a : Auth) (flags : WireFlags) (n : ℕ) {bytes : List ℕ}
      → length a.signature ≡ 64
      → flags.lifetime_fresh ≡ not (is_some a.nonce_ref)
      → flags.amount_in_auth ≡ is_some a.amount
      → flags.fee_payer_separate ≡ false
      → n ≡ nonce_room a.nonce_ref + (amount_room a.amount + 64)
      → (x : List ℕ) × IsKey x
        × (k.address_decode x ≡ a.payer)
        × ((write_nonce_ref k a.nonce_ref ((header flags ++ x) ++ zeros n) 35
              >>= (λ r. write_amount k a.amount r.0 r.1 >>= (λ s. blit s.0 s.1 a.signature)))
            ≡ ok bytes)
      → AuthLayout k a flags bytes
  auth_body a flags n long e1 e2 sep s (x, key, back, h) =
      let (nb, ab, nonces, amounts, shape) =
        nonce_part a (header flags ++ x) n (omega arith) long s
          (>>=-eq-ok (write_nonce_ref k a.nonce_ref ((header flags ++ x) ++ zeros n) 35) _ h) in
      record {
        payer_key = x;
        nonce_bytes = nb;
        amount_bytes = ab;
        payer_IsKey = key;
        payer_decodes = back;
        nonce_NonceBytes = nonces;
        amount_AmountBytes = amounts;
        long = long;
        fresh_flag = e1;
        amount_flag = e2;
        one_payer = sep;
        shape = shape ∙ regroup (header flags) x nb ab a.signature;
      }

  -- What `encodeAuth` writes, field by field.
  pub encode_auth-layout :
      (a : Auth) (flags : WireFlags) {bytes : List ℕ}
      → encode_auth k a flags ≡ ok bytes
      → AuthLayout k a flags bytes
  unfolding encode_auth
  encode_auth-layout a flags h =
      let (p, h1) = passed (not (length a.signature == 64)) _ _ h in
      let (q, h2) =
        passed (not (bool_eq flags.lifetime_fresh (not (is_some a.nonce_ref)))) _ _ h1 in
      let (r, h3) = passed (not (bool_eq flags.amount_in_auth (is_some a.amount))) _ _ h2 in
      let e1 = bool_eq→eq flags.lifetime_fresh (not (is_some a.nonce_ref)) (ground arith) in
      let e2 = bool_eq→eq flags.amount_in_auth (is_some a.amount) (ground arith) in
      let long : length a.signature ≡ 64 = ground arith in
      let size = expected_length auth flags in
      let whole : size ≡ 99 + nonce_room a.nonce_ref + amount_room a.amount =
        auth_size a flags e1 e2 in
      let (sep, h4) = write_header-next size (size - 3) auth flags _ h3 (omega arith) in
      auth_body a flags (size - 35) long e1 e2 sep (omega arith) (
        write_address-next k laws (header flags) a.payer 3 (size - 3) (size - 35) _ h4 refl
          (omega arith))
