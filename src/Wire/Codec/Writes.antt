-- ===== src/Wire/Codec/Writes.antt =====
-- What a successful field write leaves behind: the field, after the fields before it.
use vadum.Base.{
  ℕ, suc, ◌+◌, ◌^◌, ◌<◌, ◌≡◌, refl, sym, ◌∙◌, false, not, List, [], ◌∷◌, ◌++◌, arith, ltb, ◌==◌,
  length,
}
use vadum.Base.Int.{ℤ, pos, negsuc}
use vadum.Base.Text.{Text}
use vadum.Core.Errors.{
  Result, ◌>>=◌, ok, throw_if, or_throw, >>=-eq-ok, throw_if-eq-ok, or_throw-eq-ok, ok-injective,
}
use vadum.Core.Kit.{Kit, KitLaws, IsKey}
use vadum.Wire.Codec.Bytes.{
  zeros, put, blit, le_bytes, u64_max, write_key, write_address, write_u64, blit-next,
  length-le_bytes,
}
use vadum.Wire.Codec.Flags.{PayloadType, WireFlags, type_byte, flags_to_byte}
use vadum.Wire.Codec.Header.{write_header}

pub write_header-layout :
    (L m : ℕ) (type : PayloadType) (flags : WireFlags) {out : List ℕ}
    → L ≡ suc (suc (suc m))
    → write_header (zeros L) type flags ≡ ok out
    → (flags.fee_payer_separate ≡ false)
      × (out ≡ (1 ∷ type_byte type ∷ flags_to_byte flags ∷ []) ++ zeros m)
unfolding write_header put
write_header-layout L m type flags {out} e h =
    let (u, p, q) = >>=-eq-ok (throw_if flags.fee_payer_separate _) _ h in
    (throw_if-eq-ok flags.fee_payer_separate _ p, rw (← ok-injective q, e))

-- The same with the rest of the encoder as a continuation.
pub write_header-next {ℓ} :
    {B : Type ℓ} (L m : ℕ) (type : PayloadType) (flags : WireFlags) (f : List ℕ → Result B) {b : B}
    → (write_header (zeros L) type flags >>= f) ≡ ok b
    → L ≡ suc (suc (suc m))
    → (flags.fee_payer_separate ≡ false)
      × (f ((1 ∷ type_byte type ∷ flags_to_byte flags ∷ []) ++ zeros m) ≡ ok b)
write_header-next L m type flags f h e =
    let (out, p, q) = >>=-eq-ok (write_header (zeros L) type flags) f h in
    let (sep, shape) = write_header-layout L m type flags e p in (sep, rw shape at q)

pub blit-layout :
    (pre bytes : List ℕ) (offset n m : ℕ) {out : List ℕ}
    → length pre ≡ offset
    → n ≡ length bytes + m
    → blit (pre ++ zeros n) offset bytes ≡ ok out
    → out ≡ (pre ++ bytes) ++ zeros m
blit-layout pre bytes offset n m e s h = ok-injective (sym h ∙ blit-next pre bytes offset n m e s)

module _ (k : Kit) (laws : KitLaws k) where
  pub write_address-layout :
      (pre : List ℕ) (a : Text) (offset n m : ℕ) {out : List ℕ}
      → length pre ≡ offset
      → n ≡ 32 + m
      → write_address k (pre ++ zeros n) offset a ≡ ok out
      → (bs : List ℕ) × IsKey bs × (k.address_decode bs ≡ a) × (out ≡ (pre ++ bs) ++ zeros m)
  unfolding write_address
  write_address-layout pre a offset n m e s h =
      let (bs, p, q) = >>=-eq-ok (or_throw (k.address_encode a) _) _ h in
      let found = or_throw-eq-ok (k.address_encode a) _ p in
      let key = laws.address_encode-IsKey a bs found in
      (
        bs,
        key,
        laws.address_decode-encode a bs found,
        blit-layout pre bs offset n m e (omega arith) q,
      )

  pub write_address-next {ℓ} :
      {B : Type ℓ} (pre : List ℕ) (a : Text) (offset n m : ℕ) (f : List ℕ → Result B) {b : B}
      → (write_address k (pre ++ zeros n) offset a >>= f) ≡ ok b
      → length pre ≡ offset
      → n ≡ 32 + m
      → (bs : List ℕ) × IsKey bs × (k.address_decode bs ≡ a) × (f ((pre ++ bs) ++ zeros m) ≡ ok b)
  write_address-next pre a offset n m f h e s =
      let (out, p, q) = >>=-eq-ok (write_address k (pre ++ zeros n) offset a) f h in
      let (bs, key, back, shape) = write_address-layout pre a offset n m e s p in
      (bs, key, back, rw shape at q)

  pub write_key-layout :
      (pre : List ℕ) (t : Text) (offset n m : ℕ) {out : List ℕ}
      → length pre ≡ offset
      → n ≡ 32 + m
      → write_key k (pre ++ zeros n) offset t ≡ ok out
      → (bs : List ℕ) × IsKey bs × (k.base58_decode bs ≡ t) × (out ≡ (pre ++ bs) ++ zeros m)
  unfolding write_key
  write_key-layout pre t offset n m e s h =
      let (bs, p, q) = >>=-eq-ok (or_throw (k.base58_encode t) _) _ h in
      let found = or_throw-eq-ok (k.base58_encode t) _ p in
      let (u, r, w) = >>=-eq-ok (throw_if (not (length bs == 32)) _) _ q in
      let whole : length bs ≡ 32 = ground (arith, throw_if-eq-ok (not (length bs == 32)) _ r) in
      (
        bs,
        (whole, laws.base58_encode-IsByte t bs found),
        laws.base58_decode-encode t bs found,
        blit-layout pre bs offset n m e (omega arith) w,
      )

pub write_u64-layout :
    (pre : List ℕ) (v : ℤ) (offset n m : ℕ) {out : List ℕ}
    → length pre ≡ offset
    → n ≡ 8 + m
    → write_u64 (pre ++ zeros n) offset v ≡ ok out
    → (a : ℕ) × (v ≡ pos a) × (a < 256 ^ 8) × (out ≡ (pre ++ le_bytes 8 a) ++ zeros m)
unfolding write_u64
write_u64-layout pre (negsuc v) offset n m e s h = cc
write_u64-layout pre (pos v) offset n m e s h =
    let (u, p, q) = >>=-eq-ok (throw_if (ltb u64_max v) _) _ h in
    let fits = throw_if-eq-ok (ltb u64_max v) _ p in
    (
      v,
      refl,
      ground arith,
      blit-layout pre (le_bytes 8 v) offset n m e (omega (arith, length-le_bytes 8 v)) q,
    )

pub write_u64-next {ℓ} :
    {B : Type ℓ} (pre : List ℕ) (v : ℤ) (offset n m : ℕ) (f : List ℕ → Result B) {b : B}
    → (write_u64 (pre ++ zeros n) offset v >>= f) ≡ ok b
    → length pre ≡ offset
    → n ≡ 8 + m
    → (a : ℕ) × (v ≡ pos a) × (a < 256 ^ 8) × (f ((pre ++ le_bytes 8 a) ++ zeros m) ≡ ok b)
write_u64-next pre v offset n m f h e s =
    let (out, p, q) = >>=-eq-ok (write_u64 (pre ++ zeros n) offset v) f h in
    let (a, value, fits, shape) = write_u64-layout pre v offset n m e s p in
    (a, value, fits, rw shape at q)
