-- ===== src/Wire/Codec/Bytes.antt =====
-- packages/wire/src/codec.ts, reading and writing fields: a `Uint8Array` is a list of numbers, and a
-- write returns the new array.
use vadum.Base.{
  ℕ, zero, suc, ◌+◌, ◌-◌, ◌*◌, ◌/◌, ◌%◌, ◌^◌, ◌<◌, ◌≡◌, refl, ap, subst, ◌∙◌, not, List, [], ◌∷◌,
  ◌++◌, append_assoc, arith, ltb, leb, ◌==◌, if◌then◌else◌, length, take, drop, replicate, get_or,
  All, length-append, length-replicate, get_or, take-append, le→leb,
}
use vadum.Base.Int.{ℤ, pos, negsuc}
use vadum.Base.Text.{Text}
use vadum.Core.Errors.{
  Result, ok, err, foreign, vadum_error, wire_length_mismatch, ◌>>=◌, ◌>>◌, throw_if, or_throw,
}
use vadum.Core.Kit.{Kit, IsByte}

abbrev pub u64_max : ℕ
u64_max = 2 ^ 64 - 1

-- `new Uint8Array(n)`.
abbrev pub zeros : ℕ → List ℕ
zeros n = replicate n 0

-- `bytes.subarray(offset, offset + n)`, and `slice`.
abbrev pub slice : List ℕ → ℕ → ℕ → List ℕ
slice bytes offset n = take n (drop offset bytes)

-- `bytes[offset] = value`: a write past the end is ignored.
unfoldable pub put : List ℕ → ℕ → ℕ → List ℕ
put [] offset v = []
put (x ∷ xs) zero v = v ∷ xs
put (x ∷ xs) (suc n) v = x ∷ put xs n v

-- `out.set(bytes, offset)`: a RangeError where the bytes do not fit.
unfoldable pub blit : List ℕ → ℕ → List ℕ → Result (List ℕ)
blit out offset bytes =
    if leb (offset + length bytes) (length out)
    then ok (take offset out ++ (bytes ++ drop (offset + length bytes) out))
    else err foreign

-- Little-endian numbers, as `DataView` reads and writes them.
unfoldable pub le_bytes : ℕ → ℕ → List ℕ
le_bytes zero v = []
le_bytes (suc n) v = v % 256 ∷ le_bytes n (v / 256)

unfoldable pub le_value : List ℕ → ℕ
le_value [] = 0
le_value (b ∷ bs) = b + 256 * le_value bs

unfoldable pub address_at : Kit → List ℕ → ℕ → Text
address_at k bytes offset = k.address_decode (slice bytes offset 32)

unfoldable pub base58_at : Kit → List ℕ → ℕ → Text
base58_at k bytes offset = k.base58_decode (slice bytes offset 32)

unfoldable pub u64_at : List ℕ → ℕ → ℤ
u64_at bytes offset = pos (le_value (slice bytes offset 8))

unfoldable pub write_key : Kit → List ℕ → ℕ → Text → Result (List ℕ)
write_key k out offset value = do
  bytes ← or_throw (k.base58_encode value) foreign
  throw_if (not (length bytes == 32)) wire_length_mismatch
  blit out offset bytes

unfoldable pub write_address : Kit → List ℕ → ℕ → Text → Result (List ℕ)
write_address k out offset value = do
  bytes ← or_throw (k.address_encode value) foreign
  blit out offset bytes

unfoldable pub write_u64 : List ℕ → ℕ → ℤ → Result (List ℕ)
write_u64 out offset (negsuc n) = err (vadum_error wire_length_mismatch)
write_u64 out offset (pos n) = do
  throw_if (ltb u64_max n) wire_length_mismatch
  blit out offset (le_bytes 8 n)

pub length-le_bytes : (n v : ℕ) → length (le_bytes n v) ≡ n
unfolding le_bytes
length-le_bytes zero v = refl
length-le_bytes (suc n) v = ap suc (length-le_bytes n (v / 256))

pub le_value-le_bytes : (n v : ℕ) → v < 256 ^ n → le_value (le_bytes n v) ≡ v
unfolding le_bytes le_value
le_value-le_bytes zero v h = omega arith
le_value-le_bytes (suc n) v h = grind (arith, le_value-le_bytes n (v / 256))

pub le_bytes-le_value :
    (n : ℕ) (bs : List ℕ) → length bs ≡ n → All IsByte bs → le_bytes n (le_value bs) ≡ bs
unfolding le_bytes le_value
le_bytes-le_value zero [] e h = refl
le_bytes-le_value zero (b ∷ bs) e h = absurd (omega arith)
le_bytes-le_value (suc n) [] e h = absurd (omega arith)
le_bytes-le_value (suc n) (b ∷ bs) e h =
    let low : (b + 256 * le_value bs) % 256 ≡ b = omega arith in
    let high : (b + 256 * le_value bs) / 256 ≡ le_value bs = omega arith in
    rw (low, high, le_bytes-le_value n bs (omega arith) h.1)

pub le_bytes-IsByte : (n v : ℕ) → All IsByte (le_bytes n v)
unfolding le_bytes
le_bytes-IsByte zero v = tt
le_bytes-IsByte (suc n) v = (omega arith, le_bytes-IsByte n (v / 256))

drop-zeros : (k m : ℕ) → drop k (zeros (k + m)) ≡ zeros m
drop-zeros zero m = ap zeros (omega arith)
drop-zeros (suc k) m = let e : suc k + m ≡ suc (k + m) = omega arith in rw e (drop-zeros k m)

pub drop-skip : (xs ys : List ℕ) (k : ℕ) → drop (length xs + k) (xs ++ ys) ≡ drop k ys
drop-skip [] ys k = ap (λ n. drop n ys) (omega arith)
drop-skip (x ∷ xs) ys k =
    let e : suc (length xs) + k ≡ suc (length xs + k) = omega arith in rw e (drop-skip xs ys k)

-- The next field goes behind the fields that are written, and the rest stays zero.
pub blit-next :
    (pre bytes : List ℕ) (offset n m : ℕ)
    → length pre ≡ offset
    → n ≡ length bytes + m
    → blit (pre ++ zeros n) offset bytes ≡ ok ((pre ++ bytes) ++ zeros m)
unfolding blit
blit-next pre bytes offset n m h e =
    let whole : length (pre ++ zeros n) ≡ length pre + n =
      omega (arith, length-append pre (zeros n), length-replicate {A = ℕ} n 0) in
    let fits = le→leb (length pre + length bytes) (length (pre ++ zeros n)) (omega arith) in
    let rest : drop (length pre + length bytes) (pre ++ zeros n) ≡ zeros m =
      drop-skip pre (zeros n) (length bytes)
      ∙ ap (λ k. drop (length bytes) (zeros k)) e
      ∙ drop-zeros (length bytes) m in
    rw (← h, fits, take-append pre (zeros n) refl, rest, append_assoc pre bytes (zeros m))

pub put-next :
    (pre : List ℕ) (offset n m v : ℕ)
    → length pre ≡ offset
    → n ≡ suc m
    → put (pre ++ zeros n) offset v ≡ (pre ++ (v ∷ [])) ++ zeros m
unfolding put
put-next [] zero n m v h e = rw e
put-next [] (suc offset) n m v h e = absurd (omega arith)
put-next (x ∷ pre) zero n m v h e = absurd (omega arith)
put-next (x ∷ pre) (suc offset) n m v h e = ap (◌∷◌ x) (put-next pre offset n m v (omega arith) e)

pub drop_past : (xs ys : List ℕ) (m n : ℕ) → length xs ≡ m → drop (m + n) (xs ++ ys) ≡ drop n ys
drop_past xs ys m n e = subst (λ j. drop (j + n) (xs ++ ys) ≡ drop n ys) e (drop-skip xs ys n)

pub get_or-drop : (xs : List ℕ) (n d : ℕ) → get_or xs n d ≡ get_or (drop n xs) 0 d
get_or-drop [] zero d = refl
get_or-drop [] (suc n) d = refl
get_or-drop (x ∷ xs) zero d = refl
get_or-drop (x ∷ xs) (suc n) d = get_or-drop xs n d
