-- ===== src/Wire/Codec/Accepts.antt =====
-- The header check accepts what `write_header` writes, and nothing else.
use vadum.Base.{
  ℕ, suc, ◌<◌, ◌≡◌, refl, ap, subst, sym, ◌∙◌, true, false, not, some, List, [], ◌∷◌, arith, ltb,
  ◌==◌, ==_refl, length, All, get_or, all_below, all_below_sound, if◌then◌else◌,
}
use vadum.Core.Errors.{ok, >>=-eq-ok, passed, found, ok-injective}
use vadum.Core.Kit.{IsByte}
use vadum.Wire.Codec.Flags.{
  PayloadType, intent, static_intent, auth, nonce_return, WireFlags, type_byte, type_name, has_bit,
  flags_from_byte, flags_to_byte, expected_length, same_type, type_name-type_byte,
  type_byte-type_name, same_type_refl, flags_from_byte-flags_to_byte, flags_to_byte-flags_from_byte,
  same_type→eq,
}
use vadum.Wire.Codec.Header.{read_type, forbidden, static_constraint, read_header}

-- The flags that a payload of each type may carry.
abbrev pub Allowed : PayloadType → WireFlags → Type 0
Allowed intent f = f.amount_in_auth ≡ false
Allowed static_intent f = (f.lifetime_fresh ≡ false) × (f.amount_in_auth ≡ true)
Allowed auth f = Unit {0}
Allowed nonce_return f = flags_to_byte f ≡ 0

reserved_clear : (f : WireFlags) → has_bit (flags_to_byte f) 0b1110_0000 ≡ false
unfolding has_bit flags_to_byte
reserved_clear f = ground arith

separate_bit : (f : WireFlags) → has_bit (flags_to_byte f) 0b0000_1000 ≡ f.fee_payer_separate
unfolding has_bit flags_to_byte
separate_bit f = ground arith

forbidden_clear :
    (t : PayloadType) (f : WireFlags) → Allowed t f → forbidden t (flags_to_byte f) ≡ 0
unfolding forbidden
forbidden_clear intent f a = unfold flags_to_byte in ground arith
forbidden_clear static_intent f a = refl
forbidden_clear auth f a = refl
forbidden_clear nonce_return f a = a

constraint_met : (t : PayloadType) (f : WireFlags) → Allowed t f → static_constraint t f ≡ ok tt
unfolding static_constraint
constraint_met intent f a = refl
constraint_met static_intent f a = rw (a.0, a.1)
constraint_met auth f a = refl
constraint_met nonce_return f a = refl

-- Version 1, the byte of a type and the byte of flags that are allowed for it, without a separate
-- fee payer, followed by the bytes that the length table asks for, pass `readHeader` with those
-- flags.
pub read_header-accepts :
    (t : PayloadType) (f : WireFlags) (rest : List ℕ)
    → f.fee_payer_separate ≡ false
    → Allowed t f
    → suc (suc (suc (length rest))) ≡ expected_length t f
    → read_header (1 ∷ type_byte t ∷ flags_to_byte f ∷ rest) t ≡ ok f
unfolding read_header read_type
read_header-accepts t f rest sep a len =
    let short : ltb (suc (suc (suc (length rest)))) 3 ≡ false = ground arith in
    rw (
      short,
      type_name-type_byte t,
      same_type_refl t,
      reserved_clear f,
      separate_bit f ∙ sep,
      forbidden_clear t f a,
      flags_from_byte-flags_to_byte f,
      constraint_met t f a,
      len,
      ==_refl (expected_length t f),
    )

small_table : all_below 256 (λ z. if has_bit z 0b1110_0000 then true else ltb z 32) ≡ true
unfolding all_below has_bit
small_table = refl

small : (z : ℕ) → z < 256 → has_bit z 0b1110_0000 ≡ false → z < 32
small z h e = ground (arith, all_below_sound 256 _ z h small_table)

flags_byte :
    (z : ℕ) → z < 256 → has_bit z 0b1110_0000 ≡ false → flags_to_byte (flags_from_byte z) ≡ z
flags_byte z h e = omega (arith, flags_to_byte-flags_from_byte z h, small z h e)

forbidden→Allowed :
    (t : PayloadType) (f : WireFlags)
    → forbidden t (flags_to_byte f) ≡ 0
    → static_constraint t f ≡ ok tt
    → Allowed t f
unfolding forbidden static_constraint
forbidden→Allowed intent f e c = unfold flags_to_byte in ground arith
forbidden→Allowed static_intent f e c = ground arith
forbidden→Allowed auth f e c = tt
forbidden→Allowed nonce_return f e c = e

read_type-layout :
    (bytes : List ℕ) (t u : PayloadType)
    → read_type bytes (some t) ≡ ok u
    → (z : ℕ) × (rest : List ℕ) × (u ≡ t) × (bytes ≡ 1 ∷ type_byte t ∷ z ∷ rest)
unfolding read_type
read_type-layout [] t u h = cc
read_type-layout (x ∷ []) t u h = cc
read_type-layout (x ∷ y ∷ []) t u h = cc
read_type-layout (x ∷ y ∷ z ∷ rest) t u h =
    let (a, h1) = passed (ltb (suc (suc (suc (length rest)))) 3) _ _ h in
    let (b, h2) = passed (not (x == 1)) _ _ h1 in
    let (type, c, h3) = found (type_name y) _ _ h2 in
    let (d, h4) = passed (not (same_type type t)) _ _ h3 in
    let one : x ≡ 1 = ground arith in
    let same : type ≡ t = same_type→eq type t (ground arith) in
    let byte : y ≡ type_byte t = sym (type_byte-type_name y t (c ∙ ap some same)) in
    (z, rest, sym (ok-injective h4) ∙ same, rw (one, byte))

-- Bytes that pass `readHeader` for a type with some flags are version 1, the byte of that type and
-- the byte of those flags, the flags are allowed for the type without a separate fee payer, and
-- the length is that of the length table.
pub read_header-layout :
    (bytes : List ℕ) (t : PayloadType) (f : WireFlags)
    → All IsByte bytes
    → read_header bytes t ≡ ok f
    → (rest : List ℕ) × (bytes ≡ 1 ∷ type_byte t ∷ flags_to_byte f ∷ rest)
      × (f.fee_payer_separate ≡ false)
      × Allowed t f
      × (suc (suc (suc (length rest))) ≡ expected_length t f)
unfolding read_header
read_header-layout bytes t f low h =
    let (type, p, h1) = >>=-eq-ok (read_type bytes (some t)) _ h in
    let (z, rest, same, shape) = read_type-layout bytes t type p in
    let byte : get_or bytes 2 0 ≡ z = ap (λ bs. get_or bs 2 0) shape in
    let (a, h2) = passed (has_bit (get_or bytes 2 0) 0b1110_0000) _ _ h1 in
    let (b, h3) = passed (has_bit (get_or bytes 2 0) 0b0000_1000) _ _ h2 in
    let (c, h4) = passed (not (forbidden type (get_or bytes 2 0) == 0)) _ _ h3 in
    let (u, d, h5) = >>=-eq-ok (static_constraint type (flags_from_byte (get_or bytes 2 0))) _ h4 in
    let (e, h6) =
      passed (not (length bytes == expected_length type (flags_from_byte (get_or bytes 2 0)))) _ _
        h5 in
    let lows : All IsByte (1 ∷ type_byte t ∷ z ∷ rest) = subst (All IsByte) shape low in
    let whole : flags_to_byte (flags_from_byte z) ≡ z =
      flags_byte z lows.1.1.0 (subst (λ n. has_bit n 0b1110_0000 ≡ false) byte a) in
    let flags : flags_from_byte z ≡ f = ap flags_from_byte (sym byte) ∙ ok-injective h6 in
    let back : z ≡ flags_to_byte f = sym whole ∙ ap flags_to_byte flags in
    let none_forbidden : forbidden type (get_or bytes 2 0) ≡ 0 = ground arith in
    let header : bytes ≡ 1 ∷ type_byte t ∷ flags_to_byte f ∷ rest =
      shape ∙ ap (λ n. 1 ∷ type_byte t ∷ n ∷ rest) back in
    let full : length bytes ≡ expected_length type (flags_from_byte (get_or bytes 2 0)) =
      ground arith in
    (
      rest,
      header,
      cc (separate_bit f, byte, back, b),
      forbidden→Allowed t f (cc (none_forbidden, same, byte, back)) (cc (d, same, byte, flags)),
      cc (ap (length {A = ℕ}) shape, full, same, byte, flags),
    )
