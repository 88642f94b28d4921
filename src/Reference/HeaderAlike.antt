-- ===== src/Reference/HeaderAlike.antt =====
-- packages/wire/src/codec.ts and packages/fixtures/src/wire.ts: the header steps of a decoder and of
-- `check` are the same tests in the same order.
use vadum.Base.{
  ℕ, ◌≡◌, refl, ap, ◌∙◌, Bool, true, false, not, ◌&&◌, ◌||◌, Option, none, some, List, bit_and, ltb,
  ◌==◌, length, get_or, arith,
}
use vadum.Core.Errors.{
  ErrorCode, Failure, Result, ok, err, vadum_error, ◌>>=◌, ◌>>◌, throw_if, or_throw,
  wire_length_mismatch, wire_version_unsupported, wire_unknown_type, wire_unexpected_type,
  wire_reserved_flag_set, wire_fee_payer_separate_unsupported, wire_flag_not_allowed_for_type,
  wire_static_constraint,
}
use vadum.Reference.Check.{type_of, is_set, forbidden_flags, is_static_type, check_flags}
use vadum.Reference.Wire
use vadum.Reference.Wire.{type_code}
use vadum.Wire.Codec.Flags.{
  PayloadType, intent, static_intent, auth, nonce_return, WireFlags, type_byte, type_name,
  same_type, has_bit, flags_from_byte, expected_length,
}
use vadum.Wire.Codec.Header.{is_unexpected, read_type, forbidden, static_constraint, read_header}

-- Whether a call answers or throws, without its answer.
unfoldable pub outcome : {A : Type 0} → Result A → Result (Unit {0})
outcome (ok a) = ok tt
outcome (err e) = err e

pub outcome-bind :
    {A B : Type 0} (r : Result A) (f : A → Result B)
    → outcome (r >>= f) ≡ (r >>= (λ a. outcome (f a)))
unfolding outcome
outcome-bind (ok a) f = refl
outcome-bind (err e) f = refl

-- The first match by name is the entry of the table.
pub type_name-type_of : (b : ℕ) → type_name b ≡ type_of b
unfolding type_name type_of type_code
type_name-type_of b = ground arith

type_byte-type_code : (t : PayloadType) → type_byte t ≡ type_code t
unfolding type_byte type_code
type_byte-type_code intent = refl
type_byte-type_code static_intent = refl
type_byte-type_code auth = refl
type_byte-type_code nonce_return = refl

pub same_type-type_code : (a b : PayloadType) → same_type a b ≡ (type_code a == type_code b)
unfolding same_type
same_type-type_code a b = rw (type_byte-type_code a, type_byte-type_code b)

static_constraint-alike :
    (t : PayloadType) (byte : ℕ)
    → static_constraint t (flags_from_byte byte)
      ≡ throw_if
          (is_static_type t && (is_set byte 1 || bit_and byte 16 == 0))
          wire_static_constraint
unfolding static_constraint flags_from_byte has_bit is_static_type is_set
static_constraint-alike intent byte = refl
static_constraint-alike auth byte = refl
static_constraint-alike nonce_return byte = refl
static_constraint-alike static_intent byte = by_tests (bit_and byte 1 == 0) (bit_and byte 16 == 0)
  where
    by_tests :
        (a b : Bool)
        → (throw_if (not a) wire_static_constraint >> throw_if (not (not b)) wire_static_constraint)
          ≡ throw_if (not a || b) wire_static_constraint
    by_tests true true = refl
    by_tests true false = refl
    by_tests false b = refl

forbidden-alike : (t : PayloadType) (byte : ℕ) → forbidden t byte ≡ forbidden_flags t byte
unfolding forbidden forbidden_flags
forbidden-alike intent byte = refl
forbidden-alike static_intent byte = refl
forbidden-alike auth byte = refl
forbidden-alike nonce_return byte = refl

length-alike :
    (t : PayloadType) (byte : ℕ)
    → has_bit byte 8 ≡ false
    → expected_length t (flags_from_byte byte) ≡ Wire.expected_length t byte
unfolding expected_length flags_from_byte has_bit Wire.expected_length
length-alike intent byte h = rw h (omega arith)
length-alike static_intent byte h = refl
length-alike auth byte h = omega arith
length-alike nonce_return byte h = refl

pub throw-bind :
    {A B : Type 0} (test : Bool) (c : ErrorCode) (rest : Result A) (f : A → Result B)
    → ((throw_if test c >> rest) >>= f) ≡ (throw_if test c >> (rest >>= f))
throw-bind true c rest f = refl
throw-bind false c rest f = refl

pub throw-under :
    {A : Type 0} (test : Bool) (c : ErrorCode) {x y : Result A}
    → (test ≡ false → x ≡ y)
    → (throw_if test c >> x) ≡ (throw_if test c >> y)
throw-under true c h = refl
throw-under false c h = h refl

pub or_throw-bind :
    {A B C : Type 0} (o : Option A) (e : Failure) (g : A → Result B) (f : B → Result C)
    → ((or_throw o e >>= g) >>= f) ≡ (or_throw o e >>= (λ a. g a >>= f))
or_throw-bind none e g f = refl
or_throw-bind (some a) e g f = refl

pub or_throw-under :
    {A B : Type 0} (o : Option A) (e : Failure) {f g : A → Result B}
    → ((a : A) → f a ≡ g a)
    → (or_throw o e >>= f) ≡ (or_throw o e >>= g)
or_throw-under none e h = refl
or_throw-under (some a) e h = h a

-- Steps 5 to 9 of the codec.
abbrev flag_steps : PayloadType → List ℕ → ℕ → Result WireFlags
flag_steps type bytes byte =
    throw_if (has_bit byte 0b1110_0000) wire_reserved_flag_set
    >> (throw_if (has_bit byte 0b0000_1000) wire_fee_payer_separate_unsupported
        >> (throw_if (not (forbidden type byte == 0)) wire_flag_not_allowed_for_type
            >> (static_constraint type (flags_from_byte byte)
                >> (throw_if (not (length bytes == expected_length type (flags_from_byte byte)))
                      wire_length_mismatch
                    >> ok (flags_from_byte byte)))))

steps_by :
    {A B : Type 0} (a b c d l m : Bool) (x : B) (f : B → Result A)
    → (b ≡ false → l ≡ m)
    → ((throw_if a wire_reserved_flag_set
          >> (throw_if b wire_fee_payer_separate_unsupported
              >> (throw_if c wire_flag_not_allowed_for_type
                  >> (throw_if d wire_static_constraint
                      >> (throw_if l wire_length_mismatch >> ok x)))))
        >>= f)
      ≡ ((throw_if a wire_reserved_flag_set
            >> (throw_if b wire_fee_payer_separate_unsupported
                >> (throw_if c wire_flag_not_allowed_for_type
                    >> (throw_if d wire_static_constraint >> throw_if m wire_length_mismatch))))
          >> f x)
steps_by true b c d l m x f h = refl
steps_by false true c d l m x f h = refl
steps_by false false true d l m x f h = refl
steps_by false false false true l m x f h = refl
steps_by false false false false l m x f h = rw (h refl) (last m)
  where
    last :
        (m : Bool)
        → ((throw_if m wire_length_mismatch >> ok x) >>= f)
          ≡ (throw_if m wire_length_mismatch >> f x)
    last true = refl
    last false = refl

flag_steps-alike :
    {A : Type 0} (type : PayloadType) (bytes : List ℕ) (byte : ℕ) (f : WireFlags → Result A)
    → (flag_steps type bytes byte >>= f) ≡ (check_flags type bytes byte >> f (flags_from_byte byte))
unfolding check_flags is_set has_bit
flag_steps-alike type bytes byte f =
    rw (static_constraint-alike type byte, forbidden-alike type byte)
      (steps_by (has_bit byte 0b1110_0000) (has_bit byte 8) (not (forbidden_flags type byte == 0))
        (is_static_type type && (is_set byte 1 || bit_and byte 16 == 0)) _ _ (flags_from_byte byte)
        f (λ e. ap (λ n. not (length bytes == n)) (length-alike type byte e)))

-- The steps up to the type, and those of an expected type behind it.
abbrev pub header_then : {A : Type 0} → List ℕ → (PayloadType → Result A) → Result A
header_then bytes next =
    throw_if (ltb (length bytes) 3) wire_length_mismatch
    >> (throw_if (not (get_or bytes 0 0 == 1)) wire_version_unsupported
        >> (or_throw (type_of (get_or bytes 1 0)) (vadum_error wire_unknown_type) >>= next))

pub header-under :
    {A : Type 0} (bytes : List ℕ) {f g : PayloadType → Result A}
    → ((type : PayloadType) → f type ≡ g type)
    → header_then bytes f ≡ header_then bytes g
header-under bytes h = throw-under (ltb (length bytes) 3) wire_length_mismatch (λ a.
    throw-under (not (get_or bytes 0 0 == 1)) wire_version_unsupported
      (λ b. or_throw-under (type_of (get_or bytes 1 0)) (vadum_error wire_unknown_type) h))

header_by :
    {A : Type 0} (a b : Bool) (o : Option PayloadType) (expected : PayloadType)
    (g : PayloadType → Result A)
    → ((throw_if a wire_length_mismatch
          >> (throw_if b wire_version_unsupported
              >> (or_throw o (vadum_error wire_unknown_type) >>= (λ type.
                  throw_if (is_unexpected (some expected) type) wire_unexpected_type >> ok type))))
        >>= g)
      ≡ (throw_if a wire_length_mismatch
          >> (throw_if b wire_version_unsupported
              >> (or_throw o (vadum_error wire_unknown_type) >>= (λ type.
                  throw_if (not (type_code type == type_code expected)) wire_unexpected_type
                  >> g type))))
unfolding is_unexpected
header_by true b o e g = refl
header_by false true o e g = refl
header_by false false none e g = refl
header_by false false (some type) e g =
    rw (same_type-type_code type e) (last (not (type_code type == type_code e)))
  where
    last :
        (m : Bool)
        → ((throw_if m wire_unexpected_type >> ok type) >>= g)
          ≡ (throw_if m wire_unexpected_type >> g type)
    last true = refl
    last false = refl

assoc :
    {A B C : Type 0} (r : Result A) (f : A → Result B) (g : B → Result C)
    → ((r >>= f) >>= g) ≡ (r >>= (λ a. f a >>= g))
assoc (ok a) f g = refl
assoc (err e) f g = refl

pub read_header-alike :
    {A : Type 0} (expected : PayloadType) (bytes : List ℕ) (f : WireFlags → Result A)
    → (read_header bytes expected >>= f)
      ≡ header_then bytes (λ type.
        throw_if (not (type_code type == type_code expected)) wire_unexpected_type
        >> (check_flags type bytes (get_or bytes 2 0) >> f (flags_from_byte (get_or bytes 2 0))))
unfolding read_header read_type
read_header-alike expected bytes f =
    let byte = get_or bytes 2 0 in
    let g : PayloadType → Result _ = λ type. flag_steps type bytes byte >>= f in
    assoc (read_type bytes (some expected)) (λ type. flag_steps type bytes byte) f
    ∙ header_by (ltb (length bytes) 3) (not (get_or bytes 0 0 == 1)) (type_name (get_or bytes 1 0))
        expected g
    ∙ rw (type_name-type_of (get_or bytes 1 0)) (
        header-under bytes (λ type.
          throw-under (not (type_code type == type_code expected)) wire_unexpected_type
            (λ same. flag_steps-alike type bytes byte f)))
