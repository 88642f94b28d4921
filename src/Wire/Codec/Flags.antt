-- ===== src/Wire/Codec/Flags.antt =====
-- packages/wire/src/codec.ts: payload types, flags and the length table.
use vadum.Base.{
  ℕ, ◌+◌, ◌%◌, ◌<◌, ◌≡◌, refl, Bool, true, not, Option, none, some, bit_and, bit_or, ◌==◌,
  if◌then◌else◌, arith, all_below, all_below_sound, ==_iff,
}

pub data PayloadType : Type 0 where
  intent static_intent auth nonce_return : PayloadType

pub record WireFlags : Type 0 where
  pub lifetime_fresh : Bool
  pub include_create_ata : Bool
  pub token2022 : Bool
  pub fee_payer_separate : Bool
  pub amount_in_auth : Bool

unfoldable pub type_byte : PayloadType → ℕ
type_byte intent = 1
type_byte static_intent = 2
type_byte auth = 3
type_byte nonce_return = 4

-- `TYPE_NAME.get(byte)`.
unfoldable pub type_name : ℕ → Option PayloadType
type_name b =
    if b == 1
    then some intent
    else if b == 2
    then some static_intent
    else if b == 3
    then some auth
    else if b == 4
    then some nonce_return
    else none

-- `type !== expected`.
unfoldable pub same_type : PayloadType → PayloadType → Bool
same_type a b = type_byte a == type_byte b

-- `(byte & mask) !== 0`.
unfoldable pub has_bit : ℕ → ℕ → Bool
has_bit byte mask = not (bit_and byte mask == 0)

unfoldable pub flags_from_byte : ℕ → WireFlags
unfolding has_bit
flags_from_byte byte = record {
  lifetime_fresh = has_bit byte 0b0000_0001;
  include_create_ata = has_bit byte 0b0000_0010;
  token2022 = has_bit byte 0b0000_0100;
  fee_payer_separate = has_bit byte 0b0000_1000;
  amount_in_auth = has_bit byte 0b0001_0000;
}

unfoldable pub flags_to_byte : WireFlags → ℕ
flags_to_byte f =
    bit_or
      (bit_or
        (bit_or
          (bit_or (if f.lifetime_fresh then 0b0000_0001 else 0)
            (if f.include_create_ata then 0b0000_0010 else 0))
          (if f.token2022 then 0b0000_0100 else 0))
        (if f.fee_payer_separate then 0b0000_1000 else 0))
      (if f.amount_in_auth then 0b0001_0000 else 0)

-- The (type, flags) → length table.
unfoldable pub expected_length : PayloadType → WireFlags → ℕ
expected_length intent f =
    76 + (if f.lifetime_fresh then 32 else 0) + (if f.fee_payer_separate then 32 else 0)
expected_length static_intent f = 68
expected_length auth f =
    99 + (if f.lifetime_fresh then 0 else 33) + (if f.amount_in_auth then 8 else 0)
expected_length nonce_return f = 100

pub type_name-type_byte : (t : PayloadType) → type_name (type_byte t) ≡ some t
unfolding type_name type_byte
type_name-type_byte intent = refl
type_name-type_byte static_intent = refl
type_name-type_byte auth = refl
type_name-type_byte nonce_return = refl

pub type_byte-type_name : (b : ℕ) (t : PayloadType) → type_name b ≡ some t → type_byte t ≡ b
unfolding type_name type_byte
type_byte-type_name b t h = ground arith

pub same_type_refl : (t : PayloadType) → same_type t t ≡ true
unfolding same_type type_byte
same_type_refl intent = refl
same_type_refl static_intent = refl
same_type_refl auth = refl
same_type_refl nonce_return = refl

pub same_type→eq : (a b : PayloadType) → same_type a b ≡ true → a ≡ b
unfolding same_type type_byte
same_type→eq a b h = ground arith

-- `flagsFromByte` of `flagsToByte` of any flags gives the flags back.
pub flags_from_byte-flags_to_byte : (f : WireFlags) → flags_from_byte (flags_to_byte f) ≡ f
unfolding flags_from_byte flags_to_byte
flags_from_byte-flags_to_byte f = ground arith

pub flags_to_byte-lt : (f : WireFlags) → flags_to_byte f < 32
unfolding flags_to_byte
flags_to_byte-lt f = ground arith

byte_table : all_below 256 (λ b. flags_to_byte (flags_from_byte b) == b % 32) ≡ true
unfolding all_below flags_from_byte flags_to_byte
byte_table = refl

-- `flagsToByte` of `flagsFromByte` of a byte is that byte without its three high bits.
pub flags_to_byte-flags_from_byte : (b : ℕ) → b < 256 → flags_to_byte (flags_from_byte b) ≡ b % 32
flags_to_byte-flags_from_byte b h = (==_iff _ _).0 (all_below_sound 256 _ b h byte_table)
