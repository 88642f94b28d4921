-- ===== src/Reference/Wire.antt =====
-- packages/fixtures/src/wire.ts: the reference encoders, a concatenation of fields each.
use vadum.Base.{
  ℕ, ◌+◌, ◌%◌, not, Option, none, some, List, [], ◌∷◌, ◌++◌, bit_and, ◌==◌, if◌then◌else◌,
}
use vadum.Base.Int.{ℤ}
use vadum.Base.Number.{Number, to_uint8}
use vadum.Base.Text.{Text}
use vadum.Core.Errors.{Result, ok, ◌>>=◌}
use vadum.Core.Kit.{Kit}
use vadum.Reference.Bytes.{u64le, address_bytes, base58_bytes32}
use vadum.Wire.Codec.Flags.{PayloadType, intent, static_intent, auth, nonce_return}

-- `TYPE`.
unfoldable pub type_code : PayloadType → ℕ
type_code intent = 0x01
type_code static_intent = 0x02
type_code auth = 0x03
type_code nonce_return = 0x04

unfoldable pub header : PayloadType → ℕ → List ℕ
header type flags = 0x01 ∷ type_code type ∷ flags % 256 ∷ []

pub record IntentFields : Type 0 where
  pub flags : ℕ
  pub merchant : Text
  pub mint : Text
  pub amount : ℤ
  pub decimals : Number
  pub blockhash : Option Text

pub record StaticIntentFields : Type 0 where
  pub flags : ℕ
  pub merchant : Text
  pub mint : Text
  pub decimals : Number

pub record NonceFields : Type 0 where
  pub index : Number
  pub value : Text

pub record AuthFields : Type 0 where
  pub flags : ℕ
  pub payer : Text
  pub nonce : Option NonceFields
  pub amount : Option ℤ
  pub signature : List ℕ

unfoldable pub amount_bytes : Option ℤ → List ℕ
amount_bytes none = []
amount_bytes (some v) = u64le v

module _ (k : Kit) where
  unfoldable pub blockhash_bytes : Option Text → Result (List ℕ)
  blockhash_bytes none = ok []
  blockhash_bytes (some blockhash) = base58_bytes32 k blockhash

  unfoldable pub encode_intent : IntentFields → Result (List ℕ)
  encode_intent f = do
    merchant ← address_bytes k f.merchant
    mint ← address_bytes k f.mint
    tail ← blockhash_bytes f.blockhash
    ok (
        header intent f.flags
        ++ (merchant ++ (mint ++ (u64le f.amount ++ (to_uint8 f.decimals ∷ tail)))))

  unfoldable pub encode_static_intent : StaticIntentFields → Result (List ℕ)
  encode_static_intent f = do
    merchant ← address_bytes k f.merchant
    mint ← address_bytes k f.mint
    ok (header static_intent f.flags ++ (merchant ++ (mint ++ (to_uint8 f.decimals ∷ []))))

  unfoldable pub nonce_bytes : Option NonceFields → Result (List ℕ)
  nonce_bytes none = ok []
  nonce_bytes (some n) = do value ← base58_bytes32 k n.value; ok (to_uint8 n.index ∷ value)

  unfoldable pub encode_auth : AuthFields → Result (List ℕ)
  encode_auth f = do
    payer ← address_bytes k f.payer
    nonce ← nonce_bytes f.nonce
    ok (header auth f.flags ++ (payer ++ (nonce ++ (amount_bytes f.amount ++ f.signature))))

  unfoldable pub encode_nonce_return : Number → Text → List ℕ → Result (List ℕ)
  encode_nonce_return index value signature = do
    bytes ← base58_bytes32 k value
    ok (header nonce_return 0x00 ++ (to_uint8 index ∷ (bytes ++ signature)))

-- The (type, flags) table, for legal combinations.
unfoldable pub expected_length : PayloadType → ℕ → ℕ
expected_length intent flags = 76 + (if not (bit_and flags 1 == 0) then 32 else 0)
expected_length static_intent flags = 68
expected_length auth flags =
    35
    + (if not (bit_and flags 1 == 0) then 0 else 33)
    + (if not (bit_and flags 16 == 0) then 8 else 0)
    + 64
expected_length nonce_return flags = 100
