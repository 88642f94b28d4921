-- ===== src/Core/Kit.antt =====
-- The address and base58 codecs of @solana/kit, which the program calls and does not contain: a
-- parameter, with the documented behaviour that the program relies on.
use vadum.Base.{ℕ, Bool, ◌<◌, ◌≡◌, List, Option, some, length, All}
use vadum.Base.Text.{Text}

-- `none` where kit throws.
pub record Kit : Type 0 where
  pub address_encode : Text → Option (List ℕ)
  pub address_decode : List ℕ → Text
  pub base58_encode : Text → Option (List ℕ)
  pub base58_decode : List ℕ → Text

abbrev pub IsByte : ℕ → Type 0
IsByte b = b < 256

-- A raw 32-byte key.
abbrev pub IsKey : List ℕ → Type 0
IsKey bs = (length bs ≡ 32) × All IsByte bs

-- Both codecs are bijections between 32-byte keys and the texts of such keys.
pub record KitLaws (k : Kit) : Type 0 where
  pub address_encode-IsKey : (a : Text) (bs : List ℕ) → k.address_encode a ≡ some bs → IsKey bs
  pub address_decode-encode :
      (a : Text) (bs : List ℕ) → k.address_encode a ≡ some bs → k.address_decode bs ≡ a
  pub address_encode-decode :
      (bs : List ℕ) → IsKey bs → k.address_encode (k.address_decode bs) ≡ some bs
  pub base58_encode-IsByte : (t : Text) (bs : List ℕ) → k.base58_encode t ≡ some bs → All IsByte bs
  pub base58_decode-encode :
      (t : Text) (bs : List ℕ) → k.base58_encode t ≡ some bs → k.base58_decode bs ≡ t
  pub base58_encode-decode :
      (bs : List ℕ) → IsKey bs → k.base58_encode (k.base58_decode bs) ≡ some bs

-- Address derivation: `createAddressWithSeed` and `findAssociatedTokenPda`, with the program
-- addresses that the program passes to them.
pub record Derivation : Type 0 where
  pub create_address_with_seed : (base program seed : Text) → Text
  pub find_associated_token_pda : (owner mint program : Text) → Text
  pub system_program : Text
  pub token_program : Text
  pub token_2022_program : Text
  pub associated_token_program : Text

-- A `CryptoKeyPair`: an opaque handle.
abbrev pub KeyPair : Type 0
KeyPair = ℕ

-- Ed25519 as WebCrypto and kit offer it. `verify` is `none` where a call throws, as it does on an
-- address that is no public key.
pub record Crypto : Type 0 where
  pub address_of : KeyPair → Text
  pub sign : KeyPair → List ℕ → List ℕ
  pub verify : (signer : Text) (signature message : List ℕ) → Option Bool
