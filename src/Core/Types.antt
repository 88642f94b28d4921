-- ===== src/Core/Types.antt =====
-- packages/core/src/types.ts: the shared vocabulary. Addresses, nonces and blockhashes are texts.
use vadum.Base.{ℕ, ◌≡◌, Bool, List, Option}
use vadum.Base.Int.{ℤ}
use vadum.Base.Number.{Number}
use vadum.Base.Text.{Text}

pub data TokenProgram : Type 0 where
  spl_token token_2022 : TokenProgram

pub data Lifetime : Type 0 where
  nonce : Lifetime
  fresh : (blockhash : Text) (last_valid_block_height : ℤ) → Lifetime

pub record NonceRef : Type 0 where
  pub index : Number
  pub value : Text

pub record Intent : Type 0 where
  pub merchant : Text
  pub mint : Text
  pub decimals : Number
  pub amount : Option ℤ
  pub lifetime : Lifetime
  pub include_create_ata : Bool
  pub token_program : TokenProgram
  pub fee_payer : Text
  pub is_static : Bool

pub record Auth : Type 0 where
  pub payer : Text
  pub nonce_ref : Option NonceRef
  pub amount : Option ℤ
  pub signature : List ℕ

pub record CanonicalInput : Type 0 where
  pub intent : Intent
  pub payer : Text
  pub nonce_ref : Option NonceRef
  pub amount : ℤ

pub data PaymentTier : Type 0 where
  t0 t1 t2 : PaymentTier

pub record VerifiedPayment : Type 0 where
  pub input : CanonicalInput
  pub message_bytes : List ℕ
  pub auth : Auth

pub data MintBlocker : Type 0 where
  transfer_hook_active transfer_fee_nonzero default_account_state_frozen : MintBlocker
  non_transferable paused : MintBlocker

pub data MintWarning : Type 0 where
  permanent_delegate pausable confidential_transfer freeze_authority : MintWarning
  mint_close_authority unknown_extension : MintWarning

pub record MintRecord : Type 0 where
  pub mint : Text
  pub token_program : TokenProgram
  pub decimals : Number
  pub compatible : Bool
  pub blockers : List MintBlocker
  pub warnings : List MintWarning
  pub is_mutable : Bool
  pub checked_at : ℕ

-- `token_program === token_program`.
unfoldable pub same_program : TokenProgram → TokenProgram → Bool
same_program spl_token spl_token = Bool.true
same_program token_2022 token_2022 = Bool.true
same_program _ _ = Bool.false

-- Two intents with the same fields are equal.
pub Intent-eq :
    (a b : Intent)
    → a.merchant ≡ b.merchant
    → a.mint ≡ b.mint
    → a.decimals ≡ b.decimals
    → a.amount ≡ b.amount
    → a.lifetime ≡ b.lifetime
    → a.include_create_ata ≡ b.include_create_ata
    → a.token_program ≡ b.token_program
    → a.fee_payer ≡ b.fee_payer
    → a.is_static ≡ b.is_static
    → a ≡ b
Intent-eq a b p q r s t u v w x = λ i. record {
  merchant = p i;
  mint = q i;
  decimals = r i;
  amount = s i;
  lifetime = t i;
  include_create_ata = u i;
  token_program = v i;
  fee_payer = w i;
  is_static = x i;
}

pub Auth-eq :
    (a b : Auth)
    → a.payer ≡ b.payer
    → a.nonce_ref ≡ b.nonce_ref
    → a.amount ≡ b.amount
    → a.signature ≡ b.signature
    → a ≡ b
Auth-eq a b p q r s = λ i. record { payer = p i; nonce_ref = q i; amount = r i; signature = s i }
