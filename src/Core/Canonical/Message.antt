-- ===== src/Core/Canonical/Message.antt =====
-- packages/core/src/canonical.ts and nonce-provider.ts: the one builder that both sides call.
use vadum.Base.{ℕ, Bool, false, not, ◌||◌, Option, none, some, List, [], ◌∷◌, if◌then◌else◌}
use vadum.Base.Int.{ℤ, pos, ltb_ℤ, eq_ℤ}
use vadum.Base.Number.{Number, is_u8}
use vadum.Base.Text.{Text}
use vadum.Core.Derive.{derive_nonce_address, token_program_address, derive_ata}
use vadum.Core.Errors.{
  Result, ok, err, vadum_error, ◌>>=◌, ◌>>◌, throw_if, canon_amount_mismatch,
  mint_decimals_mismatch, internal_not_applicable,
}
use vadum.Core.Kit.{Derivation}
use vadum.Core.Types.{Lifetime, nonce, fresh, NonceRef, Intent, CanonicalInput}

-- What is handed to kit's instruction builders.
pub data Instruction : Type 0 where
  create_ata_idempotent : (payer ata owner mint token_program : Text) → Instruction
  transfer_checked :
      (source mint destination authority : Text) (amount : ℤ) (decimals : Number)
      (token_program : Text)
      → Instruction

pub data MessageLifetime : Type 0 where
  durable_nonce : (value account authority : Text) → MessageLifetime
  recent_blockhash : (blockhash : Text) (last_valid_block_height : ℤ) → MessageLifetime

pub record Draft : Type 0 where
  pub fee_payer : Text
  pub instructions : List Instruction
  pub lifetime : MessageLifetime

-- kit's compiler: the bytes of a message, or an exception.
abbrev pub Compiler : Type 0
Compiler = Draft → Result (List ℕ)

abbrev pub u64_limit : ℤ
u64_limit = pos 18_446_744_073_709_551_615

-- `intent.amount !== null && intent.amount !== amount`.
unfoldable pub differs : Option ℤ → ℤ → Bool
differs none amount = false
differs (some a) amount = not (eq_ℤ a amount)

unfoldable pub apply_durable_nonce :
    Derivation → Lifetime → Text → Option NonceRef → Result MessageLifetime
apply_durable_nonce d nonce payer (some r) = do
  address ← derive_nonce_address d payer r.index
  ok (durable_nonce r.value address payer)
apply_durable_nonce d _ payer _ = err (vadum_error internal_not_applicable)

unfoldable pub apply_fresh_blockhash : Lifetime → Option NonceRef → Result MessageLifetime
apply_fresh_blockhash (fresh blockhash height) none = ok (recent_blockhash blockhash height)
apply_fresh_blockhash _ _ = err (vadum_error internal_not_applicable)

-- `providerFor(input).applyLifetime`.
unfoldable pub apply_lifetime :
    Derivation → Lifetime → Text → Option NonceRef → Result MessageLifetime
apply_lifetime d nonce payer r = apply_durable_nonce d nonce payer r
apply_lifetime d (fresh blockhash height) payer r = apply_fresh_blockhash (fresh blockhash height) r

unfoldable pub instructions_of : Derivation → Intent → Text → ℤ → List Instruction
instructions_of d i payer amount =
    let source = derive_ata d payer i.mint i.token_program in
    let destination = derive_ata d i.merchant i.mint i.token_program in
    let program = token_program_address d i.token_program in
    let transfer = transfer_checked source i.mint destination payer amount i.decimals program in
    if i.include_create_ata
    then create_ata_idempotent i.fee_payer destination i.merchant i.mint program ∷ transfer ∷ []
    else transfer ∷ []

unfoldable pub build_message : Derivation → Compiler → CanonicalInput → Result (List ℕ)
build_message d compile input = do
  throw_if (ltb_ℤ input.amount (pos 0) || ltb_ℤ u64_limit input.amount) canon_amount_mismatch
  throw_if (differs input.intent.amount input.amount) canon_amount_mismatch
  throw_if (not (is_u8 input.intent.decimals)) mint_decimals_mismatch
  lifetime ← apply_lifetime d input.intent.lifetime input.payer input.nonce_ref
  compile (record {
    fee_payer = input.intent.fee_payer;
    instructions = instructions_of d input.intent input.payer input.amount;
    lifetime = lifetime;
  })
