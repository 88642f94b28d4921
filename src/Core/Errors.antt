-- ===== src/Core/Errors.antt =====
-- packages/core/src/errors.ts: the shared error taxonomy, and how a call ends.
use vadum.Base.{◌≡◌, refl, List, [], ◌∷◌, Bool, true, false, Option, none, some, arith}

pub data ErrorCode : Type 0 where
  wire_version_unsupported wire_reserved_flag_set wire_length_mismatch wire_unknown_type : ErrorCode
  wire_unexpected_type wire_flags_mismatch wire_static_constraint wire_base45_invalid : ErrorCode
  wire_flag_not_allowed_for_type wire_fee_payer_separate_unsupported wire_fee_payer_is_payer :
      ErrorCode
  wire_duplicate_auth mint_unknown mint_incompatible mint_decimals_mismatch : ErrorCode
  mint_token_program_mismatch mint_record_stale canon_instruction_not_allowed : ErrorCode
  canon_account_mismatch canon_amount_mismatch canon_destination_mismatch : ErrorCode
  canon_instruction_order sig_invalid sig_length sig_fee_payer_missing nonce_index_out_of_range :
      ErrorCode
  nonce_already_spent nonce_ledger_missing nonce_pool_exhausted nonce_pool_underfunded : ErrorCode
  nonce_desync nonce_return_untrusted nonce_account_closed limit_receipt_cap : ErrorCode
  limit_queue_exposure limit_failed_sends limit_send_window_expired limit_precheck_required :
      ErrorCode
  limit_payer_allowance submit_nonce_stale submit_nonce_absent submit_execution_failed : ErrorCode
  submit_already_processed submit_blockhash_expired submit_rpc_unavailable : ErrorCode
  internal_not_implemented internal_not_applicable : ErrorCode

-- Every code, in the source's order.
unfoldable pub vadum_error_codes : List ErrorCode
vadum_error_codes =
    wire_version_unsupported ∷ wire_reserved_flag_set ∷ wire_length_mismatch ∷ wire_unknown_type
    ∷ wire_unexpected_type ∷ wire_flags_mismatch ∷ wire_static_constraint ∷ wire_base45_invalid
    ∷ wire_flag_not_allowed_for_type ∷ wire_fee_payer_separate_unsupported ∷ wire_fee_payer_is_payer
    ∷ wire_duplicate_auth ∷ mint_unknown ∷ mint_incompatible ∷ mint_decimals_mismatch
    ∷ mint_token_program_mismatch ∷ mint_record_stale ∷ canon_instruction_not_allowed
    ∷ canon_account_mismatch ∷ canon_amount_mismatch ∷ canon_destination_mismatch
    ∷ canon_instruction_order ∷ sig_invalid ∷ sig_length ∷ sig_fee_payer_missing
    ∷ nonce_index_out_of_range ∷ nonce_already_spent ∷ nonce_ledger_missing ∷ nonce_pool_exhausted
    ∷ nonce_pool_underfunded ∷ nonce_desync ∷ nonce_return_untrusted ∷ nonce_account_closed
    ∷ limit_receipt_cap ∷ limit_queue_exposure ∷ limit_failed_sends ∷ limit_send_window_expired
    ∷ limit_precheck_required ∷ limit_payer_allowance ∷ submit_nonce_stale ∷ submit_nonce_absent
    ∷ submit_execution_failed ∷ submit_already_processed ∷ submit_blockhash_expired
    ∷ submit_rpc_unavailable ∷ internal_not_implemented ∷ internal_not_applicable ∷ []

-- What a call may throw: a `VadumError` with its code (its detail record is left out), or an
-- exception of a library that the call does not catch.
pub data Failure : Type 0 where
  vadum_error : ErrorCode → Failure
  foreign : Failure

pub data Result {ℓ} (A : Type ℓ) : Type ℓ where
  ok : A → Result A
  err : Failure → Result A

infixl 5 ◌>>=◌ ◌>>◌
-- `await` in an async function, and a statement that may throw before the next one.
abbrev pub ◌>>=◌ {ℓ κ} : {X : Type ℓ} {Y : Type κ} → Result X → (next : X → Result Y) → Result Y
err failure >>= next = err failure
ok x >>= next = next x

abbrev pub ◌>>◌ {κ} : {Y : Type κ} → Result (Unit {0}) → (next : Result Y) → Result Y
check >> next = check >>= (λ u. next)

-- `if (test) throw new VadumError(code)`.
abbrev pub throw_if : Bool → ErrorCode → Result (Unit {0})
throw_if true c = err (vadum_error c)
throw_if false c = ok tt

-- A library call that throws where it has no answer.
abbrev pub or_throw {ℓ} : {A : Type ℓ} → Option A → Failure → Result A
or_throw none e = err e
or_throw (some a) e = ok a

-- What returns has gone past each of its calls.
pub >>=-eq-ok {ℓ κ} :
    {X : Type ℓ} {Y : Type κ} (call : Result X) (next : X → Result Y) {y : Y}
    → (call >>= next) ≡ ok y
    → (x : X) × (call ≡ ok x) × (next x ≡ ok y)
>>=-eq-ok (err failure) next returned = cc
>>=-eq-ok (ok x) next returned = (x, refl, returned)

pub throw_if-eq-ok : (b : Bool) (c : ErrorCode) {u : Unit {0}} → throw_if b c ≡ ok u → b ≡ false
throw_if-eq-ok true c h = cc
throw_if-eq-ok false c h = refl

pub or_throw-eq-ok {ℓ} :
    {A : Type ℓ} (o : Option A) (e : Failure) {a : A} → or_throw o e ≡ ok a → o ≡ some a
or_throw-eq-ok none e h = cc
or_throw-eq-ok (some a) e h = ground arith

-- A call that goes past a check, or past a lookup, has passed it.
pub passed {ℓ} :
    {A : Type ℓ} (b : Bool) (c : ErrorCode) (f : Unit {0} → Result A) {a : A}
    → (throw_if b c >>= f) ≡ ok a
    → (b ≡ false) × (f tt ≡ ok a)
passed true c f h = cc
passed false c f h = (refl, h)

pub found {ℓ κ} :
    {A : Type ℓ} {B : Type κ} (o : Option A) (e : Failure) (f : A → Result B) {b : B}
    → (or_throw o e >>= f) ≡ ok b
    → (a : A) × (o ≡ some a) × (f a ≡ ok b)
found none e f h = cc
found (some a) e f h = (a, refl, h)

pub ok-injective {ℓ} : {A : Type ℓ} {a b : A} → ok a ≡ ok b → a ≡ b
ok-injective e = cc
