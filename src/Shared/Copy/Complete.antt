-- ===== src/Shared/Copy/Complete.antt =====
-- apps/shared/src/errors.ts: every code has its copy, and the copy says something.
use vadum.Base.{
  ◌≡◌, refl, Bool, true, not, ◌&&◌, ◌||◌, Option, none, some, [], ◌∷◌, ◌++◌, if◌then◌else◌, ◌+◌,
  leb, ltb, length,
}
use vadum.Base.Text.{Text, codes}
use vadum.Core.Errors.{
  ErrorCode, wire_version_unsupported, wire_reserved_flag_set, wire_length_mismatch,
  wire_unknown_type, wire_unexpected_type, wire_flags_mismatch, wire_static_constraint,
  wire_base45_invalid, wire_flag_not_allowed_for_type, wire_fee_payer_separate_unsupported,
  wire_fee_payer_is_payer, wire_duplicate_auth, mint_unknown, mint_incompatible,
  mint_decimals_mismatch, mint_token_program_mismatch, mint_record_stale,
  canon_instruction_not_allowed, canon_account_mismatch, canon_amount_mismatch,
  canon_destination_mismatch, canon_instruction_order, sig_invalid, sig_length,
  sig_fee_payer_missing, nonce_index_out_of_range, nonce_already_spent, nonce_ledger_missing,
  nonce_pool_exhausted, nonce_pool_underfunded, nonce_desync, nonce_return_untrusted,
  nonce_account_closed, limit_receipt_cap, limit_queue_exposure, limit_failed_sends,
  limit_send_window_expired, limit_precheck_required, limit_payer_allowance, submit_nonce_stale,
  submit_nonce_absent, submit_execution_failed, submit_already_processed, submit_blockhash_expired,
  submit_rpc_unavailable, internal_not_implemented, internal_not_applicable,
}
use vadum.Client.Store.Entries.{starts_with}
use vadum.Shared.Copy.{code_name, failure_copy, user_facing, copy_for}
use vadum.Shared.Copy.Kinds.{FailureCopy}

-- The text in the small letters of the alphabet.
unfoldable pub lower : Text → Text
lower [] = []
lower (c ∷ s) = (if leb 65 c && leb c 90 then c + 32 else c) ∷ lower s

unfoldable pub says : Text → Text → Bool
unfolding starts_with
says words [] = starts_with words []
says words (c ∷ s) = starts_with words (c ∷ s) || says words s

-- Copy that says something specific: a heading of more than 8 characters and a body of more than 30, no
-- name of a code (no underscore), and none of the phrases that tell nothing.
unfoldable pub is_plain : FailureCopy → Bool
is_plain copy =
    let all = copy.title ++ (codes " " ++ copy.body) in
    let small = lower all in
    ltb 8 (length copy.title)
    && ltb 30 (length copy.body)
    && not (says (codes "_") all)
    && not (says (codes "an error occurred") small)
    && not (says (codes "something went wrong") small)
    && not (says (codes "unknown error") small)
    && not (says (codes "try again later") small)

-- The entry of a user-facing code, or of another code none.
unfoldable pub entry_fits : Bool → Option FailureCopy → Bool
entry_fits facing (some copy) = facing && is_plain copy
entry_fits facing none = not facing

abbrev pub HasCopy : ErrorCode → Type 0
HasCopy code =
    (entry_fits (user_facing code) (failure_copy code) ≡ true)
    × ((copy : FailureCopy) × (copy_for code ≡ some copy) × (is_plain copy ≡ true))

-- The table of failure copy has an entry for a code if and only if the code does not begin with
-- INTERNAL_, and for every code `copyFor` answers with copy that has a heading of more than 8
-- characters, a body of more than 30, no underscore, and none of the phrases "an error occurred",
-- "something went wrong", "unknown error" and "try again later".
pub copy_for-HasCopy : (code : ErrorCode) → HasCopy code
unfolding copy_for failure_copy user_facing code_name starts_with entry_fits is_plain says lower
copy_for-HasCopy wire_version_unsupported = (refl, (_, refl, refl))
copy_for-HasCopy wire_reserved_flag_set = (refl, (_, refl, refl))
copy_for-HasCopy wire_length_mismatch = (refl, (_, refl, refl))
copy_for-HasCopy wire_unknown_type = (refl, (_, refl, refl))
copy_for-HasCopy wire_unexpected_type = (refl, (_, refl, refl))
copy_for-HasCopy wire_flags_mismatch = (refl, (_, refl, refl))
copy_for-HasCopy wire_static_constraint = (refl, (_, refl, refl))
copy_for-HasCopy wire_base45_invalid = (refl, (_, refl, refl))
copy_for-HasCopy wire_flag_not_allowed_for_type = (refl, (_, refl, refl))
copy_for-HasCopy wire_fee_payer_separate_unsupported = (refl, (_, refl, refl))
copy_for-HasCopy wire_fee_payer_is_payer = (refl, (_, refl, refl))
copy_for-HasCopy wire_duplicate_auth = (refl, (_, refl, refl))
copy_for-HasCopy mint_unknown = (refl, (_, refl, refl))
copy_for-HasCopy mint_incompatible = (refl, (_, refl, refl))
copy_for-HasCopy mint_decimals_mismatch = (refl, (_, refl, refl))
copy_for-HasCopy mint_token_program_mismatch = (refl, (_, refl, refl))
copy_for-HasCopy mint_record_stale = (refl, (_, refl, refl))
copy_for-HasCopy canon_instruction_not_allowed = (refl, (_, refl, refl))
copy_for-HasCopy canon_account_mismatch = (refl, (_, refl, refl))
copy_for-HasCopy canon_amount_mismatch = (refl, (_, refl, refl))
copy_for-HasCopy canon_destination_mismatch = (refl, (_, refl, refl))
copy_for-HasCopy canon_instruction_order = (refl, (_, refl, refl))
copy_for-HasCopy sig_invalid = (refl, (_, refl, refl))
copy_for-HasCopy sig_length = (refl, (_, refl, refl))
copy_for-HasCopy sig_fee_payer_missing = (refl, (_, refl, refl))
copy_for-HasCopy nonce_index_out_of_range = (refl, (_, refl, refl))
copy_for-HasCopy nonce_already_spent = (refl, (_, refl, refl))
copy_for-HasCopy nonce_ledger_missing = (refl, (_, refl, refl))
copy_for-HasCopy nonce_pool_exhausted = (refl, (_, refl, refl))
copy_for-HasCopy nonce_pool_underfunded = (refl, (_, refl, refl))
copy_for-HasCopy nonce_desync = (refl, (_, refl, refl))
copy_for-HasCopy nonce_return_untrusted = (refl, (_, refl, refl))
copy_for-HasCopy nonce_account_closed = (refl, (_, refl, refl))
copy_for-HasCopy limit_receipt_cap = (refl, (_, refl, refl))
copy_for-HasCopy limit_queue_exposure = (refl, (_, refl, refl))
copy_for-HasCopy limit_failed_sends = (refl, (_, refl, refl))
copy_for-HasCopy limit_send_window_expired = (refl, (_, refl, refl))
copy_for-HasCopy limit_precheck_required = (refl, (_, refl, refl))
copy_for-HasCopy limit_payer_allowance = (refl, (_, refl, refl))
copy_for-HasCopy submit_nonce_stale = (refl, (_, refl, refl))
copy_for-HasCopy submit_nonce_absent = (refl, (_, refl, refl))
copy_for-HasCopy submit_execution_failed = (refl, (_, refl, refl))
copy_for-HasCopy submit_already_processed = (refl, (_, refl, refl))
copy_for-HasCopy submit_blockhash_expired = (refl, (_, refl, refl))
copy_for-HasCopy submit_rpc_unavailable = (refl, (_, refl, refl))
copy_for-HasCopy internal_not_implemented = (refl, (_, refl, refl))
copy_for-HasCopy internal_not_applicable = (refl, (_, refl, refl))
