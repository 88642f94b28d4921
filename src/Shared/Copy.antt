-- ===== src/Shared/Copy.antt =====
-- apps/shared/src/errors.ts: what the user is told of a failure.
pub mod Kinds
pub mod Scanned
pub mod Tokens
pub mod Slots
pub mod Caps
pub mod Sends
pub mod States
pub mod Complete
mod Examples
use vadum.Base.{Bool, not, Option, none, some, List, filter, ◌++◌, if◌then◌else◌}
use vadum.Base.Text.{Text, codes}
use vadum.Core.Errors.{
  ErrorCode, vadum_error_codes, wire_version_unsupported, wire_reserved_flag_set,
  wire_length_mismatch, wire_unknown_type, wire_unexpected_type, wire_flags_mismatch,
  wire_static_constraint, wire_base45_invalid, wire_flag_not_allowed_for_type,
  wire_fee_payer_separate_unsupported, wire_fee_payer_is_payer, wire_duplicate_auth, mint_unknown,
  mint_incompatible, mint_decimals_mismatch, mint_token_program_mismatch, mint_record_stale,
  canon_instruction_not_allowed, canon_account_mismatch, canon_amount_mismatch,
  canon_destination_mismatch, canon_instruction_order, sig_invalid, sig_length,
  sig_fee_payer_missing, nonce_index_out_of_range, nonce_already_spent, nonce_ledger_missing,
  nonce_pool_exhausted, nonce_pool_underfunded, nonce_desync, nonce_return_untrusted,
  nonce_account_closed, limit_receipt_cap, limit_queue_exposure, limit_failed_sends,
  limit_send_window_expired, limit_precheck_required, limit_payer_allowance, submit_nonce_stale,
  submit_nonce_absent, submit_execution_failed, submit_already_processed, submit_blockhash_expired,
  submit_rpc_unavailable, internal_not_implemented, internal_not_applicable,
}
use vadum.Client.Store.Entries.{starts_with}
use vadum.Shared.Copy.Kinds.{FailureCopy, both_sides, no_action}
use vadum.Shared.Copy.Scanned.{
  wire_version_unsupported_copy, wire_reserved_flag_set_copy, wire_length_mismatch_copy,
  wire_unknown_type_copy, wire_unexpected_type_copy, wire_flags_mismatch_copy,
  wire_static_constraint_copy, wire_base45_invalid_copy, wire_flag_not_allowed_for_type_copy,
  wire_fee_payer_separate_unsupported_copy, wire_fee_payer_is_payer_copy, wire_duplicate_auth_copy,
}
use vadum.Shared.Copy.Tokens.{
  mint_unknown_copy, mint_incompatible_copy, mint_decimals_mismatch_copy,
  mint_token_program_mismatch_copy, mint_record_stale_copy, canon_instruction_not_allowed_copy,
  canon_account_mismatch_copy, canon_amount_mismatch_copy, canon_destination_mismatch_copy,
  canon_instruction_order_copy, sig_invalid_copy, sig_length_copy, sig_fee_payer_missing_copy,
}
use vadum.Shared.Copy.Slots.{
  nonce_index_out_of_range_copy, nonce_already_spent_copy, nonce_ledger_missing_copy,
  nonce_pool_exhausted_copy, nonce_pool_underfunded_copy, nonce_desync_copy,
  nonce_return_untrusted_copy, nonce_account_closed_copy,
}
use vadum.Shared.Copy.Caps.{
  limit_receipt_cap_copy, limit_queue_exposure_copy, limit_failed_sends_copy,
  limit_send_window_expired_copy, limit_precheck_required_copy, limit_payer_allowance_copy,
}
use vadum.Shared.Copy.Sends.{
  submit_nonce_stale_copy, submit_nonce_absent_copy, submit_execution_failed_copy,
  submit_already_processed_copy, submit_blockhash_expired_copy, submit_rpc_unavailable_copy,
}

-- A code as the string that it is in the source.
unfoldable pub code_name : ErrorCode → Text
code_name wire_version_unsupported = codes "WIRE_VERSION_UNSUPPORTED"
code_name wire_reserved_flag_set = codes "WIRE_RESERVED_FLAG_SET"
code_name wire_length_mismatch = codes "WIRE_LENGTH_MISMATCH"
code_name wire_unknown_type = codes "WIRE_UNKNOWN_TYPE"
code_name wire_unexpected_type = codes "WIRE_UNEXPECTED_TYPE"
code_name wire_flags_mismatch = codes "WIRE_FLAGS_MISMATCH"
code_name wire_static_constraint = codes "WIRE_STATIC_CONSTRAINT"
code_name wire_base45_invalid = codes "WIRE_BASE45_INVALID"
code_name wire_flag_not_allowed_for_type = codes "WIRE_FLAG_NOT_ALLOWED_FOR_TYPE"
code_name wire_fee_payer_separate_unsupported = codes "WIRE_FEE_PAYER_SEPARATE_UNSUPPORTED"
code_name wire_fee_payer_is_payer = codes "WIRE_FEE_PAYER_IS_PAYER"
code_name wire_duplicate_auth = codes "WIRE_DUPLICATE_AUTH"
code_name mint_unknown = codes "MINT_UNKNOWN"
code_name mint_incompatible = codes "MINT_INCOMPATIBLE"
code_name mint_decimals_mismatch = codes "MINT_DECIMALS_MISMATCH"
code_name mint_token_program_mismatch = codes "MINT_TOKEN_PROGRAM_MISMATCH"
code_name mint_record_stale = codes "MINT_RECORD_STALE"
code_name canon_instruction_not_allowed = codes "CANON_INSTRUCTION_NOT_ALLOWED"
code_name canon_account_mismatch = codes "CANON_ACCOUNT_MISMATCH"
code_name canon_amount_mismatch = codes "CANON_AMOUNT_MISMATCH"
code_name canon_destination_mismatch = codes "CANON_DESTINATION_MISMATCH"
code_name canon_instruction_order = codes "CANON_INSTRUCTION_ORDER"
code_name sig_invalid = codes "SIG_INVALID"
code_name sig_length = codes "SIG_LENGTH"
code_name sig_fee_payer_missing = codes "SIG_FEE_PAYER_MISSING"
code_name nonce_index_out_of_range = codes "NONCE_INDEX_OUT_OF_RANGE"
code_name nonce_already_spent = codes "NONCE_ALREADY_SPENT"
code_name nonce_ledger_missing = codes "NONCE_LEDGER_MISSING"
code_name nonce_pool_exhausted = codes "NONCE_POOL_EXHAUSTED"
code_name nonce_pool_underfunded = codes "NONCE_POOL_UNDERFUNDED"
code_name nonce_desync = codes "NONCE_DESYNC"
code_name nonce_return_untrusted = codes "NONCE_RETURN_UNTRUSTED"
code_name nonce_account_closed = codes "NONCE_ACCOUNT_CLOSED"
code_name limit_receipt_cap = codes "LIMIT_RECEIPT_CAP"
code_name limit_queue_exposure = codes "LIMIT_QUEUE_EXPOSURE"
code_name limit_failed_sends = codes "LIMIT_FAILED_SENDS"
code_name limit_send_window_expired = codes "LIMIT_SEND_WINDOW_EXPIRED"
code_name limit_precheck_required = codes "LIMIT_PRECHECK_REQUIRED"
code_name limit_payer_allowance = codes "LIMIT_PAYER_ALLOWANCE"
code_name submit_nonce_stale = codes "SUBMIT_NONCE_STALE"
code_name submit_nonce_absent = codes "SUBMIT_NONCE_ABSENT"
code_name submit_execution_failed = codes "SUBMIT_EXECUTION_FAILED"
code_name submit_already_processed = codes "SUBMIT_ALREADY_PROCESSED"
code_name submit_blockhash_expired = codes "SUBMIT_BLOCKHASH_EXPIRED"
code_name submit_rpc_unavailable = codes "SUBMIT_RPC_UNAVAILABLE"
code_name internal_not_implemented = codes "INTERNAL_NOT_IMPLEMENTED"
code_name internal_not_applicable = codes "INTERNAL_NOT_APPLICABLE"

-- `FAILURE_COPY[code]`.
unfoldable pub failure_copy : ErrorCode → Option FailureCopy
failure_copy wire_version_unsupported = some wire_version_unsupported_copy
failure_copy wire_reserved_flag_set = some wire_reserved_flag_set_copy
failure_copy wire_length_mismatch = some wire_length_mismatch_copy
failure_copy wire_unknown_type = some wire_unknown_type_copy
failure_copy wire_unexpected_type = some wire_unexpected_type_copy
failure_copy wire_flags_mismatch = some wire_flags_mismatch_copy
failure_copy wire_static_constraint = some wire_static_constraint_copy
failure_copy wire_base45_invalid = some wire_base45_invalid_copy
failure_copy wire_flag_not_allowed_for_type = some wire_flag_not_allowed_for_type_copy
failure_copy wire_fee_payer_separate_unsupported = some wire_fee_payer_separate_unsupported_copy
failure_copy wire_fee_payer_is_payer = some wire_fee_payer_is_payer_copy
failure_copy wire_duplicate_auth = some wire_duplicate_auth_copy
failure_copy mint_unknown = some mint_unknown_copy
failure_copy mint_incompatible = some mint_incompatible_copy
failure_copy mint_decimals_mismatch = some mint_decimals_mismatch_copy
failure_copy mint_token_program_mismatch = some mint_token_program_mismatch_copy
failure_copy mint_record_stale = some mint_record_stale_copy
failure_copy canon_instruction_not_allowed = some canon_instruction_not_allowed_copy
failure_copy canon_account_mismatch = some canon_account_mismatch_copy
failure_copy canon_amount_mismatch = some canon_amount_mismatch_copy
failure_copy canon_destination_mismatch = some canon_destination_mismatch_copy
failure_copy canon_instruction_order = some canon_instruction_order_copy
failure_copy sig_invalid = some sig_invalid_copy
failure_copy sig_length = some sig_length_copy
failure_copy sig_fee_payer_missing = some sig_fee_payer_missing_copy
failure_copy nonce_index_out_of_range = some nonce_index_out_of_range_copy
failure_copy nonce_already_spent = some nonce_already_spent_copy
failure_copy nonce_ledger_missing = some nonce_ledger_missing_copy
failure_copy nonce_pool_exhausted = some nonce_pool_exhausted_copy
failure_copy nonce_pool_underfunded = some nonce_pool_underfunded_copy
failure_copy nonce_desync = some nonce_desync_copy
failure_copy nonce_return_untrusted = some nonce_return_untrusted_copy
failure_copy nonce_account_closed = some nonce_account_closed_copy
failure_copy limit_receipt_cap = some limit_receipt_cap_copy
failure_copy limit_queue_exposure = some limit_queue_exposure_copy
failure_copy limit_failed_sends = some limit_failed_sends_copy
failure_copy limit_send_window_expired = some limit_send_window_expired_copy
failure_copy limit_precheck_required = some limit_precheck_required_copy
failure_copy limit_payer_allowance = some limit_payer_allowance_copy
failure_copy submit_nonce_stale = some submit_nonce_stale_copy
failure_copy submit_nonce_absent = some submit_nonce_absent_copy
failure_copy submit_execution_failed = some submit_execution_failed_copy
failure_copy submit_already_processed = some submit_already_processed_copy
failure_copy submit_blockhash_expired = some submit_blockhash_expired_copy
failure_copy submit_rpc_unavailable = some submit_rpc_unavailable_copy
failure_copy internal_not_implemented = none
failure_copy internal_not_applicable = none

unfoldable pub user_facing : ErrorCode → Bool
unfolding code_name
user_facing code = not (starts_with (codes "INTERNAL_") (code_name code))

unfoldable pub user_facing_codes : List ErrorCode
user_facing_codes = filter user_facing vadum_error_codes

abbrev pub defect_copy : FailureCopy
defect_copy = record {
  title = codes "Something in the app went wrong";
  body = codes "This is a defect, not a payment problem. Nothing was signed or sent.";
  side = both_sides;
  action = no_action;
}

-- A code without copy reads as `undefined`, which the completeness of the table excludes.
unfoldable pub copy_for : ErrorCode → Option FailureCopy
copy_for code = if user_facing code then failure_copy code else some defect_copy
