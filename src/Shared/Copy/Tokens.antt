-- ===== src/Shared/Copy/Tokens.antt =====
-- apps/shared/src/errors.ts: `FAILURE_COPY` of the codes MINT_*, CANON_*, SIG_*.
use vadum.Base.{◌++◌}
use vadum.Base.Text.{codes}
use vadum.Shared.Copy.Kinds.{
  FailureCopy, payer_side, merchant_side, both_sides, reconnect, rescan, no_action,
}

abbrev pub mint_unknown_copy : FailureCopy
mint_unknown_copy = record {
  title = codes "Unknown token";
  body =
      (codes "This token is not in your list of checked tokens, so it cannot be "
        ++ (codes "paid offline. Reconnect once to check it."));
  side = payer_side;
  action = reconnect;
}

abbrev pub mint_incompatible_copy : FailureCopy
mint_incompatible_copy = record {
  title = codes "This token cannot be paid offline";
  body =
      (codes "Its rules — a transfer hook, a transfer fee, or accounts that arrive "
        ++ (codes "frozen — make an offline payment impossible to verify."));
  side = both_sides;
  action = no_action;
}

abbrev pub mint_decimals_mismatch_copy : FailureCopy
mint_decimals_mismatch_copy = record {
  title = codes "Token details do not match";
  body =
      (codes "The request describes this token differently than your records do. "
        ++ (codes "Reconnect once to refresh them."));
  side = payer_side;
  action = reconnect;
}

abbrev pub mint_token_program_mismatch_copy : FailureCopy
mint_token_program_mismatch_copy = record {
  title = codes "Token details do not match";
  body =
      (codes "The request names the wrong token program for this token, which would "
        ++ (codes "send funds to the wrong account. Do not pay it."));
  side = payer_side;
  action = no_action;
}

abbrev pub mint_record_stale_copy : FailureCopy
mint_record_stale_copy = record {
  title = codes "Token rules not re-checked recently";
  body =
      (codes "This token can change its own rules, and yours were last checked a "
        ++ (codes "while ago, so offline payments are capped. Reconnect to lift the cap."));
  side = payer_side;
  action = reconnect;
}

abbrev pub canon_instruction_not_allowed_copy : FailureCopy
canon_instruction_not_allowed_copy = record {
  title = codes "This payment does something else";
  body =
      (codes "The payment contains an instruction Vadum does not allow. It was not "
        ++ (codes "signed."));
  side = both_sides;
  action = no_action;
}

abbrev pub canon_account_mismatch_copy : FailureCopy
canon_account_mismatch_copy = record {
  title = codes "The payment does not match the request";
  body =
      (codes "The accounts in the payment are not the ones the request named. It "
        ++ (codes "was not accepted."));
  side = both_sides;
  action = rescan;
}

abbrev pub canon_amount_mismatch_copy : FailureCopy
canon_amount_mismatch_copy = record {
  title = codes "The amount does not match";
  body =
      (codes "The signed amount is not the amount for this sale. Enter the price "
        ++ (codes "again and rescan, and do not hand anything over."));
  side = merchant_side;
  action = rescan;
}

abbrev pub canon_destination_mismatch_copy : FailureCopy
canon_destination_mismatch_copy = record {
  title = codes "The payment would go elsewhere";
  body = codes "The payment does not pay this merchant’s account. It was not accepted.";
  side = merchant_side;
  action = no_action;
}

abbrev pub canon_instruction_order_copy : FailureCopy
canon_instruction_order_copy = record {
  title = codes "This payment is malformed";
  body = codes "The payment’s instructions are out of order. It was not accepted.";
  side = both_sides;
  action = no_action;
}

abbrev pub sig_invalid_copy : FailureCopy
sig_invalid_copy = record {
  title = codes "The signature does not match";
  body =
      (codes "This code was not signed for this request. Show the request again and "
        ++ (codes "have it rescanned; do not hand anything over."));
  side = merchant_side;
  action = rescan;
}

abbrev pub sig_length_copy : FailureCopy
sig_length_copy = record {
  title = codes "The code was read incompletely";
  body = codes "The signature in the scanned code is the wrong size. Scan it again.";
  side = both_sides;
  action = rescan;
}

abbrev pub sig_fee_payer_missing_copy : FailureCopy
sig_fee_payer_missing_copy = record {
  title = codes "This device cannot send the payment";
  body = codes "The merchant key that pays the fee is not available on this device.";
  side = merchant_side;
  action = no_action;
}
