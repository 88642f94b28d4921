-- ===== src/Shared/Copy/Scanned.antt =====
-- apps/shared/src/errors.ts: `FAILURE_COPY` of the codes WIRE_*.
use vadum.Base.{◌++◌}
use vadum.Base.Text.{codes}
use vadum.Shared.Copy.Kinds.{FailureCopy, payer_side, merchant_side, both_sides, rescan, no_action}

abbrev pub wire_version_unsupported_copy : FailureCopy
wire_version_unsupported_copy = record {
  title = codes "This code is from a newer version";
  body =
      (codes "The other device is running a newer version of Vadum than this one. "
        ++ (codes "Update both apps and try again."));
  side = both_sides;
  action = no_action;
}

abbrev pub wire_reserved_flag_set_copy : FailureCopy
wire_reserved_flag_set_copy = record {
  title = codes "This code is not valid";
  body =
      (codes "The scanned code sets options this version does not know. Ask for a "
        ++ (codes "fresh code."));
  side = both_sides;
  action = rescan;
}

abbrev pub wire_length_mismatch_copy : FailureCopy
wire_length_mismatch_copy = record {
  title = codes "The code was read incompletely";
  body = codes "Part of the code was lost. Hold the phone steady and scan it again.";
  side = both_sides;
  action = rescan;
}

abbrev pub wire_unknown_type_copy : FailureCopy
wire_unknown_type_copy = record {
  title = codes "This is not a Vadum code";
  body = codes "The scanned code is not a Vadum payment code.";
  side = both_sides;
  action = rescan;
}

abbrev pub wire_unexpected_type_copy : FailureCopy
wire_unexpected_type_copy = record {
  title = codes "Wrong kind of code for this screen";
  body =
      (codes "This is a Vadum code, but not the one this screen is waiting for. "
        ++ (codes "Check which device should be showing a code."));
  side = both_sides;
  action = rescan;
}

abbrev pub wire_flags_mismatch_copy : FailureCopy
wire_flags_mismatch_copy = record {
  title = codes "This code answers a different request";
  body =
      (codes "The payment code does not match the request on screen. Show the "
        ++ (codes "request again and have it rescanned."));
  side = merchant_side;
  action = rescan;
}

abbrev pub wire_static_constraint_copy : FailureCopy
wire_static_constraint_copy = record {
  title = codes "This printed code is not valid";
  body = codes "The printed code is malformed. Print it again from the merchant app.";
  side = both_sides;
  action = no_action;
}

abbrev pub wire_base45_invalid_copy : FailureCopy
wire_base45_invalid_copy = record {
  title = codes "The code could not be read";
  body =
      (codes "The scan came back damaged — often glare or a partly covered code. "
        ++ (codes "Clean the screen or the sticker and scan again."));
  side = both_sides;
  action = rescan;
}

abbrev pub wire_flag_not_allowed_for_type_copy : FailureCopy
wire_flag_not_allowed_for_type_copy = record {
  title = codes "This code is not valid";
  body =
      (codes "The code combines options that cannot go together. Ask for a fresh "
        ++ (codes "code."));
  side = both_sides;
  action = rescan;
}

abbrev pub wire_fee_payer_separate_unsupported_copy : FailureCopy
wire_fee_payer_separate_unsupported_copy = record {
  title = codes "This code needs a relayer";
  body = codes "It asks for a separate fee payer, which this version does not support.";
  side = both_sides;
  action = no_action;
}

abbrev pub wire_fee_payer_is_payer_copy : FailureCopy
wire_fee_payer_is_payer_copy = record {
  title = codes "This request would charge you the fee";
  body =
      (codes "The request asks you to pay the network fee and the account rent. A "
        ++ (codes "Vadum merchant pays both. Do not pay this request."));
  side = payer_side;
  action = no_action;
}

abbrev pub wire_duplicate_auth_copy : FailureCopy
wire_duplicate_auth_copy = record {
  title = codes "Already received";
  body =
      (codes "You have already accepted this exact payment. Showing the same code "
        ++ (codes "twice does not pay twice — ask for a new payment."));
  side = merchant_side;
  action = no_action;
}
