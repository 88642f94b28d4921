-- ===== src/Shared/Copy/Sends.antt =====
-- apps/shared/src/errors.ts: `FAILURE_COPY` of the codes SUBMIT_*.
use vadum.Base.{◌++◌}
use vadum.Base.Text.{codes}
use vadum.Shared.Copy.Kinds.{FailureCopy, merchant_side, retry, no_action}

abbrev pub submit_nonce_stale_copy : FailureCopy
submit_nonce_stale_copy = record {
  title = codes "Not charged — another merchant settled this payment first";
  body =
      (codes "The customer used the same offline slot elsewhere before you sent it. "
        ++ (codes "You were charged nothing. This is a race, not fraud."));
  side = merchant_side;
  action = no_action;
}

abbrev pub submit_nonce_absent_copy : FailureCopy
submit_nonce_absent_copy = record {
  title = codes "This payment was not backed by a valid account";
  body =
      (codes "Nothing was charged, but the goods are gone. The code verified "
        ++ (codes "offline and the account behind it does not exist. Consider requiring "
            ++ (codes "confirmation before handover.")));
  side = merchant_side;
  action = no_action;
}

abbrev pub submit_execution_failed_copy : FailureCopy
submit_execution_failed_copy = record {
  title = codes "The customer could not cover this payment";
  body =
      (codes "The payment reached the network and failed there — usually too few "
        ++ (codes "tokens. You paid the network fee."));
  side = merchant_side;
  action = no_action;
}

abbrev pub submit_already_processed_copy : FailureCopy
submit_already_processed_copy = record {
  title = codes "Already settled";
  body = codes "This payment had already gone through. Nothing was sent twice.";
  side = merchant_side;
  action = no_action;
}

abbrev pub submit_blockhash_expired_copy : FailureCopy
submit_blockhash_expired_copy = record {
  title = codes "This payment expired before it was sent";
  body =
      (codes "It was signed against a short-lived blockhash rather than an offline "
        ++ (codes "slot. Ask the customer to pay again."));
  side = merchant_side;
  action = no_action;
}

abbrev pub submit_rpc_unavailable_copy : FailureCopy
submit_rpc_unavailable_copy = record {
  title = codes "Could not reach the network";
  body =
      (codes "The payment is still queued and nothing was lost. It will be sent "
        ++ (codes "when the connection comes back."));
  side = merchant_side;
  action = retry;
}
