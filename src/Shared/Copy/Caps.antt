-- ===== src/Shared/Copy/Caps.antt =====
-- apps/shared/src/errors.ts: `FAILURE_COPY` of the codes LIMIT_*.
use vadum.Base.{◌++◌}
use vadum.Base.Text.{codes}
use vadum.Shared.Copy.Kinds.{FailureCopy, payer_side, merchant_side, reconnect, no_action}

abbrev pub limit_receipt_cap_copy : FailureCopy
limit_receipt_cap_copy = record {
  title = codes "Above the offline limit";
  body =
      (codes "This sale is larger than this mode allows without confirmation. "
        ++ (codes "Switch to waiting for confirmation, or split the sale."));
  side = merchant_side;
  action = no_action;
}

abbrev pub limit_queue_exposure_copy : FailureCopy
limit_queue_exposure_copy = record {
  title = codes "Too much waiting to settle";
  body =
      (codes "Unsent payments have reached the limit for accepting more offline. "
        ++ (codes "Reconnect and let the queue drain first."));
  side = merchant_side;
  action = reconnect;
}

abbrev pub limit_failed_sends_copy : FailureCopy
limit_failed_sends_copy = record {
  title = codes "Offline accepting paused";
  body =
      (codes "Several payments in a row failed to settle. Offline accepting is "
        ++ (codes "paused until you reconnect and look at the queue."));
  side = merchant_side;
  action = reconnect;
}

abbrev pub limit_send_window_expired_copy : FailureCopy
limit_send_window_expired_copy = record {
  title = codes "Too old to send";
  body =
      (codes "This payment sat unsent past its 24-hour window and has been voided. "
        ++ (codes "Ask the customer to pay again."));
  side = merchant_side;
  action = no_action;
}

abbrev pub limit_precheck_required_copy : FailureCopy
limit_precheck_required_copy = record {
  title = codes "A connection is needed to accept this way";
  body =
      (codes "Accepting before confirmation requires checking the payment’s account "
        ++ (codes "online first. Without a connection this is offline accepting, with "
            ++ (codes "its lower limit.")));
  side = merchant_side;
  action = reconnect;
}

abbrev pub limit_payer_allowance_copy : FailureCopy
limit_payer_allowance_copy = record {
  title = codes "Offline spending limit reached";
  body =
      (codes "This device signs only a limited amount of offline payments in any 24 "
        ++ (codes "hours, and reconnecting does not reset it — that is what stops "
            ++ (codes "someone holding an unlocked phone from spending everything on it. The "
                ++ (codes "limit frees up 24 hours after the earliest of those payments."))));
  side = payer_side;
  action = no_action;
}
