-- ===== src/Shared/Copy/States.antt =====
-- apps/shared/src/errors.ts: `STATE_COPY`, the states that are no error codes.
use vadum.Base.{◌++◌}
use vadum.Base.Text.{codes}
use vadum.Shared.Copy.Kinds.{FailureCopy, payer_side, reconnect, install}

abbrev pub recovery_copy : FailureCopy
recovery_copy = record {
  title = codes "Cannot pay offline — reconnect once to restore";
  body =
      (codes "This device has offline payment slots but no record of which are "
        ++ (codes "already used. One online session restores the record."));
  side = payer_side;
  action = reconnect;
}

abbrev pub not_installed_copy : FailureCopy
not_installed_copy = record {
  title = codes "Install the app to pay offline";
  body =
      (codes "In a browser tab the phone can delete this app’s data at any time, "
        ++ (codes "which would make offline payments unsafe. Add Vadum to your home "
            ++ (codes "screen and open it from there.")));
  side = payer_side;
  action = install;
}

abbrev pub no_tokens_copy : FailureCopy
no_tokens_copy = record {
  title = codes "Check a token before you go offline";
  body =
      (codes "This device can only pay with a token it has checked online at least "
        ++ (codes "once — that check is what makes the payment verifiable with no "
            ++ (codes "connection. Add the token your merchant uses while you still have one.")));
  side = payer_side;
  action = reconnect;
}

abbrev pub above_payer_cap_copy : FailureCopy
above_payer_cap_copy = record {
  title = codes "Too large to pay offline";
  body =
      (codes "This device will not sign a single offline payment above its limit. "
        ++ (codes "The limit exists because anyone holding an unlocked phone can pay "
            ++ (codes "with it — reconnect and pay online instead.")));
  side = payer_side;
  action = reconnect;
}
