-- ===== src/Shared/Copy/Slots.antt =====
-- apps/shared/src/errors.ts: `FAILURE_COPY` of the codes NONCE_*.
use vadum.Base.{◌++◌}
use vadum.Base.Text.{codes}
use vadum.Shared.Copy.Kinds.{
  FailureCopy, payer_side, both_sides, reconnect, rescan, top_up, no_action,
}

abbrev pub nonce_index_out_of_range_copy : FailureCopy
nonce_index_out_of_range_copy = record {
  title = codes "This code is not valid";
  body = codes "It refers to an offline payment slot that cannot exist.";
  side = both_sides;
  action = rescan;
}

abbrev pub nonce_already_spent_copy : FailureCopy
nonce_already_spent_copy = record {
  title = codes "This slot has already been used";
  body =
      (codes "That offline payment slot was already spent. Reconnect once to "
        ++ (codes "refresh your slots."));
  side = payer_side;
  action = reconnect;
}

abbrev pub nonce_ledger_missing_copy : FailureCopy
nonce_ledger_missing_copy = record {
  title = codes "Cannot pay offline — reconnect once to restore";
  body =
      (codes "Your record of which offline payments are already used is missing, so "
        ++ (codes "paying offline could create payments that will never go through. One "
            ++ (codes "online session restores it.")));
  side = payer_side;
  action = reconnect;
}

abbrev pub nonce_pool_exhausted_copy : FailureCopy
nonce_pool_exhausted_copy = record {
  title = codes "Offline payments used up";
  body =
      (codes "Every offline payment slot is spent. Reconnect once to refresh them — "
        ++ (codes "the deposit is not spent, only the slots."));
  side = payer_side;
  action = reconnect;
}

abbrev pub nonce_pool_underfunded_copy : FailureCopy
nonce_pool_underfunded_copy = record {
  title = codes "Not enough SOL for the deposit";
  body =
      (codes "Creating offline payment slots needs a refundable deposit plus a "
        ++ (codes "small fee, and the wallet must keep a minimum balance. Top it up and "
            ++ (codes "try again.")));
  side = payer_side;
  action = top_up;
}

abbrev pub nonce_desync_copy : FailureCopy
nonce_desync_copy = record {
  title = codes "A payment was never submitted";
  body =
      (codes "A merchant took a payment and never sent it, so its slot has been "
        ++ (codes "released. The 24-hour window this uses is a safeguard, not a "
            ++ (codes "guarantee.")));
  side = payer_side;
  action = no_action;
}

abbrev pub nonce_return_untrusted_copy : FailureCopy
nonce_return_untrusted_copy = record {
  title = codes "This recovery code is not for you";
  body =
      (codes "It was not issued by the merchant you paid, or not for the payment it "
        ++ (codes "claims. Nothing changed."));
  side = payer_side;
  action = no_action;
}

abbrev pub nonce_account_closed_copy : FailureCopy
nonce_account_closed_copy = record {
  title = codes "An offline payment slot was closed";
  body =
      (codes "One of your slots no longer exists on chain. Reconnect once to "
        ++ (codes "refresh the pool."));
  side = payer_side;
  action = reconnect;
}
