-- ===== src/Client/Queue/Examples.antt =====
-- A queue at concrete inputs: a payment accepted, expired, and shown again.
use vadum.Base.{◌≡◌, refl, true, false, Option, none, some, [], ◌∷◌, replicate, arith}
use vadum.Base.Int.{pos, total, sum_from, ◌+ℤ◌, ◌-ℤ◌}
use vadum.Base.Number.{from_nat}
use vadum.Base.Sort.{sort}
use vadum.Base.Text.{codes}
use vadum.Core.Errors.{ok, err, vadum_error, wire_duplicate_auth}
use vadum.Core.Types.{VerifiedPayment, Intent, nonce, spl_token, t1}
use vadum.Client.NonceCheck.{NonceVerdict, as_claimed, is_as_claimed}
use vadum.Client.Queue.State.{
  remaining_exposure, QueuedPayment, Runtime, QueueState, default_queue_limits, payment_id, has,
  set_payment, is_t0, ordered, exposed_in, exposure,
}
use vadum.Client.Queue.Accept.{is_t1, passes, new_payment, save, check, accept_checked, accept}
use vadum.Client.Queue.Drain.{expire_call, run_call, drain}
use vadum.Client.Queue.Duplicates.{here, called, drained, accept-once}
use vadum.Client.Setting.{quiet_turn, derivation, keys, transactions}
use vadum.Client.Queue.Accepts.{Queued, accept-accepts}
use vadum.Client.Queue.Exposure.{Accepted, accept-Accepted}

abbrev runtime : Runtime
runtime = record {
  number_text = λ n. codes "4";
  sha_256 = λ bytes. bytes;
  base58_text = λ bytes. bytes;
  not_after = λ a b. true;
}

abbrev shop_intent : Intent
shop_intent = record {
  merchant = codes "shop";
  mint = codes "mint";
  decimals = from_nat 6;
  amount = some (pos 5);
  lifetime = nonce;
  include_create_ata = true;
  token_program = spl_token;
  fee_payer = codes "shop";
  is_static = false;
}

abbrev payment : VerifiedPayment
payment = record {
  input = record {
    intent = shop_intent;
    payer = codes "payer";
    nonce_ref = some (record { index = from_nat 4; value = codes "value" });
    amount = pos 5;
  };
  message_bytes = [];
  auth = record {
    payer = codes "payer";
    nonce_ref = some (record { index = from_nat 4; value = codes "value" });
    amount = none;
    signature = replicate 64 1;
  };
}

abbrev empty : QueueState
empty = record {
  payments = [];
  stored = [];
  consecutive_failed_sends = 0;
  stored_failed_sends = none;
}

abbrev entry : QueuedPayment
entry = new_payment (payment_id runtime payment) payment t1 100 (pos 5)

abbrev one : QueueState
one = record {
  payments = entry ∷ [];
  stored = entry ∷ [];
  consecutive_failed_sends = 0;
  stored_failed_sends = none;
}

abbrev verdict : Option NonceVerdict
verdict = some (as_claimed (codes "value"))

first_accepted :
    accept runtime default_queue_limits true 100 payment t1 (pos 5) verdict empty ≡ (ok entry, one)
unfolding accept accept_checked check has payment_id is_t1 passes is_as_claimed default_queue_limits
    is_t0 exposure ordered exposed_in total sum_from sort ◌+ℤ◌ save set_payment new_payment
first_accepted = refl

-- The payment is sent, and then it expires.
abbrev later : QueueState
later =
    run_call runtime default_queue_limits (expire_call true 100_000_000)
      (drain runtime default_queue_limits derivation keys transactions 2 (λ i. quiet_turn) one).1

accept-once_example :
    accept runtime default_queue_limits true 200_000_000 payment t1 (pos 5) none later
    ≡ (err (vadum_error wire_duplicate_auth), later)
accept-once_example =
    accept-once runtime default_queue_limits derivation keys transactions 2 true true 100
      200_000_000 payment t1 t1 (pos 5) (pos 5) verdict none empty one later entry first_accepted
      (called (expire_call true 100_000_000) (drained (λ i. quiet_turn) here))

accept-Accepted_example :
    Accepted runtime default_queue_limits empty one entry payment t1 100 (pos 5) verdict
accept-Accepted_example =
    accept-Accepted runtime default_queue_limits true 100 payment t1 (pos 5) verdict empty one entry
      first_accepted

accept-accepts_example :
    Queued
      (new_payment (payment_id runtime payment) payment t1 100 (pos 5))
      (accept runtime default_queue_limits true 100 payment t1 (pos 5) verdict empty)
unfolding has passes is_as_claimed default_queue_limits remaining_exposure ◌-ℤ◌ exposure exposed_in
    total sum_from ordered sort
accept-accepts_example =
    accept-accepts runtime default_queue_limits 100 payment t1 (pos 5) verdict empty refl
      (λ e. refl) (omega arith) (omega arith) (omega arith) (λ e. omega arith)
