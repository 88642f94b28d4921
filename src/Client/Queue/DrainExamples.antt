-- ===== src/Client/Queue/DrainExamples.antt =====
-- A drain at concrete inputs: a payment that the chain executed and failed, expired while it was sent.
use vadum.Base.{
  ◌+◌, ◌≤◌, ◌<◌, arith, ◌≡◌, refl, true, false, none, some, List, [], ◌∷◌, All, find, replicate,
}
use vadum.Base.Int.{pos}
use vadum.Base.Number.{from_nat}
use vadum.Base.Sort.{insert, sort}
use vadum.Base.Text.{codes, text_eq}
use vadum.Core.Canonical.Wire.{build_wire_transaction}
use vadum.Core.Errors.{Failure, ok, err, submit_execution_failed}
use vadum.Core.Types.{VerifiedPayment, fresh, spl_token, t1}
use vadum.Client.Queue.Accept.{save, accept, expire, new_payment}
use vadum.Client.Queue.Closes.{drain-closes}
use vadum.Client.Queue.Counted.{failed_sends}
use vadum.Client.Queue.Drain.{
  Turn, expire_call, run_call, run_calls, is_eligible, marked, recorded, counts_as_failed_send,
  count_after, save_meta, note, sent, record_outcome, after_mark, snapshot, drain_one, drain_all,
  drain,
}
use vadum.Client.Queue.Duplicates.{here, drained}
use vadum.Client.Queue.Idle.{Idle}
use vadum.Client.Queue.Load.{Reads, or_zero, read_keys, load_all, load_meta, load, restart}
use vadum.Client.Queue.Recorded.{Drained, drain-Drained, drain_one-overrides}
use vadum.Client.Queue.Resend.{snapshot-Idle}
use vadum.Client.Queue.State.{
  QueuedPayment, QueueLimits, Runtime, QueueState, has_id, has, set_payment, ordered, set_all,
  is_expired, is_open, void_payment,
}
use vadum.Client.Setting.{quiet_turn, derivation, keys, transactions}
use vadum.Client.Submit.{
  did_fail, payment_lifetime, after_lookup, after_send, send, submit, SubmitOutcome,
}

abbrev payment : VerifiedPayment
payment = record {
  input = record {
    intent = record {
      merchant = 2 ∷ [];
      mint = codes "mint";
      decimals = from_nat 6;
      amount = some (pos 5);
      lifetime = fresh (codes "hash") (pos 10);
      include_create_ata = true;
      token_program = spl_token;
      fee_payer = 2 ∷ [];
      is_static = false;
    };
    payer = 1 ∷ [];
    nonce_ref = none;
    amount = pos 5;
  };
  message_bytes = 8 ∷ [];
  auth = record { payer = 1 ∷ []; nonce_ref = none; amount = none; signature = replicate 64 1 };
}

abbrev runtime : Runtime
runtime = record {
  number_text = λ n. codes "4";
  sha_256 = λ bytes. bytes;
  base58_text = λ bytes. bytes;
  not_after = λ a b. true;
}

abbrev limits : QueueLimits
limits = record {
  receipt_cap_by_tier = λ tier. pos 20;
  queue_exposure_cap = pos 50;
  max_consecutive_failed_sends = 1;
  send_window = 1000;
}

abbrev entry : QueuedPayment
entry = new_payment (codes "a") payment t1 100 (pos 5)

abbrev one : QueueState
one = record {
  payments = entry ∷ [];
  stored = entry ∷ [];
  consecutive_failed_sends = 0;
  stored_failed_sends = none;
}

abbrev failure : SubmitOutcome
failure = did_fail submit_execution_failed true

abbrev failed_one : QueueState
failed_one = record {
  payments = recorded entry failure ∷ [];
  stored = recorded entry failure ∷ [];
  consecutive_failed_sends = 1;
  stored_failed_sends = some 1;
}

drain_fails :
    drain runtime limits derivation keys transactions 2 (λ i. quiet_turn) one
    ≡ (ok (failure ∷ []), failed_one)
unfolding drain drain_all snapshot ordered sort insert is_eligible new_payment drain_one save marked
    set_payment after_mark sent submit run_calls record_outcome note save_meta recorded
    payment_lifetime build_wire_transaction text_eq after_send send after_lookup has_id count_after
    counts_as_failed_send
drain_fails = refl

abbrev all_reads : Reads
all_reads = record { keys = true; payment = λ p. true; meta = true }

loads_again :
    load runtime all_reads (restart failed_one) ≡ (ok (recorded entry failure ∷ []), failed_one)
unfolding load restart read_keys load_all load_meta set_payment or_zero ordered sort insert
loads_again = refl

one_failed : 0 < failed_sends (failure ∷ [])
unfolding counts_as_failed_send
one_failed = omega arith

reached : limits.max_consecutive_failed_sends ≤ 0 + failed_sends (failure ∷ [])
unfolding counts_as_failed_send
reached = omega arith

drain-closes_example :
    ((e : Failure) × (accept runtime limits true 200 payment t1 (pos 5) none failed_one
        ≡ (err e, failed_one)))
    × ((e : Failure) × (accept runtime limits true 200 payment t1 (pos 5) none failed_one
          ≡ (err e, failed_one)))
drain-closes_example =
    drain-closes runtime limits derivation keys transactions 2 (λ i. quiet_turn) one failed_one
      failed_one (failure ∷ []) all_reads (recorded entry failure ∷ []) true 200 payment t1 (pos 5)
      none (λ j. (tt, tt, tt)) drain_fails refl one_failed reached loads_again

drain-Drained_example :
    Drained runtime limits derivation keys transactions 2
      (snapshot runtime limits one)
      (failure ∷ [])
      one
      failed_one
drain-Drained_example =
    drain-Drained runtime limits derivation keys transactions 2 (λ i. quiet_turn) one failed_one
      (failure ∷ []) (λ j. (refl, refl, refl)) drain_fails

-- The payment is voided while it is being sent.
abbrev late_turn : Turn
late_turn = record quiet_turn { while_sending = expire_call true 5000 ∷ [] }

overridden :
    drain_one runtime limits derivation keys transactions 2 late_turn entry one
    ≡ (ok failure, failed_one)
unfolding ordered sort insert new_payment drain_one save marked set_payment after_mark sent submit
    run_calls record_outcome note save_meta recorded payment_lifetime build_wire_transaction text_eq
    after_send send after_lookup has_id count_after counts_as_failed_send run_call expire set_all
    is_expired is_open void_payment
overridden = refl

drain_one-overrides_example :
    (find (has_id entry.id) failed_one.payments ≡ some (recorded entry failure))
    × (find (has_id entry.id) failed_one.stored ≡ some (recorded entry failure))
drain_one-overrides_example =
    drain_one-overrides runtime limits derivation keys transactions 2 late_turn entry one failed_one
      failure refl refl overridden

abbrev sending : QueueState
sending = record {
  payments = marked entry ∷ [];
  stored = marked entry ∷ [];
  consecutive_failed_sends = 0;
  stored_failed_sends = none;
}

sending-Idle : Idle (codes "a") sending
unfolding has has_id marked text_eq is_eligible new_payment
sending-Idle = record {
  known = record { in_map = refl; in_store = refl };
  in_map = refl;
  in_store = refl;
}

-- The drain that is running has another payment left.
abbrev others : List QueuedPayment
others = record entry { id = codes "b" } ∷ []

others_differ : All (λ p. has_id (codes "a") p ≡ false) others
unfolding has_id text_eq
others_differ = (refl, tt)

abbrev ended : QueueState
ended =
    (drain_all runtime limits derivation keys transactions 2 (λ i. quiet_turn) 0 others sending).1

snapshot-Idle_example :
    All
      (λ p. has_id (codes "a") p ≡ false)
      (snapshot runtime limits
        (drain runtime limits derivation keys transactions 2 (λ i. quiet_turn) ended).1)
snapshot-Idle_example =
    snapshot-Idle runtime limits derivation keys transactions 2 (codes "a") (λ i. quiet_turn) 0
      others sending (drain runtime limits derivation keys transactions 2 (λ i. quiet_turn) ended).1
      sending-Idle others_differ (drained (λ i. quiet_turn) here)
