-- ===== src/Client/Queue/Accept.antt =====
-- packages/client/src/queue.ts: `accept` and `expire`.
use vadum.Base.{
  ℕ, Bool, true, false, not, ◌&&◌, Option, none, some, List, leb, if◌then◌else◌, is_some, filter,
  map,
}
use vadum.Base.Int.{ℤ, ◌+ℤ◌, ltb_ℤ}
use vadum.Base.Text.{Text}
use vadum.Core.Errors.{
  Result, ok, err, foreign, ◌>>◌, throw_if, wire_duplicate_auth, limit_precheck_required,
  limit_failed_sends, limit_receipt_cap, limit_queue_exposure,
}
use vadum.Core.Types.{PaymentTier, t1, VerifiedPayment}
use vadum.Client.NonceCheck.{NonceVerdict, is_as_claimed}
use vadum.Client.Queue.State.{
  queued, QueuedPayment, QueueLimits, Runtime, QueueState, payment_id, has, set_payment, is_t0,
  ordered, exposure, is_expired, void_payment, set_all,
}

unfoldable pub is_t1 : PaymentTier → Bool
is_t1 t1 = true
is_t1 _ = false

-- `verdict?.ok === true`.
unfoldable pub passes : Option NonceVerdict → Bool
passes none = false
passes (some v) = is_as_claimed v

unfoldable pub new_payment : Text → VerifiedPayment → PaymentTier → ℕ → ℤ → QueuedPayment
new_payment id payment tier now amount = record {
  id = id;
  payment = payment;
  tier = tier;
  accepted_at = now;
  amount = amount;
  attempts = 0;
  last_error = none;
  state = queued;
}

-- `save`: the map is set first, and the write to the store may fail.
unfoldable pub save : Bool → QueuedPayment → QueueState → Result QueuedPayment × QueueState
save writable p q =
    if writable
    then (ok p, record q { payments = set_payment p q.payments; stored = set_payment p q.stored })
    else (err foreign, record q { payments = set_payment p q.payments })

module _ (rt : Runtime) (limits : QueueLimits) where
  -- The checks of `accept`, in their order.
  unfoldable pub check :
      QueueState → VerifiedPayment → PaymentTier → ℤ → Option NonceVerdict → Result (Unit {0})
  check q payment tier amount precheck = do
    throw_if (has q.payments (payment_id rt payment)) wire_duplicate_auth
    throw_if (is_t1 tier && is_some payment.input.nonce_ref && not (passes precheck))
        limit_precheck_required
    throw_if (leb limits.max_consecutive_failed_sends q.consecutive_failed_sends) limit_failed_sends
    throw_if (ltb_ℤ (limits.receipt_cap_by_tier tier) amount) limit_receipt_cap
    throw_if (not (is_t0 tier) && ltb_ℤ limits.queue_exposure_cap (exposure rt q +ℤ amount))
        limit_queue_exposure

  unfoldable pub accept_checked :
      Result (Unit {0})
      → Bool
      → ℕ
      → VerifiedPayment
      → PaymentTier
      → ℤ
      → QueueState
      → Result QueuedPayment × QueueState
  accept_checked (err e) writable now payment tier amount q = (err e, q)
  accept_checked (ok u) writable now payment tier amount q =
      save writable (new_payment (payment_id rt payment) payment tier now amount) q

  -- `now` is `Date.now()`.
  unfoldable pub accept :
      (writable : Bool)
      → (now : ℕ) → VerifiedPayment
      → PaymentTier
      → ℤ
      → Option NonceVerdict
      → QueueState
      → Result QueuedPayment × QueueState
  accept writable now payment tier amount precheck q =
      accept_checked (check q payment tier amount precheck) writable now payment tier amount q

  -- The writes of `expire` are not awaited: they may or may not arrive in the store.
  unfoldable pub expire :
      (writable : Bool) → (now : ℕ) → QueueState → List QueuedPayment × QueueState
  expire writable now q =
      let voids = map void_payment (filter (is_expired limits now) (ordered rt q)) in
      (
        voids,
        record q {
          payments = set_all voids q.payments;
          stored = if writable then set_all voids q.stored else q.stored;
        },
      )
