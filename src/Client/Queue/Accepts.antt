-- ===== src/Client/Queue/Accepts.antt =====
-- packages/client/src/queue.ts: when `accept` answers, with the room that `remainingExposure` says.
use vadum.Base.{
  ℕ, ◌<◌, leb, is_some, ◌≡◌, refl, ap, Bool, true, false, not, ◌&&◌, Option, some, List, [], ◌∷◌,
  find, arith, if◌then◌else◌, Bool-cases, inl, inr,
}
use vadum.Base.Int.{ℤ, pos, ◌+ℤ◌, ◌-ℤ◌, ◌≤ℤ◌, ◌<ℤ◌, ltb_ℤ, -ℤ_parts, +ℤ_parts}
use vadum.Base.Text.{text_eq, text_eq_refl}
use vadum.Core.Errors.{Result, ok}
use vadum.Core.Types.{PaymentTier, VerifiedPayment}
use vadum.Client.NonceCheck.{NonceVerdict}
use vadum.Client.Queue.State.{
  QueuedPayment, QueueLimits, Runtime, QueueState, payment_id, has_id, has, set_payment, is_t0,
  exposure, remaining_exposure,
}
use vadum.Client.Queue.Accept.{is_t1, passes, new_payment, save, check, accept_checked, accept}

find-set_payment :
    (p : QueuedPayment) (ps : List QueuedPayment) → find (has_id p.id) (set_payment p ps) ≡ some p
unfolding set_payment has_id
find-set_payment p [] = rw (text_eq_refl p.id) refl
find-set_payment p (x ∷ xs) = elim (Bool-cases (text_eq x.id p.id)) [
  | inl e ↦ rw (e, text_eq_refl p.id) refl
  | inr e ↦ rw (e, e) (find-set_payment p xs)
]

-- What is left is nothing or a difference.
left_or_nothing :
    (b : Bool) (left amount : ℤ)
    → pos 0 <ℤ amount
    → amount ≤ℤ (if b then left else pos 0)
    → amount ≤ℤ left
left_or_nothing true left amount positive within = within
left_or_nothing false left amount positive within = absurd (omega (arith, positive, within))

ltb_ℤ-eq-false : (a b : ℤ) → b ≤ℤ a → ltb_ℤ a b ≡ false
ltb_ℤ-eq-false a b h = ground arith

unchecked-eq-false : (a b p : Bool) → ((a && b) ≡ true → p ≡ true) → (a && b && not p) ≡ false
unchecked-eq-false true true p h = ap not (h refl)
unchecked-eq-false true false p h = refl
unchecked-eq-false false b p h = refl

over-eq-false : (z b : Bool) → (z ≡ false → b ≡ false) → (not z && b) ≡ false
over-eq-false true b h = refl
over-eq-false false b h = h refl

-- The answer is the payment, and the map and the store hold it under its key.
abbrev pub Queued : QueuedPayment → Result QueuedPayment × QueueState → Type 0
Queued p r =
    (r.0 ≡ ok p)
    × (find (has_id p.id) r.1.payments ≡ some p)
    × (find (has_id p.id) r.1.stored ≡ some p)

module _ (rt : Runtime) (limits : QueueLimits) where
  -- A positive amount that `remainingExposure` has room for stays within the exposure cap.
  room-of-remaining_exposure :
      (q : QueueState) (amount : ℤ)
      → pos 0 <ℤ amount
      → amount ≤ℤ remaining_exposure rt limits q
      → ltb_ℤ limits.queue_exposure_cap (exposure rt q +ℤ amount) ≡ false
  unfolding remaining_exposure
  room-of-remaining_exposure q amount positive within =
      let left = limits.queue_exposure_cap -ℤ exposure rt q in
      let fits = left_or_nothing (ltb_ℤ (pos 0) left) left amount positive within in
      ltb_ℤ-eq-false limits.queue_exposure_cap (exposure rt q +ℤ amount) (
        omega (
          arith,
          fits,
          -ℤ_parts limits.queue_exposure_cap (exposure rt q),
          +ℤ_parts (exposure rt q) amount,
        ))

  check-accepts :
      (q : QueueState) (payment : VerifiedPayment) (tier : PaymentTier) (amount : ℤ)
      (precheck : Option NonceVerdict)
      → has q.payments (payment_id rt payment) ≡ false
      → (is_t1 tier && is_some payment.input.nonce_ref && not (passes precheck)) ≡ false
      → leb limits.max_consecutive_failed_sends q.consecutive_failed_sends ≡ false
      → ltb_ℤ (limits.receipt_cap_by_tier tier) amount ≡ false
      → (not (is_t0 tier) && ltb_ℤ limits.queue_exposure_cap (exposure rt q +ℤ amount)) ≡ false
      → check rt limits q payment tier amount precheck ≡ ok tt
  unfolding check
  check-accepts q payment tier amount precheck a b c d e = rw (a, b, c, d, e) refl

  -- Where the key of a payment is new, a pre-check passed if it is a T1 payment on the nonce path,
  -- fewer sends than the maximum have failed, the amount is positive and within the cap of its
  -- tier and, unless the tier is T0, within what is left of the exposure cap, and the store
  -- writes, `accept` answers with the queued payment, and the map and the store hold it under its
  -- key.
  pub accept-accepts :
      (now : ℕ) (payment : VerifiedPayment) (tier : PaymentTier) (amount : ℤ)
      (precheck : Option NonceVerdict) (q : QueueState)
      → has q.payments (payment_id rt payment) ≡ false
      → ((is_t1 tier && is_some payment.input.nonce_ref) ≡ true → passes precheck ≡ true)
      → q.consecutive_failed_sends < limits.max_consecutive_failed_sends
      → pos 0 <ℤ amount
      → amount ≤ℤ limits.receipt_cap_by_tier tier
      → (is_t0 tier ≡ false → amount ≤ℤ remaining_exposure rt limits q)
      → Queued
          (new_payment (payment_id rt payment) payment tier now amount)
          (accept rt limits true now payment tier amount precheck q)
  unfolding accept accept_checked save new_payment
  accept-accepts now payment tier amount precheck q fresh prechecked trading positive receipt fits =
      let p = new_payment (payment_id rt payment) payment tier now amount in
      let passes_check : check rt limits q payment tier amount precheck ≡ ok tt =
        check-accepts q payment tier amount precheck fresh
          (unchecked-eq-false (is_t1 tier) (is_some payment.input.nonce_ref) (passes precheck)
            prechecked)
          (ground arith) (ltb_ℤ-eq-false (limits.receipt_cap_by_tier tier) amount receipt)
          (over-eq-false (is_t0 tier) _
            (λ t. room-of-remaining_exposure q amount positive (fits t))) in
      rw passes_check (refl, find-set_payment p q.payments, find-set_payment p q.stored)
