-- ===== src/Client/Queue/Exposure.antt =====
-- The exposure that `accept` adds, and the cap that it stays within.
use vadum.Base.{
  ℕ, ◌<◌, leb, is_some, ◌≡◌, refl, ap, sym, ◌∙◌, Bool, true, false, not, ◌&&◌, Option, List, [],
  ◌∷◌, arith, if◌then◌else◌, Bool-cases, inl, inr,
}
use vadum.Base.Int.{
  ℤ, pos, ◌+ℤ◌, ◌≤ℤ◌, ltb_ℤ, ltb_ℤ-false, total-nil, total-cons, int_laws, parts_of, eq_of_parts,
}
use vadum.Base.Sort.{insert, sort}
use vadum.Base.Text.{Text, text_eq}
use vadum.Core.Errors.{Result, ok, err, throw_if-eq-ok, passed, ok-injective}
use vadum.Core.Types.{PaymentTier, t0, t1, t2, VerifiedPayment}
use vadum.Client.NonceCheck.{NonceVerdict}
use vadum.Client.Queue.State.{
  QueuedPayment, QueueLimits, Runtime, QueueState, payment_id, has_id, has, set_payment,
  is_unsettled, is_t0, is_exposed, comes_first, ordered, exposed_in, exposure,
}
use vadum.Client.Queue.Accept.{is_t1, passes, new_payment, save, check, accept_checked, accept}

-- What one payment adds.
abbrev share : QueuedPayment → ℤ
share p = if is_exposed p then p.amount else pos 0

exposed_in-cons :
    (p : QueuedPayment) (ps : List QueuedPayment) → exposed_in (p ∷ ps) ≡ share p +ℤ exposed_in ps
unfolding exposed_in
exposed_in-cons p ps = elim (Bool-cases (is_exposed p)) [
  | inl e ↦ rw e (total-cons p.amount _)
  | inr e ↦ rw e (eq_of_parts _ _ (omega int_laws))
]

exposed_in-nil : exposed_in [] ≡ pos 0
unfolding exposed_in
exposed_in-nil = total-nil

-- Sorting does not change the sum.
module _ (le : QueuedPayment → QueuedPayment → Bool) where
  exposed_in-insert :
      (p : QueuedPayment) (ps : List QueuedPayment)
      → exposed_in (insert le p ps) ≡ share p +ℤ exposed_in ps
  unfolding insert
  exposed_in-insert p [] = exposed_in-cons p []
  exposed_in-insert p (x ∷ xs) = elim (Bool-cases (le p x)) [
    | inl e ↦ rw e (exposed_in-cons p (x ∷ xs))
    | inr e ↦ rw e (
        eq_of_parts _ _ (
          omega (
            int_laws,
            parts_of (exposed_in-cons x (insert le p xs)),
            parts_of (exposed_in-cons x xs),
            parts_of (exposed_in-insert p xs),
          )))
  ]

  exposed_in-sort : (ps : List QueuedPayment) → exposed_in (sort le ps) ≡ exposed_in ps
  unfolding sort
  exposed_in-sort [] = refl
  exposed_in-sort (x ∷ xs) = eq_of_parts _ _ (
      omega (
        int_laws,
        parts_of (exposed_in-insert x (sort le xs)),
        parts_of (exposed_in-cons x xs),
        parts_of (exposed_in-sort xs),
      ))

-- A payment that is new to the map is added behind the others.
set_payment-new :
    (p : QueuedPayment) (ps : List QueuedPayment)
    → has ps p.id ≡ false
    → exposed_in (set_payment p ps) ≡ share p +ℤ exposed_in ps
unfolding has set_payment has_id
set_payment-new p [] h = exposed_in-cons p []
set_payment-new p (x ∷ xs) h =
    let fresh : text_eq x.id p.id ≡ false = ground arith in
    let rest = set_payment-new p xs (ground arith) in
    rw fresh (
      eq_of_parts _ _ (
        omega (
          int_laws,
          parts_of (exposed_in-cons x (set_payment p xs)),
          parts_of (exposed_in-cons x xs),
          parts_of rest,
        )))

conjunct : {a b : Bool} → (a && not b) ≡ false → a ≡ true → b ≡ true
conjunct {a = true} {b = true} h t = refl
conjunct {a = true} {b = false} h t = cc
conjunct {a = false} h t = cc

second_off : {a b : Bool} → a ≡ false → (not a && b) ≡ false → b ≡ false
second_off {a = true} t h = cc
second_off {a = false} t h = h

module _ (rt : Runtime) (limits : QueueLimits) where
  exposure-payments : (q : QueueState) → exposure rt q ≡ exposed_in q.payments
  unfolding exposure ordered
  exposure-payments q = exposed_in-sort (comes_first rt) q.payments

  save-exposure :
      (writable : Bool) (p : QueuedPayment) (q : QueueState)
      → has q.payments p.id ≡ false
      → exposure rt (save writable p q).1 ≡ share p +ℤ exposure rt q
  unfolding save
  save-exposure true p q h =
      exposure-payments _
      ∙ set_payment-new p q.payments h
      ∙ ap (λ z. share p +ℤ z) (sym (exposure-payments q))
  save-exposure false p q h =
      exposure-payments _
      ∙ set_payment-new p q.payments h
      ∙ ap (λ z. share p +ℤ z) (sym (exposure-payments q))

  -- What a payment that passed the checks has shown.
  pub record Passed (q : QueueState) (payment : VerifiedPayment) (tier : PaymentTier) (amount : ℤ)
      (precheck : Option NonceVerdict) : Type 0 where
    pub is_new : has q.payments (payment_id rt payment) ≡ false
    pub prechecked : is_t1 tier && is_some payment.input.nonce_ref ≡ true → passes precheck ≡ true
    pub trading : q.consecutive_failed_sends < limits.max_consecutive_failed_sends
    pub receipt : amount ≤ℤ limits.receipt_cap_by_tier tier
    pub fits : is_t0 tier ≡ false → exposure rt q +ℤ amount ≤ℤ limits.queue_exposure_cap

  pub check-Passed :
      (q : QueueState) (payment : VerifiedPayment) (tier : PaymentTier) (amount : ℤ)
      (pre : Option NonceVerdict) {u : Unit {0}}
      → check rt limits q payment tier amount pre ≡ ok u
      → Passed q payment tier amount pre
  unfolding check
  check-Passed q payment tier amount pre h =
      let (a, h1) = passed (has q.payments (payment_id rt payment)) _ _ h in
      let (b, h2) =
        passed (is_t1 tier && is_some payment.input.nonce_ref && not (passes pre)) _ _ h1 in
      let (c, h3) =
        passed (leb limits.max_consecutive_failed_sends q.consecutive_failed_sends) _ _ h2 in
      let (d, h4) = passed (ltb_ℤ (limits.receipt_cap_by_tier tier) amount) _ _ h3 in
      let e =
        throw_if-eq-ok
          (not (is_t0 tier) && ltb_ℤ limits.queue_exposure_cap (exposure rt q +ℤ amount)) _ h4 in
      record {
        is_new = a;
        prechecked = λ t. conjunct b t;
        trading = ground arith;
        receipt = ltb_ℤ-false _ amount d;
        fits =
            λ t. ltb_ℤ-false limits.queue_exposure_cap (exposure rt q +ℤ amount) (second_off t e);
      }

  -- An acceptance: every check passed, and the payment's share is all that the exposure grew by.
  pub record Accepted (q q' : QueueState) (p : QueuedPayment) (payment : VerifiedPayment)
      (tier : PaymentTier) (now : ℕ) (amount : ℤ) (precheck : Option NonceVerdict) : Type 0 where
    pub passed_checks : Passed q payment tier amount precheck
    pub is_queued : p ≡ new_payment (payment_id rt payment) payment tier now amount
    pub new_exposure : exposure rt q' ≡ (if is_t0 tier then pos 0 else amount) +ℤ exposure rt q
    pub within_cap : is_t0 tier ≡ false → exposure rt q' ≤ℤ limits.queue_exposure_cap

  share-of-tier :
      (id : Text) (payment : VerifiedPayment) (tier : PaymentTier) (now : ℕ) (amount : ℤ)
      → share (new_payment id payment tier now amount) ≡ (if is_t0 tier then pos 0 else amount)
  unfolding new_payment is_exposed is_unsettled is_t0
  share-of-tier id payment t0 now amount = refl
  share-of-tier id payment t1 now amount = refl
  share-of-tier id payment t2 now amount = refl

  save-answer :
      (writable : Bool) (p p' : QueuedPayment) (q q' : QueueState)
      → save writable p q ≡ (ok p', q')
      → p' ≡ p
  unfolding save
  save-answer true p p' q q' h = sym (ok-injective (ap (λ r. r.0) h))
  save-answer false p p' q q' h = cc

  accept_checked-Accepted :
      (c : Result (Unit {0})) (writable : Bool) (now : ℕ) (payment : VerifiedPayment)
      (tier : PaymentTier) (amount : ℤ) (pre : Option NonceVerdict) (q q' : QueueState)
      (p : QueuedPayment)
      → check rt limits q payment tier amount pre ≡ c
      → accept_checked rt limits c writable now payment tier amount q ≡ (ok p, q')
      → Accepted q q' p payment tier now amount pre
  unfolding accept_checked
  accept_checked-Accepted (err e) writable now payment tier amount pre q q' p ch h = cc
  accept_checked-Accepted (ok u) writable now payment tier amount pre q q' p ch h =
      let n = new_payment (payment_id rt payment) payment tier now amount in
      let r = check-Passed q payment tier amount pre ch in
      let fresh : has q.payments n.id ≡ false = unfold new_payment in r.is_new in
      let grown : exposure rt q' ≡ (if is_t0 tier then pos 0 else amount) +ℤ exposure rt q =
        ap (λ x. exposure rt x.1) (sym h)
        ∙ save-exposure writable n q fresh
        ∙ ap (λ z. z +ℤ exposure rt q)
            (share-of-tier (payment_id rt payment) payment tier now amount) in
      record {
        passed_checks = r;
        is_queued = save-answer writable n p q q' h;
        new_exposure = grown;
        within_cap = λ t.
            let room = r.fits t in
            let same : exposure rt q' ≡ amount +ℤ exposure rt q =
              grown ∙ ap (λ b. (if b then pos 0 else amount) +ℤ exposure rt q) t in
            omega (int_laws, room, parts_of same);
      }

  -- Where `accept` answers with a payment, its key was new, a pre-check passed if it is a T1
  -- payment on the nonce path, fewer sends than the maximum had failed, the amount is within the
  -- cap of its tier, the answer is the queued payment, and the exposure grew by the amount, to no
  -- more than the exposure cap, unless the tier is T0, which leaves it as it was.
  pub accept-Accepted :
      (writable : Bool) (now : ℕ) (payment : VerifiedPayment) (tier : PaymentTier) (amount : ℤ)
      (precheck : Option NonceVerdict) (q q' : QueueState) (p : QueuedPayment)
      → accept rt limits writable now payment tier amount precheck q ≡ (ok p, q')
      → Accepted q q' p payment tier now amount precheck
  unfolding accept
  accept-Accepted writable now payment tier amount precheck q q' p h =
      accept_checked-Accepted _ writable now payment tier amount precheck q q' p refl h
