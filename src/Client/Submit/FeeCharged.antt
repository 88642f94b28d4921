-- ===== src/Client/Submit/FeeCharged.antt =====
-- When a failed submission says that the fee was charged.
use vadum.Base.{ℕ, ◌≡◌, refl, ap, sym, ◌∙◌, Bool, true, false, Option, List, if◌then◌else◌}
use vadum.Base.Text.{Text}
use vadum.Core.Errors.{
  ErrorCode, Failure, Result, ok, err, >>=-eq-ok, ◌>>=◌, ok-injective, submit_execution_failed,
}
use vadum.Core.Canonical.Wire.{TransactionKit, build_wire_transaction}
use vadum.Core.Kit.{Derivation, Crypto, KeyPair}
use vadum.Core.Types.{VerifiedPayment}
use vadum.Client.NonceCheck.{
  NonceVerdict, as_claimed, stale, no_account, not_initialized, wrong_authority, precheck_nonce,
}
use vadum.Client.Rpc.{Rpc}
use vadum.Client.Submit.{
  SubmitOutcome, did_settle, did_fail, SignatureOutcome, landed_ok, landed_failed, not_seen,
  PaymentLifetime, by_nonce, by_blockhash, Sender, payment_lifetime, outcome_of_verdict,
  free_failure, is_processed, new_value, after_lookup, after_send, send, submit,
}

-- `true` exactly for a failure that charged the fee.
abbrev charged : SubmitOutcome → Bool
charged (did_settle signature value) = false
charged (did_fail code fee) = fee

verdict-free :
    (code : Option ErrorCode) (v : NonceVerdict) → charged (outcome_of_verdict code v) ≡ false
unfolding outcome_of_verdict
verdict-free code (as_claimed value) = refl
verdict-free code (stale value) = refl
verdict-free code no_account = refl
verdict-free code not_initialized = refl
verdict-free code wrong_authority = refl

either_free :
    (b : Bool) (c : ErrorCode) (r : Result SubmitOutcome) (o : SubmitOutcome)
    → ((x : SubmitOutcome) → r ≡ ok x → charged x ≡ false)
    → (if b then ok (did_fail c false) else r) ≡ ok o
    → charged o ≡ false
either_free true c r o f h = ap charged (sym (ok-injective h))
either_free false c r o f h = f o h

module _ (rpc : Rpc) (sender : Sender) (d : Derivation) (payment : VerifiedPayment) where
  free_failure-free :
      (lifetime : PaymentLifetime) (code : Option ErrorCode) (o : SubmitOutcome)
      → free_failure rpc sender d payment lifetime code ≡ ok o
      → charged o ≡ false
  unfolding free_failure
  free_failure-free (by_blockhash blockhash height) code o h =
      either_free (is_processed code) _ _ o (λ x e. ap charged (sym (ok-injective e))) h
  free_failure-free (by_nonce value account authority) code o h =
      either_free (is_processed code) _ _ o
        (λ x e.
          let (v, p, q) = >>=-eq-ok (precheck_nonce rpc d payment) _ e in
          ap charged (sym (ok-injective q)) ∙ verdict-free code v)
        h

  settled_free :
      (signature : Text) (o : SubmitOutcome)
      → new_value rpc sender d payment >>= (λ v. ok (did_settle signature v)) ≡ ok o
      → charged o ≡ false
  settled_free signature o h =
      let (v, p, q) = >>=-eq-ok (new_value rpc sender d payment) _ h in
      ap charged (sym (ok-injective q))

  after_lookup-charged :
      (lifetime : PaymentLifetime) (signature : Text) (e : Failure) (seen : SignatureOutcome)
      (o : SubmitOutcome)
      → after_lookup rpc sender d payment lifetime signature e seen ≡ ok o
      → charged o ≡ true
      → (seen ≡ landed_failed) × (o ≡ did_fail submit_execution_failed true)
  unfolding after_lookup
  after_lookup-charged lifetime signature e landed_ok o h t =
      let free = settled_free signature o h in cc (free, t)
  after_lookup-charged lifetime signature e landed_failed o h t = (refl, cc h)
  after_lookup-charged lifetime signature e not_seen o h t =
      let free = free_failure-free lifetime _ o h in cc (free, t)

  after_send-charged :
      (lifetime : PaymentLifetime) (signature : Text) (r : Result SubmitOutcome) (o : SubmitOutcome)
      → ((x : SubmitOutcome) → r ≡ ok x → charged x ≡ false)
      → after_send rpc sender d payment lifetime signature r ≡ ok o
      → charged o ≡ true
      → (sender.signature_outcome signature ≡ ok landed_failed)
        × (o ≡ did_fail submit_execution_failed true)
  unfolding after_send
  after_send-charged lifetime signature (ok x) o f h t = let free = f o h in cc (free, t)
  after_send-charged lifetime signature (err e) o f h t =
      let (seen, p, q) = >>=-eq-ok (sender.signature_outcome signature) _ h in
      let (landed, answer) = after_lookup-charged lifetime signature e seen o q t in
      (p ∙ ap ok landed, answer)

  send-free :
      (wire : List ℕ) (lifetime : PaymentLifetime) (x : SubmitOutcome)
      → send rpc sender d payment wire lifetime ≡ ok x
      → charged x ≡ false
  unfolding send
  send-free wire lifetime x h =
      let (signature, p, q) = >>=-eq-ok (sender.send_payment wire lifetime) _ h in
      settled_free signature x q

  -- Where `submit` answers with a failure that charged the fee, the wire transaction was built,
  -- the network had processed its signature and failed it, and the code of the failure is
  -- SUBMIT_EXECUTION_FAILED.
  pub submit-charged :
      (c : Crypto) (t : TransactionKit) (key : KeyPair) (code : ErrorCode)
      → submit rpc sender d payment c t key ≡ ok (did_fail code true)
      → (wire : List ℕ) × (signature : Text) × (build_wire_transaction c t payment key ≡ ok wire)
        × (sender.signature_of wire ≡ ok signature)
        × (sender.signature_outcome signature ≡ ok landed_failed)
        × (did_fail code true ≡ did_fail submit_execution_failed true)
  unfolding submit
  submit-charged c t key code h =
      let (lifetime, p, h1) =
        >>=-eq-ok
          (payment_lifetime d payment.input.intent.lifetime payment.input.payer
            payment.input.nonce_ref)
          _ h in
      let (wire, built, h2) = >>=-eq-ok (build_wire_transaction c t payment key) _ h1 in
      let (signature, q, h3) = >>=-eq-ok (sender.signature_of wire) _ h2 in
      let (seen, answer) =
        after_send-charged lifetime signature _ _ (send-free wire lifetime) h3 refl in
      (wire, signature, built, q, seen, answer)
