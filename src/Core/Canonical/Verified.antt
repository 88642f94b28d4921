-- ===== src/Core/Canonical/Verified.antt =====
-- What `verifyAuth` shows of a payment that it returns.
use vadum.Base.{
  ℕ, ◌≡◌, ◌≢◌, refl, ap, sym, subst, ◌∙◌, Bool, true, false, not, Option, none, some, List, arith,
  ◌==◌, length,
}
use vadum.Base.Int.{ℤ}
use vadum.Base.Text.{Text, text_eq, text_eq_refl}
use vadum.Core.Errors.{ok, passed, >>=-eq-ok, ok-injective}
use vadum.Core.Kit.{Derivation, Crypto}
use vadum.Core.Types.{Intent, Auth, VerifiedPayment}
use vadum.Core.Canonical.Message.{Compiler, build_message}
use vadum.Core.Canonical.Sign.{resolve_amount, is_valid, verify_auth}

-- A payment whose AUTH signs the canonical message of the intent, for the resolved amount.
pub record Payment (d : Derivation) (compile : Compiler) (c : Crypto) (i : Intent) (a : Auth)
    (expected : Option ℤ) (p : VerifiedPayment) : Type 0 where
  pub whole : length a.signature ≡ 64
  pub other_payer : i.fee_payer ≢ a.payer
  pub amount_resolved : resolve_amount i a expected ≡ ok p.input.amount
  pub of_intent : p.input.intent ≡ i
  pub of_payer : p.input.payer ≡ a.payer
  pub of_nonce : p.input.nonce_ref ≡ a.nonce_ref
  pub rebuilt : build_message d compile p.input ≡ ok p.message_bytes
  pub verified : c.verify a.payer a.signature p.message_bytes ≡ some true

holds : (o : Option Bool) → not (is_valid o) ≡ false → o ≡ some true
unfolding is_valid
holds none h = cc
holds (some true) h = refl
holds (some false) h = cc

is_other : (s t : Text) → text_eq s t ≡ false → s ≢ t
is_other s t h e = let same = sym (ap (text_eq s) e) ∙ text_eq_refl s in ground arith

module _ (d : Derivation) (compile : Compiler) (c : Crypto) (i : Intent) (a : Auth)
    (expected : Option ℤ) where
  payment_of : ℤ → List ℕ → VerifiedPayment
  payment_of amount m = record {
    input = record { intent = i; payer = a.payer; nonce_ref = a.nonce_ref; amount = amount };
    message_bytes = m;
    auth = a;
  }

  payment_of-Payment :
      (amount : ℤ) (m : List ℕ)
      → length a.signature ≡ 64
      → text_eq i.fee_payer a.payer ≡ false
      → resolve_amount i a expected ≡ ok amount
      → build_message d compile
          (record { intent = i; payer = a.payer; nonce_ref = a.nonce_ref; amount = amount })
        ≡ ok m
      → not (is_valid (c.verify a.payer a.signature m)) ≡ false
      → Payment d compile c i a expected (payment_of amount m)
  unfolding payment_of
  payment_of-Payment amount m len other resolved built valid = record {
    whole = len;
    other_payer = is_other _ _ other;
    amount_resolved = resolved;
    of_intent = refl;
    of_payer = refl;
    of_nonce = refl;
    rebuilt = built;
    verified = holds _ valid;
  }

  -- A payment that `verifyAuth` answers with has the intent, the payer and the nonce reference of
  -- its arguments and the resolved amount; its bytes are the canonical message of that input; and
  -- the signature of the AUTH is 64 bytes and verifies for those bytes under the payer, who is not
  -- the fee payer.
  pub verify_auth-Payment :
      (p : VerifiedPayment)
      → verify_auth d compile c i a expected ≡ ok p
      → Payment d compile c i a expected p
  unfolding verify_auth
  verify_auth-Payment p h =
      let (l, h1) = passed (not (length a.signature == 64)) _ _ h in
      let (f, h2) = passed (text_eq i.fee_payer a.payer) _ _ h1 in
      let (amount, resolved, h3) = >>=-eq-ok (resolve_amount i a expected) _ h2 in
      let (m, built, h4) =
        >>=-eq-ok
          (build_message d compile
            (record { intent = i; payer = a.payer; nonce_ref = a.nonce_ref; amount = amount }))
          _ h3 in
      let (v, h5) = passed (not (is_valid (c.verify a.payer a.signature m))) _ _ h4 in
      let len : length a.signature ≡ 64 = ground arith in
      let same : payment_of amount m ≡ p = unfold payment_of in ok-injective h5 in
      subst (Payment d compile c i a expected) same
        (payment_of-Payment amount m len f resolved built v)
