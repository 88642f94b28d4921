-- ===== src/Core/Canonical/RoundTrip.antt =====
-- What a payer signs, the merchant verifies.
use vadum.Base.{
  ℕ, ◌≡◌, refl, ap, subst, ◌∙◌, Bool, true, false, not, ◌||◌, Option, none, some, List, arith, ◌==◌,
  ==_iff, length, if◌then◌else◌, is_some, bool_eq, Bool-cases, inl, inr,
}
use vadum.Base.Int.{ℤ, pos, eq_ℤ, eq_ℤ_iff, ltb_ℤ}
use vadum.Base.Text.{text_eq, text_eq→eq}
use vadum.Core.Errors.{ok, passed, >>=-eq-ok, ok-injective}
use vadum.Core.Kit.{Derivation, Crypto, KeyPair}
use vadum.Core.Types.{Intent, Auth, CanonicalInput}
use vadum.Core.Canonical.Message.{Compiler, differs, u64_limit, build_message}
use vadum.Core.Canonical.Difference.{Decoder, assert_canonical}
use vadum.Core.Canonical.Sign.{resolve_amount, is_valid, sign_as_payer, verify_auth}

-- Ed25519 signatures are 64 bytes and verify under the key that made them.
pub record SignatureLaws (c : Crypto) : Type 0 where
  pub whole : (key : KeyPair) (message : List ℕ) → length (c.sign key message) ≡ 64
  pub verifies :
      (key : KeyPair) (message : List ℕ)
      → c.verify (c.address_of key) (c.sign key message) message ≡ some true

-- The amount that the merchant expects: the printed intents carry none of their own.
abbrev pub expected_of : CanonicalInput → Option ℤ
expected_of input = if input.intent.is_static then some input.amount else none

same_amount :
    (intended : Option ℤ) (amount : ℤ)
    → differs intended amount ≡ false
    → is_some intended ≡ true
    → intended ≡ some amount
unfolding differs
same_amount none amount d s = cc
same_amount (some a) amount d s = ap some ((eq_ℤ_iff a amount).0 (ground arith))

resolved_amount :
    (i : Intent) (a : Auth) (amount : ℤ)
    → a.amount ≡ (if i.is_static then some amount else none)
    → bool_eq i.is_static (not (is_some i.amount)) ≡ true
    → differs i.amount amount ≡ false
    → resolve_amount i a (if i.is_static then some amount else none) ≡ ok amount
unfolding resolve_amount
resolved_amount i a amount e b d = elim (Bool-cases i.is_static) [
  | inl s ↦
      let given : a.amount ≡ some amount = e ∙ ap (λ x. if x then some amount else none) s in
      let itself : eq_ℤ amount amount ≡ true = (eq_ℤ_iff amount amount).1 refl in
      rw (s, given, itself)
  | inr s ↦
      let absent : a.amount ≡ none = e ∙ ap (λ x. if x then some amount else none) s in
      let present : bool_eq false (not (is_some i.amount)) ≡ true =
        subst (λ x. bool_eq x (not (is_some i.amount)) ≡ true) s b in
      let intended : i.amount ≡ some amount = same_amount i.amount amount d (ground arith) in
      rw (s, absent, intended)
]

true_of_not : {b : Bool} → not b ≡ false → b ≡ true
true_of_not {b = true} h = refl
true_of_not {b = false} h = cc

module _ (d : Derivation) (compile : Compiler) (c : Crypto) (laws : SignatureLaws c) where
  built_differs :
      (input : CanonicalInput) (m : List ℕ)
      → build_message d compile input ≡ ok m
      → differs input.intent.amount input.amount ≡ false
  unfolding build_message
  built_differs input m h =
      let (a, h1) = passed (ltb_ℤ input.amount (pos 0) || ltb_ℤ u64_limit input.amount) _ _ h in
      let (b, h2) = passed (differs input.intent.amount input.amount) _ _ h1 in b

  signed : CanonicalInput → KeyPair → List ℕ → Auth
  signed input key m = record {
    payer = input.payer;
    nonce_ref = input.nonce_ref;
    amount = if input.intent.is_static then some input.amount else none;
    signature = c.sign key m;
  }

  verified :
      (input : CanonicalInput) (key : KeyPair) (m : List ℕ)
      → text_eq input.intent.fee_payer input.payer ≡ false
      → bool_eq input.intent.is_static (not (is_some input.intent.amount)) ≡ true
      → c.address_of key ≡ input.payer
      → build_message d compile input ≡ ok m
      → verify_auth d compile c input.intent (signed input key m) (expected_of input)
        ≡ ok (record { input = input; message_bytes = m; auth = signed input key m })
  unfolding verify_auth signed
  verified input key m f b k h =
      let long : (length (c.sign key m) == 64) ≡ true = (==_iff _ _).1 (laws.whole key m) in
      let resolved =
        resolved_amount input.intent (signed input key m) input.amount refl b
          (built_differs input m h) in
      let good : c.verify input.payer (c.sign key m) m ≡ some true =
        subst (λ p. c.verify p (c.sign key m) m ≡ some true) k (laws.verifies key m) in
      let valid : is_valid (c.verify input.payer (c.sign key m) m) ≡ true =
        ap is_valid good ∙ (unfold is_valid in refl) in
      rw (long, f, resolved, h, valid)

  -- With signatures of 64 bytes that verify under the key that made them, where `signAsPayer`
  -- answers with an AUTH, the message of the input builds, and `verifyAuth` of the intent and the
  -- AUTH, expecting the amount where the intent is static and nothing otherwise, answers with that
  -- input, those message bytes and that AUTH.
  pub verify_auth-sign_as_payer :
      (decode : Decoder) (input : CanonicalInput) (key : KeyPair) (a : Auth)
      → sign_as_payer d compile c decode input key ≡ ok a
      → (m : List ℕ) × (build_message d compile input ≡ ok m)
        × (verify_auth d compile c input.intent a (expected_of input)
            ≡ ok (record { input = input; message_bytes = m; auth = a }))
  unfolding sign_as_payer
  verify_auth-sign_as_payer decode input key a h =
      let (f, h1) = passed (text_eq input.intent.fee_payer input.payer) _ _ h in
      let (b, h2) =
        passed (not (bool_eq input.intent.is_static (not (is_some input.intent.amount)))) _ _ h1 in
      let (k, h3) = passed (not (text_eq (c.address_of key) input.payer)) _ _ h2 in
      let (m, built, h4) = >>=-eq-ok (build_message d compile input) _ h3 in
      let (u, checked, h5) = >>=-eq-ok (assert_canonical d compile decode m input) _ h4 in
      let same : signed input key m ≡ a = unfold signed in ok-injective h5 in
      let owner : c.address_of key ≡ input.payer = text_eq→eq _ _ (true_of_not k) in
      (
        m,
        built,
        subst
            (λ x.
              verify_auth d compile c input.intent x (expected_of input)
              ≡ ok (record { input = input; message_bytes = m; auth = x }))
            same (verified input key m f (true_of_not b) owner built),
      )
