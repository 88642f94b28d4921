-- ===== src/Reference/StatementsAlike.antt =====
-- packages/core/src/nonce-return.ts and packages/fixtures/src/nonce-return.ts: the same returns are
-- accepted. packages/wire/src/base45.ts and packages/fixtures/src/base45.ts: the same text.
use vadum.Base.{
  ℕ, ◌+◌, ◌-◌, ◌*◌, ◌/◌, ◌%◌, ◌≡◌, refl, ap, Bool, true, false, not, Option, none, some, List, [],
  ◌∷◌, ◌++◌, ◌==◌, if◌then◌else◌, length, Bool-cases, inl, inr, some-injective, arith,
}
use vadum.Base.Number.{Number, is_u8, to_uint8}
use vadum.Base.Text.{Text, text_eq}
use vadum.Core.Derive.{nonce_seed}
use vadum.Core.Errors.{
  Failure, Result, ok, err, vadum_error, foreign, ◌>>=◌, ◌>>◌, throw_if, or_throw,
  canon_account_mismatch, nonce_return_untrusted,
}
use vadum.Core.Kit.{Kit, Crypto}
use vadum.Core.NonceReturn
use vadum.Core.NonceReturn.{
  NonceReturnStatement, ReceivedReturn, ReturnLedger, only_32, nonce_return_signing_bytes,
  or_untrusted, statement_of, check_return_signature, verify_nonce_return,
}
use vadum.Reference.Bytes.{address_bytes, base58_bytes32}
use vadum.Reference.Statement.{Rejection, bad_signature, unchanged_value, signing_bytes, rejection}
use vadum.Reference.Base45.{letter, to_text}
use vadum.Wire.Base45.{char_of, to_base45}

-- The answer of a call, where it answers.
abbrev pub answer_of : {A : Type 0} → Result A → Option A
answer_of (ok a) = some a
answer_of (err e) = none

base58_by :
    (o : Option (List ℕ)) (e : Failure)
    → answer_of (or_throw (elim o [ none ↦ none | some bytes ↦ only_32 bytes ]) e)
      ≡ answer_of
          (or_throw o foreign >>= (λ bytes. if length bytes == 32 then ok bytes else err foreign))
unfolding only_32
base58_by none e = refl
base58_by (some bytes) e = elim (Bool-cases (length bytes == 32)) [ inl l ↦ rw l | inr l ↦ rw l ]

base58-alike :
    (k : Kit) (t : Text) (e : Failure)
    → answer_of (or_throw (NonceReturn.base58_bytes32 k t) e) ≡ answer_of (base58_bytes32 k t)
unfolding NonceReturn.base58_bytes32 base58_bytes32
base58-alike k t e = base58_by (k.base58_encode t) e

-- `toBase45` of any numbers is the text that the reference base45 encoder gives, which takes the
-- digits of each pair by remainders.
pub to_base45-letters : (bytes : List ℕ) → to_base45 bytes ≡ to_text bytes
unfolding to_base45 to_text letter char_of
to_base45-letters [] = refl
to_base45-letters (b ∷ []) = let low : b - b / 45 * 45 ≡ b % 45 = omega arith in rw low
to_base45-letters (a ∷ b ∷ rest) =
    let n = a * 256 + b in
    let c = n / 2025 in
    let mid : (n - c * 2025) / 45 ≡ n / 45 % 45 = omega arith in
    let low : n - c * 2025 - n / 45 % 45 * 45 ≡ n % 45 = omega arith in
    rw (mid, low)
      (ap (λ t. letter (n % 45) ∷ letter (n / 45 % 45) ∷ letter (n / 2025) ∷ t)
        (to_base45-letters rest))

seed_passes : (x : Number) → is_u8 x ≡ true → answer_of (nonce_seed x >>= (λ s. ok tt)) ≡ some tt
unfolding nonce_seed
seed_passes x h = rw h

-- The statement is signed as the same bytes, and where one of its fields does not encode, neither
-- side gives any.
three_by :
    {A : Type 0} (seed : Result Text) (spent next payer : Result (List ℕ))
    (spent' next' : Result (List ℕ)) (f : List ℕ → List ℕ → List ℕ → A)
    → answer_of (seed >>= (λ s. ok tt)) ≡ some tt
    → answer_of spent ≡ answer_of spent'
    → answer_of next ≡ answer_of next'
    → answer_of (seed >>= (λ s. spent >>= (λ a. next >>= (λ b. payer >>= (λ p. ok (f p a b))))))
      ≡ answer_of (payer >>= (λ p. spent' >>= (λ a. next' >>= (λ b. ok (f p a b)))))
three_by (err x) spent next payer spent' next' f h e1 e2 = absurd (cc h)
three_by (ok s) (err x) next (ok p) (err y) next' f h e1 e2 = refl
three_by (ok s) (err x) next (err p) (err y) next' f h e1 e2 = refl
three_by (ok s) (err x) next payer (ok a') next' f h e1 e2 = absurd (cc e1)
three_by (ok s) (ok a) next payer (err y) next' f h e1 e2 = absurd (cc e1)
three_by (ok s) (ok a) (err x) (ok p) (ok a') (err y) f h e1 e2 = refl
three_by (ok s) (ok a) (err x) (err p) (ok a') (err y) f h e1 e2 = refl
three_by (ok s) (ok a) (err x) payer (ok a') (ok b') f h e1 e2 = absurd (cc e2)
three_by (ok s) (ok a) (ok b) payer (ok a') (err y) f h e1 e2 = absurd (cc e2)
three_by (ok s) (ok a) (ok b) (err p) (ok a') (ok b') f h e1 e2 = refl
three_by (ok s) (ok a) (ok b) (ok p) (ok a') (ok b') f h e1 e2 =
    rw (some-injective e1, some-injective e2)

signing_bytes-alike :
    (k : Kit) (s : NonceReturnStatement)
    → is_u8 s.nonce_index ≡ true
    → answer_of (nonce_return_signing_bytes k s) ≡ answer_of (signing_bytes k s)
unfolding nonce_return_signing_bytes signing_bytes address_bytes
signing_bytes-alike k s h =
    three_by (nonce_seed s.nonce_index) _ _ _ _ _
      (λ p a b. NonceReturn.nonce_return_domain ++ (p ++ (to_uint8 s.nonce_index ∷ (a ++ b))))
      (seed_passes s.nonce_index h)
      (base58-alike k s.spent_against_value (vadum_error canon_account_mismatch))
      (base58-alike k s.new_nonce_value (vadum_error canon_account_mismatch))

-- Whether the return is accepted.
abbrev pub is_accepted : Result (Option Rejection) → Bool
is_accepted (ok none) = true
is_accepted (ok (some r)) = false
is_accepted (err e) = false

abbrev pub answers : {A : Type 0} → Result A → Bool
answers (ok a) = true
answers (err e) = false

accepts_by :
    {A : Type 0} (changed : Bool) (bytes bytes' : Result (List ℕ)) (verify : List ℕ → Option Bool)
    (st : A)
    → answer_of bytes ≡ answer_of bytes'
    → answers (
        throw_if changed nonce_return_untrusted
        >> (or_untrusted (bytes >>= (λ b. or_throw (verify b) foreign))
            >>= (λ valid. throw_if (not valid) nonce_return_untrusted >> ok st)))
      ≡ is_accepted (
          bytes' >>= (λ b. or_throw (verify b) foreign >>= (λ valid. ok (
            if not valid
            then some bad_signature
            else if changed
            then some unchanged_value
            else none))))
unfolding or_untrusted
accepts_by changed (err e) (ok b) verify st h = absurd (cc h)
accepts_by changed (ok b) (err e) verify st h = absurd (cc h)
accepts_by true (err e) (err e') verify st h = refl
accepts_by false (err e) (err e') verify st h = refl
accepts_by changed (ok b) (ok b') verify st h =
    rw (some-injective h) (by_verdict changed (verify b'))
  where
    by_verdict :
        (changed : Bool) (o : Option Bool)
        → answers (
            throw_if changed nonce_return_untrusted
            >> (or_untrusted (or_throw o foreign)
                >>= (λ valid. throw_if (not valid) nonce_return_untrusted >> ok st)))
          ≡ is_accepted (
              or_throw o foreign >>= (λ valid. ok (
                if not valid
                then some bad_signature
                else if changed
                then some unchanged_value
                else none)))
    by_verdict true none = refl
    by_verdict false none = refl
    by_verdict true (some true) = refl
    by_verdict true (some false) = refl
    by_verdict false (some true) = refl
    by_verdict false (some false) = refl

-- For a received return whose index is an integer from 0 to 255 and whose signature has 64 bytes,
-- `verifyNonceReturn` answers if and only if the reference finds no reason to reject the return.
pub verify_nonce_return-rejection :
    (k : Kit) (c : Crypto) (received : ReceivedReturn) (ledger : ReturnLedger)
    → is_u8 received.nonce_index ≡ true
    → length received.signature ≡ 64
    → answers (verify_nonce_return k c received ledger)
      ≡ is_accepted (rejection k c received ledger)
unfolding verify_nonce_return rejection check_return_signature statement_of
verify_nonce_return-rejection k c received ledger small long =
    let fits : (length received.signature == 64) ≡ true = ground arith in
    rw fits (
      accepts_by (text_eq received.new_nonce_value ledger.spent_against_value) _ _ _ _
        (signing_bytes-alike k _ small))
