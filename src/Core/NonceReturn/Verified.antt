-- ===== src/Core/NonceReturn/Verified.antt =====
-- What a verified nonce return shows, and what its signature covers.
use vadum.Base.{
  ℕ, ◌≡◌, ◌≢◌, refl, ap, sym, ◌∙◌, true, false, not, Option, none, some, List, [], ◌∷◌, ◌++◌, arith,
  ◌==◌, length,
}
use vadum.Base.Number.{Number, from_nat, is_u8, to_uint8, is_u8→nat, to_uint8-from_nat}
use vadum.Base.Text.{Text, text_eq, text_eq_refl}
use vadum.Core.Errors.{
  Result, ok, err, vadum_error, nonce_return_untrusted, Failure, >>=-eq-ok, passed, found,
  or_throw-eq-ok, ok-injective,
}
use vadum.Core.Kit.{Kit, KitLaws, Crypto}
use vadum.Core.Derive.{nonce_seed}
use vadum.Core.NonceReturn.{
  nonce_return_domain, only_32, NonceReturnStatement, ReceivedReturn, ReturnLedger, base58_bytes32,
  nonce_return_signing_bytes, or_untrusted, statement_of, check_return_signature,
  verify_nonce_return,
}

-- The signature of the return covers the statement, under the key of the merchant of the ledger.
pub record Signed (k : Kit) (c : Crypto) (received : ReceivedReturn) (ledger : ReturnLedger)
    : Type 0 where
  pub advanced : received.new_nonce_value ≢ ledger.spent_against_value
  pub whole : length received.signature ≡ 64
  pub bytes : List ℕ
  pub covered : nonce_return_signing_bytes k (statement_of received ledger) ≡ ok bytes
  pub verified : c.verify ledger.merchant received.signature bytes ≡ some true

or_untrusted-eq-ok {ℓ} : {A : Type ℓ} (r : Result A) {a : A} → or_untrusted r ≡ ok a → r ≡ ok a
unfolding or_untrusted
or_untrusted-eq-ok (ok a) h = h
or_untrusted-eq-ok (err e) h = cc

differ : {s t : Text} → s ≡ t → text_eq s t ≢ false
differ {s = s} e h = let same = sym (ap (text_eq s) e) ∙ text_eq_refl s in ground arith

-- A return that `verifyNonceReturn` accepts has a new value other than the spent one and a
-- signature of 64 bytes that covers the statement under the key of the merchant of the ledger, and
-- the answered statement is made of the index and the new value of the return and the payer and
-- the spent value of the ledger.
pub verify_nonce_return-Signed :
    (k : Kit) (c : Crypto) (received : ReceivedReturn) (ledger : ReturnLedger)
    (s : NonceReturnStatement)
    → verify_nonce_return k c received ledger ≡ ok s
    → Signed k c received ledger × (s ≡ statement_of received ledger)
unfolding verify_nonce_return check_return_signature
verify_nonce_return-Signed k c received ledger s h =
    let (p, h1) = passed _ _ _ h in
    let (q, h2) = passed (not (length received.signature == 64)) _ _ h1 in
    let (valid, v, h3) =
      >>=-eq-ok (or_untrusted (check_return_signature k c received ledger)) _ h2 in
    let (holds, h4) = passed (not valid) _ _ h3 in
    let (bytes, b, w) =
      >>=-eq-ok (nonce_return_signing_bytes k (statement_of received ledger)) _
        (or_untrusted-eq-ok _ v) in
    let on : valid ≡ true = ground arith in
    let checked : c.verify ledger.merchant received.signature bytes ≡ some true =
      or_throw-eq-ok _ _ w ∙ ap some on in
    let whole : length received.signature ≡ 64 = ground arith in
    (
      record {
        advanced = λ same. absurd (differ same p);
        whole = whole;
        bytes = bytes;
        covered = b;
        verified = checked;
      },
      sym (ok-injective h4),
    )

-- Every failure of `verifyNonceReturn` is NONCE_RETURN_UNTRUSTED.
pub verify_nonce_return-eq-err :
    (k : Kit) (c : Crypto) (received : ReceivedReturn) (ledger : ReturnLedger) (e : Failure)
    → verify_nonce_return k c received ledger ≡ err e
    → e ≡ vadum_error nonce_return_untrusted
unfolding verify_nonce_return or_untrusted
verify_nonce_return-eq-err k c received ledger e h = ground arith

-- One statement's bytes, cut where its fields are.
record Layout (k : Kit) (s : NonceReturnStatement) (bytes : List ℕ) : Type 0 where
  index : ℕ
  index_of : s.nonce_index ≡ from_nat index
  payer : List ℕ
  payer_encoded : k.address_encode s.payer ≡ some payer
  spent : List ℕ
  spent_encoded : base58_bytes32 k s.spent_against_value ≡ some spent
  next : List ℕ
  next_encoded : base58_bytes32 k s.new_nonce_value ≡ some next
  shape : bytes ≡ nonce_return_domain ++ (payer ++ (index ∷ (spent ++ next)))

byte_of :
    (index : Number) (t : Text)
    → nonce_seed index ≡ ok t
    → (n : ℕ) × (index ≡ from_nat n) × (to_uint8 index ≡ n)
unfolding nonce_seed
byte_of index t h =
    let (p, q) = passed (not (is_u8 index)) _ _ h in
    let (n, e, le) = is_u8→nat index (ground arith) in
    (n, e, ap to_uint8 e ∙ to_uint8-from_nat n le)

signing_bytes-Layout :
    (k : Kit) (s : NonceReturnStatement) (bytes : List ℕ)
    → nonce_return_signing_bytes k s ≡ ok bytes
    → Layout k s bytes
unfolding nonce_return_signing_bytes
signing_bytes-Layout k s bytes h =
    let (seed, h0, h1) = >>=-eq-ok (nonce_seed s.nonce_index) _ h in
    let (n, index_of, byte) = byte_of s.nonce_index seed h0 in
    let (spent, e1, h2) = found (base58_bytes32 k s.spent_against_value) _ _ h1 in
    let (next, e2, h3) = found (base58_bytes32 k s.new_nonce_value) _ _ h2 in
    let (payer, e3, h4) = found (k.address_encode s.payer) _ _ h3 in
    record {
      index = n;
      index_of = index_of;
      payer = payer;
      payer_encoded = e3;
      spent = spent;
      spent_encoded = e1;
      next = next;
      next_encoded = e2;
      shape =
          sym (ok-injective h4)
          ∙ ap (λ b. nonce_return_domain ++ (payer ++ (b ∷ (spent ++ next)))) byte;
    }

only_32-eq-some : (xs bs : List ℕ) → only_32 xs ≡ some bs → (xs ≡ bs) × (length bs ≡ 32)
unfolding only_32
only_32-eq-some xs bs h =
    let same : xs ≡ bs = ground arith in
    let whole : length xs ≡ 32 = ground arith in (same, rw (sym same) whole)

key_from :
    (o : Option (List ℕ)) (bs : List ℕ)
    → (elim o as (λ x. Option (List ℕ)) [ none ↦ none | some xs ↦ only_32 xs ]) ≡ some bs
    → (o ≡ some bs) × (length bs ≡ 32)
key_from none bs h = cc
key_from (some xs) bs h = let (same, whole) = only_32-eq-some xs bs h in (ap some same, whole)

key_of :
    (k : Kit) (laws : KitLaws k) (t : Text) (bs : List ℕ)
    → base58_bytes32 k t ≡ some bs
    → (length bs ≡ 32) × (k.base58_decode bs ≡ t)
unfolding base58_bytes32
key_of k laws t bs h =
    let (e, whole) = key_from (k.base58_encode t) bs h in (whole, laws.base58_decode-encode t bs e)

split :
    (xs xs' ys ys' : List ℕ)
    → length xs ≡ length xs'
    → xs ++ ys ≡ xs' ++ ys'
    → (xs ≡ xs') × (ys ≡ ys')
split [] [] ys ys' h e = (refl, e)
split [] (x ∷ xs') ys ys' h e = absurd (omega (arith, h))
split (x ∷ xs) [] ys ys' h e = absurd (omega (arith, h))
split (x ∷ xs) (x' ∷ xs') ys ys' h e =
    let (p, q) = split xs xs' ys ys' (omega (arith, h)) (cc e) in (cc (e, p), q)

module _ (k : Kit) (laws : KitLaws k) where
  -- With lawful codecs, two statements of a nonce return that have the same signed bytes are the
  -- same statement.
  pub nonce_return_signing_bytes-injective :
      (s s' : NonceReturnStatement) (bytes : List ℕ)
      → nonce_return_signing_bytes k s ≡ ok bytes
      → nonce_return_signing_bytes k s' ≡ ok bytes
      → s ≡ s'
  nonce_return_signing_bytes-injective s s' bytes h h' =
      let l = signing_bytes-Layout k s bytes h in
      let l' = signing_bytes-Layout k s' bytes h' in
      let a = laws.address_encode-IsKey _ _ l.payer_encoded in
      let a' = laws.address_encode-IsKey _ _ l'.payer_encoded in
      let (spent_long, spent_back) = key_of k laws _ _ l.spent_encoded in
      let (spent_long', spent_back') = key_of k laws _ _ l'.spent_encoded in
      let (next_long, next_back) = key_of k laws _ _ l.next_encoded in
      let (next_long', next_back') = key_of k laws _ _ l'.next_encoded in
      let (p0, q0) =
        split nonce_return_domain nonce_return_domain _ _ refl (sym l.shape ∙ l'.shape) in
      let (p1, q1) = split l.payer l'.payer _ _ (a.0 ∙ sym a'.0) q0 in
      let (p2, q2) = split (l.index ∷ []) (l'.index ∷ []) _ _ refl q1 in
      let (p3, q3) = split l.spent l'.spent _ _ (spent_long ∙ sym spent_long') q2 in
      let same_index : l.index ≡ l'.index = cc p2 in
      let payer : s.payer ≡ s'.payer =
        sym (laws.address_decode-encode _ _ l.payer_encoded)
        ∙ ap k.address_decode p1
        ∙ laws.address_decode-encode _ _ l'.payer_encoded in
      let index : s.nonce_index ≡ s'.nonce_index =
        l.index_of ∙ ap from_nat same_index ∙ sym l'.index_of in
      let spent : s.spent_against_value ≡ s'.spent_against_value =
        sym spent_back ∙ ap k.base58_decode p3 ∙ spent_back' in
      let next : s.new_nonce_value ≡ s'.new_nonce_value =
        sym next_back ∙ ap k.base58_decode q3 ∙ next_back' in
      λ i. record {
        payer = payer i;
        nonce_index = index i;
        spent_against_value = spent i;
        new_nonce_value = next i;
      }
