-- ===== src/Client/Queue/Idle.antt =====
-- packages/client/src/queue.ts: which payments a drain would send, over the writes of the queue.
use vadum.Base.{
  ℕ, ◌≡◌, refl, ap, ◌∙◌, Bool, true, false, ◌&&◌, ◌||◌, Option, List, [], ◌∷◌, All, any, filter,
  map, arith, Bool-cases, inl, inr,
}
use vadum.Base.Int.{ℤ}
use vadum.Base.Sort.{insert, sort}
use vadum.Base.Text.{Text, text_eq, text_eq→eq}
use vadum.Core.Errors.{Result, ok, err}
use vadum.Core.Types.{PaymentTier, VerifiedPayment}
use vadum.Client.NonceCheck.{NonceVerdict}
use vadum.Client.Queue.Accept.{save, new_payment, check, accept_checked, accept, expire}
use vadum.Client.Queue.Drain.{is_eligible, marked, recorded, save_meta, snapshot}
use vadum.Client.Queue.Duplicates.{save-Known, save_meta-Known, expire-Known}
use vadum.Client.Queue.Exposure.{check-Passed}
use vadum.Client.Queue.Loaded.{Known}
use vadum.Client.Queue.Preserved.{BothFit}
use vadum.Client.Queue.State.{
  PaymentState, queued, submitting, settled, failed, voided, QueuedPayment, QueueLimits, Runtime,
  QueueState, payment_id, has_id, has, ordered, comes_first, set_payment, set_all, void_payment,
}
use vadum.Client.Submit.{SubmitOutcome, did_settle, did_fail}

-- A payment that is to be sent: it is queued, or sending it has failed.
abbrev pub is_waiting : PaymentState → Bool
is_waiting queued = true
is_waiting failed = true
is_waiting submitting = false
is_waiting settled = false
is_waiting voided = false

eligible_waits : (p : QueuedPayment) → is_eligible p ≡ true → is_waiting p.state ≡ true
unfolding is_eligible
eligible_waits p h = by_state p.state h
  where
    by_state :
        (s : PaymentState)
        → (elim s [ queued ↦ true | failed ↦ true | _ ↦ false ]) ≡ true
        → is_waiting s ≡ true
    by_state queued k = refl
    by_state failed k = refl
    by_state submitting k = k
    by_state settled k = k
    by_state voided k = k

-- Whether one of these payments has this key and is waiting.
abbrev pub sends : Text → List QueuedPayment → Bool
sends id ps = any (λ x. has_id id x && is_waiting x.state) ps

pub sends-set_payment :
    (id : Text) (p : QueuedPayment) (ps : List QueuedPayment)
    → (has_id id p && is_waiting p.state) ≡ false
    → sends id ps ≡ false
    → sends id (set_payment p ps) ≡ false
unfolding set_payment
sends-set_payment id p [] h k = ground arith
sends-set_payment id p (x ∷ xs) h k =
    let rest = sends-set_payment id p xs h (ground arith) in
    elim (Bool-cases (has_id p.id x)) [ inl e ↦ rw e (ground arith) | inr e ↦ rw e (ground arith) ]

sends-set_all :
    (id : Text) (vs ps : List QueuedPayment)
    → sends id ps ≡ false
    → sends id (set_all (map void_payment vs) ps) ≡ false
unfolding set_all void_payment
sends-set_all id [] ps k = k
sends-set_all id (v ∷ vs) ps k =
    sends-set_all id vs _ (sends-set_payment id (void_payment v) ps (ground arith) k)

module _ (le : QueuedPayment → QueuedPayment → Bool) (test : QueuedPayment → Bool) where
  any-insert :
      (x : QueuedPayment) (xs : List QueuedPayment)
      → any test (insert le x xs) ≡ (test x || any test xs)
  unfolding insert
  any-insert x [] = refl
  any-insert x (y ∷ ys) =
      let rest = any-insert x ys in
      elim (Bool-cases (le x y)) [ inl e ↦ rw e | inr e ↦ rw e (ground arith) ]

  any-sort : (xs : List QueuedPayment) → any test (sort le xs) ≡ any test xs
  unfolding sort
  any-sort [] = refl
  any-sort (x ∷ xs) = any-insert x (sort le xs) ∙ ap (λ b. test x || b) (any-sort xs)

-- The payments that are eligible have other keys.
others_fit :
    (id : Text) (ps : List QueuedPayment)
    → sends id ps ≡ false
    → All (λ p. has_id id p ≡ false) (filter is_eligible ps)
others_fit id [] k = tt
others_fit id (p ∷ ps) k = elim (Bool-cases (is_eligible p)) [
  | inl e ↦ let w = eligible_waits p e in rw e (ground arith, others_fit id ps (ground arith))
  | inr e ↦ rw e (others_fit id ps (ground arith))
]

-- The key is known, and neither the map nor the store has a payment with it that would be sent.
pub record Idle (id : Text) (q : QueueState) : Type 0 where
  pub known : Known id q
  pub in_map : sends id q.payments ≡ false
  pub in_store : sends id q.stored ≡ false

pub save-Idle :
    (writable : Bool) (p : QueuedPayment) (q : QueueState) (id : Text)
    → (has_id id p && is_waiting p.state) ≡ false
    → Idle id q
    → Idle id (save writable p q).1
unfolding save
save-Idle true p q id fit k = record {
  known = unfold save in save-Known true p q id k.known;
  in_map = sends-set_payment id p q.payments fit k.in_map;
  in_store = sends-set_payment id p q.stored fit k.in_store;
}
save-Idle false p q id fit k = record {
  known = unfold save in save-Known false p q id k.known;
  in_map = sends-set_payment id p q.payments fit k.in_map;
  in_store = k.in_store;
}

pub save_meta-Idle :
    (writable : Bool) (q : QueueState) (id : Text) → Idle id q → Idle id (save_meta writable q).1
unfolding save_meta
save_meta-Idle true q id k = record {
  known = save_meta-Known true q id k.known;
  in_map = k.in_map;
  in_store = k.in_store;
}
save_meta-Idle false q id k = k

pub fit_of_other :
    (id : Text) (p : QueuedPayment)
    → has_id id p ≡ false
    → BothFit (λ x. (has_id id x && is_waiting x.state) ≡ false) p
unfolding has_id marked recorded
fit_of_other id p h = (rw h, λ o. other o h)
  where
    other :
        (o : SubmitOutcome)
        → has_id id p ≡ false
        → (has_id id (recorded p o) && is_waiting (recorded p o).state) ≡ false
    other (did_settle signature value) k = rw k
    other (did_fail code fee) k = rw k

-- A payment that is new has another key than one that is known.
new_other :
    (id key : Text) (ps : List QueuedPayment)
    → has ps id ≡ true
    → has ps key ≡ false
    → text_eq key id ≡ false
new_other id key ps h k = elim (Bool-cases (text_eq key id)) [
  | inr e ↦ e
  | inl e ↦
      absurd
        (let same : has ps key ≡ has ps id = ap (has ps) (text_eq→eq key id e) in cc (same, h, k))
]

module _ (rt : Runtime) (limits : QueueLimits) where
  pub expire-Idle :
      (writable : Bool) (now : ℕ) (q : QueueState) (id : Text)
      → Idle id q
      → Idle id (expire rt limits writable now q).1
  unfolding expire
  expire-Idle true now q id k = record {
    known = expire-Known rt limits true now q id k.known;
    in_map = sends-set_all id _ q.payments k.in_map;
    in_store = sends-set_all id _ q.stored k.in_store;
  }
  expire-Idle false now q id k = record {
    known = expire-Known rt limits false now q id k.known;
    in_map = sends-set_all id _ q.payments k.in_map;
    in_store = k.in_store;
  }

  accept_checked-Idle :
      (r : Result (Unit {0})) (writable : Bool) (now : ℕ) (payment : VerifiedPayment)
      (tier : PaymentTier) (amount : ℤ) (pre : Option NonceVerdict) (q : QueueState) (id : Text)
      → check rt limits q payment tier amount pre ≡ r
      → Idle id q
      → Idle id (accept_checked rt limits r writable now payment tier amount q).1
  unfolding accept_checked new_payment has_id
  accept_checked-Idle (err e) writable now payment tier amount pre q id h k = k
  accept_checked-Idle (ok u) writable now payment tier amount pre q id h k =
      let passed = check-Passed rt limits q payment tier amount pre h in
      let key = payment_id rt payment in
      let other : text_eq key id ≡ false =
        new_other id key q.payments k.known.in_map passed.is_new in
      save-Idle writable (new_payment key payment tier now amount) q id (rw other) k

  pub accept-Idle :
      (writable : Bool) (now : ℕ) (payment : VerifiedPayment) (tier : PaymentTier) (amount : ℤ)
      (pre : Option NonceVerdict) (q : QueueState) (id : Text)
      → Idle id q
      → Idle id (accept rt limits writable now payment tier amount pre q).1
  unfolding accept
  accept-Idle writable now payment tier amount pre q id k =
      accept_checked-Idle _ writable now payment tier amount pre q id refl k

  pub snapshot-others :
      (id : Text) (q : QueueState)
      → Idle id q
      → All (λ p. has_id id p ≡ false) (snapshot rt limits q)
  unfolding snapshot ordered
  snapshot-others id q k =
      others_fit id (sort (comes_first rt) q.payments)
        (any-sort (comes_first rt) (λ x. has_id id x && is_waiting x.state) q.payments ∙ k.in_map)
