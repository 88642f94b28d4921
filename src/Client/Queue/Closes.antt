-- ===== src/Client/Queue/Closes.antt =====
-- packages/client/src/queue.ts: LIMIT_FAILED_SENDS. Failed sends close the queue, also after a restart.
use vadum.Base.{
  ℕ, ◌+◌, ◌≤◌, ◌<◌, ◌≡◌, refl, ap, sym, ◌∙◌, Bool, true, false, Option, some, List, [], ◌∷◌, any,
  arith, Bool-cases, inl, inr,
}
use vadum.Base.Int.{ℤ}
use vadum.Core.Canonical.Wire.{TransactionKit}
use vadum.Core.Errors.{Failure, Result, ok, err}
use vadum.Core.Kit.{Derivation, Crypto, KeyPair}
use vadum.Core.Types.{PaymentTier, VerifiedPayment}
use vadum.Client.NonceCheck.{NonceVerdict}
use vadum.Client.Queue.Accept.{check, accept_checked, accept}
use vadum.Client.Queue.Counted.{
  LoadsNothing, is_settlement, failed_sends, drain_all-count, drain_all-stored,
}
use vadum.Client.Queue.Drain.{Turn, drain}
use vadum.Client.Queue.Exposure.{check-Passed}
use vadum.Client.Queue.Load.{Reads, read_keys, load_all, load_meta, or_zero, load, restart}
use vadum.Client.Queue.Loaded.{load_all-read, load_all-unread}
use vadum.Client.Queue.Preserved.{then_run-eq-ok}
use vadum.Client.Queue.State.{QueuedPayment, QueueLimits, Runtime, QueueState}
use vadum.Client.Submit.{SubmitOutcome}

read_keys-meta :
    (b : Bool) (q : QueueState) → (read_keys b q).1.stored_failed_sends ≡ q.stored_failed_sends
unfolding read_keys
read_keys-meta true q = refl
read_keys-meta false q = refl

load_all-meta :
    (readable : QueuedPayment → Bool) (ps : List QueuedPayment) (q q' : QueueState) (u : Unit {0})
    → load_all readable ps q ≡ (ok u, q')
    → q'.stored_failed_sends ≡ q.stored_failed_sends
unfolding load_all
load_all-meta readable [] q q' u h = ap (λ r. r.1.stored_failed_sends) (sym h)
load_all-meta readable (p ∷ ps) q q' u h = elim (Bool-cases (readable p)) [
  | inl e ↦ load_all-meta readable ps _ q' u (sym (load_all-read readable p ps q e) ∙ h)
  | inr e ↦ absurd (load_all-unread readable p ps q q' u e h)
]

load_meta-count :
    (b : Bool) (q q' : QueueState) (u : Unit {0})
    → load_meta b q ≡ (ok u, q')
    → q'.consecutive_failed_sends ≡ or_zero q.stored_failed_sends
unfolding load_meta
load_meta-count true q q' u h = ap (λ r. r.1.consecutive_failed_sends) (sym h)
load_meta-count false q q' u h = absurd (cc h)

-- The count that a load reads is the stored one.
load-count :
    (rt : Runtime) (reads : Reads) (q r : QueueState) (ps : List QueuedPayment)
    → load rt reads q ≡ (ok ps, r)
    → r.consecutive_failed_sends ≡ or_zero q.stored_failed_sends
unfolding load
load-count rt reads q r ps h =
    let (stored, q1, h1, rest1) = then_run-eq-ok (read_keys reads.keys q) _ h in
    let (u, q2, h2, rest2) = then_run-eq-ok (load_all reads.payment stored q1) _ rest1 in
    let (v, q3, h3, rest3) = then_run-eq-ok (load_meta reads.meta q2) _ rest2 in
    let meta1 : q1.stored_failed_sends ≡ q.stored_failed_sends =
      ap (λ x. x.1.stored_failed_sends) (sym h1) ∙ read_keys-meta reads.keys q in
    let meta2 = load_all-meta reads.payment stored q1 q2 u h2 in
    ap (λ x. x.1.consecutive_failed_sends) (sym rest3)
    ∙ load_meta-count reads.meta q2 q3 v h3
    ∙ ap or_zero (meta2 ∙ meta1)

module _ (rt : Runtime) (limits : QueueLimits) where
  refused_closed :
      (r : Result (Unit {0})) (writable : Bool) (now : ℕ) (payment : VerifiedPayment)
      (tier : PaymentTier) (amount : ℤ) (pre : Option NonceVerdict) (q : QueueState)
      → check rt limits q payment tier amount pre ≡ r
      → limits.max_consecutive_failed_sends ≤ q.consecutive_failed_sends
      → (e : Failure) × (accept_checked rt limits r writable now payment tier amount q ≡ (err e, q))
  unfolding accept_checked
  refused_closed (err e) writable now payment tier amount pre q h low = (e, refl)
  refused_closed (ok u) writable now payment tier amount pre q h low =
      let passed = check-Passed rt limits q payment tier amount pre h in
      absurd (let trading = passed.trading in omega arith)

  -- A queue whose count has reached the maximum refuses every payment.
  accept-closed :
      (writable : Bool) (now : ℕ) (payment : VerifiedPayment) (tier : PaymentTier) (amount : ℤ)
      (pre : Option NonceVerdict) (q : QueueState)
      → limits.max_consecutive_failed_sends ≤ q.consecutive_failed_sends
      → (e : Failure) × (accept rt limits writable now payment tier amount pre q ≡ (err e, q))
  unfolding accept
  accept-closed writable now payment tier amount pre q low =
      refused_closed _ writable now payment tier amount pre q refl low

  module _ (d : Derivation) (c : Crypto) (t : TransactionKit) (key : KeyPair) where
    drain-count :
        (turn : ℕ → Turn) (q q' : QueueState) (os : List SubmitOutcome)
        → ((j : ℕ) → LoadsNothing (turn j))
        → drain rt limits d c t key turn q ≡ (ok os, q')
        → any is_settlement os ≡ false
        → q'.consecutive_failed_sends ≡ q.consecutive_failed_sends + failed_sends os
    unfolding drain
    drain-count turn q q' os free h k =
        drain_all-count rt limits d c t key turn 0 _ q q' os free h k

    drain-stored :
        (turn : ℕ → Turn) (q q' : QueueState) (os : List SubmitOutcome)
        → ((j : ℕ) → LoadsNothing (turn j))
        → drain rt limits d c t key turn q ≡ (ok os, q')
        → 0 < failed_sends os
        → q'.stored_failed_sends ≡ some q'.consecutive_failed_sends
    unfolding drain
    drain-stored turn q q' os free h some_failed =
        elim (drain_all-stored rt limits d c t key turn 0 _ q q' os free h) [
          | inr kept ↦ kept
          | inl nothing ↦
              absurd
                (let none_failed : failed_sends os ≡ 0 = ap failed_sends nothing.0 in omega arith)
        ]

    -- Where a drain, during which no `load` and no second drain runs, answers with outcomes of
    -- which none is a settlement and at least one counts as a failed send, and these with the
    -- count before reach the maximum, every `accept` throws and changes nothing, and so it does
    -- after a restart whose `load` answers; calls of `accept` and `expire` may run during the
    -- drain.
    pub drain-closes :
        (turn : ℕ → Turn) (q q' r : QueueState) (os : List SubmitOutcome) (reads : Reads)
        (ps : List QueuedPayment) (writable : Bool) (now : ℕ) (payment : VerifiedPayment)
        (tier : PaymentTier) (amount : ℤ) (precheck : Option NonceVerdict)
        → ((j : ℕ) → LoadsNothing (turn j))
        → drain rt limits d c t key turn q ≡ (ok os, q')
        → any is_settlement os ≡ false
        → 0 < failed_sends os
        → limits.max_consecutive_failed_sends ≤ q.consecutive_failed_sends + failed_sends os
        → load rt reads (restart q') ≡ (ok ps, r)
        → ((e : Failure) × (accept rt limits writable now payment tier amount precheck q'
              ≡ (err e, q')))
          × ((e : Failure) × (accept rt limits writable now payment tier amount precheck r
                ≡ (err e, r)))
    unfolding restart or_zero
    drain-closes turn q q' r os reads ps writable now payment tier amount pre free h k failed
          reached l =
        let grown = drain-count turn q q' os free h k in
        let loaded : r.consecutive_failed_sends ≡ q'.consecutive_failed_sends =
          load-count rt reads (restart q') r ps l
          ∙ ap or_zero (drain-stored turn q q' os free h failed) in
        (
          accept-closed writable now payment tier amount pre q' (omega arith),
          accept-closed writable now payment tier amount pre r (omega arith),
        )
