-- ===== src/Client/Queue/Counted.antt =====
-- packages/client/src/queue.ts: the count of failed sends over `drain`, and what it means for `accept`.
use vadum.Base.{
  ℕ, suc, ◌+◌, ◌≡◌, ◌⊎◌, refl, ap, sym, subst, ◌∙◌, Bool, true, false, some, List, [], ◌∷◌, any,
  arith, Bool-cases, inl, inr, if◌then◌else◌,
}
use vadum.Base.Int.{ℤ}
use vadum.Core.Canonical.Wire.{TransactionKit}
use vadum.Core.Errors.{Result, ok, err, ok-injective}
use vadum.Core.Kit.{Derivation, Crypto, KeyPair}
use vadum.Core.Types.{PaymentTier, VerifiedPayment}
use vadum.Client.Queue.Accept.{save, accept_checked, accept, expire}
use vadum.Client.Queue.Drain.{
  Turn, Call, accept_call, expire_call, load_call, run_call, run_calls, recorded, marked,
  count_after, counts_as_failed_send, save_meta, note, sent, record_outcome, after_mark, drain_one,
  drain_all,
}
use vadum.Client.Queue.Preserved.{then_run-eq-ok, drain_all-eq-ok, drain_all-nil}
use vadum.Client.Queue.State.{QueuedPayment, QueueLimits, Runtime, QueueState}
use vadum.Client.Submit.{SubmitOutcome, did_settle, did_fail}

abbrev pub is_settlement : SubmitOutcome → Bool
is_settlement (did_settle signature value) = true
is_settlement (did_fail code fee) = false

-- How many of the outcomes count as failed sends.
abbrev pub failed_sends : List SubmitOutcome → ℕ
failed_sends [] = 0
failed_sends (did_settle signature value ∷ os) = failed_sends os
failed_sends (did_fail code fee ∷ os) =
    if counts_as_failed_send code then suc (failed_sends os) else failed_sends os

-- No call reads the count of failed sends from the store.
abbrev pub WithoutLoads : List Call → Type 0
WithoutLoads [] = Unit {0}
WithoutLoads (accept_call w now payment tier amount pre ∷ rest) = WithoutLoads rest
WithoutLoads (expire_call w now ∷ rest) = WithoutLoads rest
WithoutLoads (load_call reads ∷ rest) = ⊥

-- No `load` runs while the turn awaits.
abbrev pub LoadsNothing : Turn → Type 0
LoadsNothing turn =
    WithoutLoads turn.while_sending
    × WithoutLoads turn.while_recording
    × WithoutLoads turn.while_noting

-- The two counts of failed sends are as they were.
record SameCount (q r : QueueState) : Type 0 where
  pub now : r.consecutive_failed_sends ≡ q.consecutive_failed_sends
  pub stored : r.stored_failed_sends ≡ q.stored_failed_sends

SameCount-trans : {q r s : QueueState} → SameCount q r → SameCount r s → SameCount q s
SameCount-trans a b = record { now = b.now ∙ a.now; stored = b.stored ∙ a.stored }

save-SameCount :
    (writable : Bool) (p : QueuedPayment) (q : QueueState) → SameCount q (save writable p q).1
unfolding save
save-SameCount true p q = record { now = refl; stored = refl }
save-SameCount false p q = record { now = refl; stored = refl }

save-SameCount_at :
    (writable : Bool) (p p' : QueuedPayment) (q q' : QueueState)
    → save writable p q ≡ (ok p', q')
    → SameCount q q'
save-SameCount_at writable p p' q q' h =
    subst (λ r. SameCount q r.1) h (save-SameCount writable p q)

count-cons :
    (o : SubmitOutcome) (more : List SubmitOutcome) (n m : ℕ)
    → m ≡ count_after o n
    → any is_settlement (o ∷ more) ≡ false
    → (any is_settlement more ≡ false) × (m + failed_sends more ≡ n + failed_sends (o ∷ more))
unfolding count_after
count-cons (did_settle signature value) more n m h k = absurd (cc k)
count-cons (did_fail code fee) more n m h k = (
  k,
  elim (Bool-cases (counts_as_failed_send code)) [ inl e ↦ ground arith | inr e ↦ ground arith ],
)

module _ (rt : Runtime) (limits : QueueLimits) where
  accept_checked-SameCount :
      (c : Result (Unit {0})) (writable : Bool) (now : ℕ) (payment : VerifiedPayment)
      (tier : PaymentTier) (amount : ℤ) (q : QueueState)
      → SameCount q (accept_checked rt limits c writable now payment tier amount q).1
  unfolding accept_checked
  accept_checked-SameCount (err e) writable now payment tier amount q = record {
    now = refl;
    stored = refl;
  }
  accept_checked-SameCount (ok u) writable now payment tier amount q = save-SameCount writable _ q

  run_calls-SameCount :
      (calls : List Call) (q : QueueState)
      → WithoutLoads calls
      → SameCount q (run_calls rt limits calls q)
  unfolding run_calls run_call accept expire
  run_calls-SameCount [] q none_loads = record { now = refl; stored = refl }
  run_calls-SameCount (accept_call w now payment tier amount pre ∷ rest) q none_loads =
      SameCount-trans (accept_checked-SameCount _ w now payment tier amount q)
        (run_calls-SameCount rest _ none_loads)
  run_calls-SameCount (expire_call w now ∷ rest) q none_loads =
      SameCount-trans {r = (expire rt limits w now q).1} (record { now = refl; stored = refl })
        (run_calls-SameCount rest _ none_loads)
  run_calls-SameCount (load_call reads ∷ rest) q none_loads = absurd none_loads

  -- The answer is the outcome, the count is that after it, and the store keeps the count.
  record CountedFrom (n : ℕ) (o o' : SubmitOutcome) (q : QueueState) : Type 0 where
    pub answer : o' ≡ o
    pub count : q.consecutive_failed_sends ≡ count_after o n
    pub kept : q.stored_failed_sends ≡ some q.consecutive_failed_sends

  save_meta-kept :
      (writable : Bool) (q q' : QueueState) (u : Unit {0})
      → save_meta writable q ≡ (ok u, q')
      → (q'.consecutive_failed_sends ≡ q.consecutive_failed_sends)
        × (q'.stored_failed_sends ≡ some q'.consecutive_failed_sends)
  unfolding save_meta
  save_meta-kept true q q' u h =
      let same : q'.consecutive_failed_sends ≡ q.consecutive_failed_sends =
        ap (λ r. r.1.consecutive_failed_sends) (sym h) in
      (same, ap (λ r. r.1.stored_failed_sends) (sym h) ∙ ap some (sym same))
  save_meta-kept false q q' u h = absurd (cc h)

  SameCount-kept :
      {n : ℕ} {q r : QueueState}
      → SameCount q r
      → q.consecutive_failed_sends ≡ n
      → q.stored_failed_sends ≡ some q.consecutive_failed_sends
      → (r.consecutive_failed_sends ≡ n) × (r.stored_failed_sends ≡ some r.consecutive_failed_sends)
  SameCount-kept s a b = (s.now ∙ a, s.stored ∙ b ∙ ap some (sym s.now))

  note-CountedFrom :
      (turn : Turn) (o o' : SubmitOutcome) (q q' : QueueState)
      → WithoutLoads turn.while_noting
      → note rt limits turn o q ≡ (ok o', q')
      → CountedFrom q.consecutive_failed_sends o o' q'
  unfolding note
  note-CountedFrom turn o o' q q' none_loads h =
      let (u, q1, h1, rest) = then_run-eq-ok (save_meta turn.notes _) _ h in
      let (count, kept) = save_meta-kept turn.notes _ q1 u h1 in
      let same : SameCount q1 q' =
        subst (λ r. SameCount q1 r.1) rest (run_calls-SameCount turn.while_noting q1 none_loads) in
      let (count', kept') = SameCount-kept same count kept in
      record { answer = sym (ok-injective (ap (λ r. r.0) rest)); count = count'; kept = kept' }

  module _ (d : Derivation) (c : Crypto) (t : TransactionKit) (key : KeyPair) where
    drain_one-CountedFrom :
        (turn : Turn) (p : QueuedPayment) (q q' : QueueState) (o' : SubmitOutcome)
        → LoadsNothing turn
        → drain_one rt limits d c t key turn p q ≡ (ok o', q')
        → CountedFrom q.consecutive_failed_sends o' o' q'
    unfolding drain_one after_mark sent record_outcome
    drain_one-CountedFrom turn p q q' o' (free1, free2, free3) h =
        let (u, q1, h1, rest1) = then_run-eq-ok (save turn.marks (marked p) q) _ h in
        let (o, q2, h2, rest2) = then_run-eq-ok (sent rt limits d c t key turn p q1) _ rest1 in
        let (v, q3, h3, rest3) = then_run-eq-ok (save turn.records (recorded p o) q2) _ rest2 in
        let s1 = save-SameCount_at turn.marks (marked p) u q q1 h1 in
        let s2 : SameCount q1 q2 =
          subst (λ r. SameCount q1 r.1) h2 (run_calls-SameCount turn.while_sending q1 free1) in
        let s3 = save-SameCount_at turn.records (recorded p o) v q2 q3 h3 in
        let s4 = run_calls-SameCount turn.while_recording q3 free2 in
        let s = SameCount-trans s1 (SameCount-trans s2 (SameCount-trans s3 s4)) in
        let noted = note-CountedFrom turn o o' _ q' free3 rest3 in
        record {
          answer = refl;
          count =
              noted.count
              ∙ ap (count_after o) s.now
              ∙ ap (λ x. count_after x q.consecutive_failed_sends) (sym noted.answer);
          kept = noted.kept;
        }

    -- With no settlement among the outcomes, the count grew by the failed sends.
    pub drain_all-count :
        (turn : ℕ → Turn) (i : ℕ) (ps : List QueuedPayment) (q q' : QueueState)
        (os : List SubmitOutcome)
        → ((j : ℕ) → LoadsNothing (turn j))
        → drain_all rt limits d c t key turn i ps q ≡ (ok os, q')
        → any is_settlement os ≡ false
        → q'.consecutive_failed_sends ≡ q.consecutive_failed_sends + failed_sends os
    drain_all-count turn i [] q q' os free h k =
        let (none_sent, same) = drain_all-nil rt limits d c t key turn i q q' os h in
        rw (none_sent, same) (omega arith)
    drain_all-count turn i (p ∷ ps) q q' os free h k =
        let (o, more, q1, split, h1, h2) =
          drain_all-eq-ok rt limits d c t key turn i p ps q q' os h in
        let first = drain_one-CountedFrom (turn i) p q q1 o (free i) h1 in
        let (unsettled, step) =
          count-cons o more q.consecutive_failed_sends q1.consecutive_failed_sends first.count
            (ap (any is_settlement) (sym split) ∙ k) in
        drain_all-count turn (suc i) ps q1 q' more free h2 unsettled
        ∙ step
        ∙ ap (λ x. q.consecutive_failed_sends + failed_sends x) (sym split)

    -- With an outcome, the store keeps the count.
    pub drain_all-stored :
        (turn : ℕ → Turn) (i : ℕ) (ps : List QueuedPayment) (q q' : QueueState)
        (os : List SubmitOutcome)
        → ((j : ℕ) → LoadsNothing (turn j))
        → drain_all rt limits d c t key turn i ps q ≡ (ok os, q')
        → (os ≡ []) × (q' ≡ q) ⊎ (q'.stored_failed_sends ≡ some q'.consecutive_failed_sends)
    drain_all-stored turn i [] q q' os free h =
        inl (drain_all-nil rt limits d c t key turn i q q' os h)
    drain_all-stored turn i (p ∷ ps) q q' os free h =
        let (o, more, q1, split, h1, h2) =
          drain_all-eq-ok rt limits d c t key turn i p ps q q' os h in
        let first = drain_one-CountedFrom (turn i) p q q1 o (free i) h1 in
        inr (elim (drain_all-stored turn (suc i) ps q1 q' more free h2) [
          | inr kept ↦ kept
          | inl nothing ↦ rw nothing.1 first.kept
        ])
