-- ===== src/Client/Queue/Recorded.antt =====
-- packages/client/src/queue.ts: what `drain` leaves in the map and in the store.
use vadum.Base.{
  ℕ, suc, ◌≡◌, refl, ap, sym, ◌∙◌, Bool, true, false, some, List, [], ◌∷◌, length, find, Bool-cases,
  inl, inr,
}
use vadum.Base.Text.{text_eq, text_eq_refl}
use vadum.Core.Canonical.Wire.{TransactionKit}
use vadum.Core.Errors.{ok, ok-injective}
use vadum.Core.Kit.{Derivation, Crypto, KeyPair}
use vadum.Client.Queue.Accept.{save}
use vadum.Client.Queue.Drain.{
  Turn, run_calls, recorded, marked, save_meta, note, sent, record_outcome, after_mark, drain_one,
  drain_all, snapshot, drain,
}
use vadum.Client.Queue.Preserved.{then_run-eq-ok, drain_all-eq-ok, drain_all-nil}
use vadum.Client.Queue.State.{
  QueuedPayment, QueueLimits, Runtime, QueueState, has_id, set_payment, set_all,
}
use vadum.Client.Submit.{SubmitOutcome, did_settle, did_fail, submit}

-- No other call of the queue runs while the turn awaits.
abbrev pub Quiet : Turn → Type 0
Quiet turn = (turn.while_sending ≡ []) × (turn.while_recording ≡ []) × (turn.while_noting ≡ [])

-- Each payment with its outcome, in their order.
abbrev pub recorded_all : List QueuedPayment → List SubmitOutcome → List QueuedPayment
recorded_all [] os = []
recorded_all (p ∷ ps) [] = []
recorded_all (p ∷ ps) (o ∷ os) = recorded p o ∷ recorded_all ps os

recorded-id : (p : QueuedPayment) (o : SubmitOutcome) → (recorded p o).id ≡ p.id
unfolding recorded
recorded-id p (did_settle signature value) = refl
recorded-id p (did_fail code fee) = refl

-- A second write under the same key replaces the first.
set_payment-again :
    (a b : QueuedPayment) (ps : List QueuedPayment)
    → a.id ≡ b.id
    → set_payment a (set_payment b ps) ≡ set_payment a ps
unfolding set_payment has_id
set_payment-again a b [] same =
    let r : text_eq b.id a.id ≡ true = ap (text_eq b.id) same ∙ text_eq_refl b.id in rw r
set_payment-again a b (x ∷ xs) same =
    let r : text_eq b.id a.id ≡ true = ap (text_eq b.id) same ∙ text_eq_refl b.id in
    elim (Bool-cases (text_eq x.id b.id)) [
      | inl e ↦ let f : text_eq x.id a.id ≡ true = ap (text_eq x.id) same ∙ e in rw (e, f) (rw r)
      | inr e ↦
          let f : text_eq x.id a.id ≡ false = ap (text_eq x.id) same ∙ e in
          rw (e, f) (ap (◌∷◌ x) (set_payment-again a b xs same))
    ]

find-set_payment :
    (p : QueuedPayment) (ps : List QueuedPayment) → find (has_id p.id) (set_payment p ps) ≡ some p
unfolding set_payment has_id
find-set_payment p [] = rw (text_eq_refl p.id)
find-set_payment p (x ∷ xs) = elim (Bool-cases (text_eq x.id p.id)) [
  | inl e ↦ rw e (rw (text_eq_refl p.id))
  | inr e ↦ rw e (rw e (find-set_payment p xs))
]

save-eq-ok :
    (writable : Bool) (p p' : QueuedPayment) (q q' : QueueState)
    → save writable p q ≡ (ok p', q')
    → (q'.payments ≡ set_payment p q.payments) × (q'.stored ≡ set_payment p q.stored)
unfolding save
save-eq-ok true p p' q q' h = (ap (λ r. r.1.payments) (sym h), ap (λ r. r.1.stored) (sym h))
save-eq-ok false p p' q q' h = absurd (cc h)

save_meta-eq-ok :
    (writable : Bool) (q q' : QueueState) (u : Unit {0})
    → save_meta writable q ≡ (ok u, q')
    → (q'.payments ≡ q.payments) × (q'.stored ≡ q.stored)
unfolding save_meta
save_meta-eq-ok true q q' u h = (ap (λ r. r.1.payments) (sym h), ap (λ r. r.1.stored) (sym h))
save_meta-eq-ok false q q' u h = absurd (cc h)

module _ (rt : Runtime) (limits : QueueLimits) (d : Derivation) (c : Crypto) (t : TransactionKit)
    (key : KeyPair) where
  note-eq-ok :
      (turn : Turn) (o o' : SubmitOutcome) (q q' : QueueState)
      → turn.while_noting ≡ []
      → note rt limits turn o q ≡ (ok o', q')
      → (o' ≡ o) × (q'.payments ≡ q.payments) × (q'.stored ≡ q.stored)
  unfolding note run_calls
  note-eq-ok turn o o' q q' quiet h =
      let (u, q1, h1, rest) = then_run-eq-ok (save_meta turn.notes _) _ h in
      let (map_same, store_same) = save_meta-eq-ok turn.notes _ q1 u h1 in
      let last : q' ≡ q1 =
        ap (λ r. r.1) (sym rest) ∙ ap (λ calls. run_calls rt limits calls q1) quiet in
      (
        sym (ok-injective (ap (λ r. r.0) rest)),
        ap (λ x. x.payments) last ∙ map_same,
        ap (λ x. x.stored) last ∙ store_same,
      )

  -- What another call makes of the payment while it is being sent does not survive the turn.
  drain_one-eq-ok :
      (turn : Turn) (p : QueuedPayment) (q q' : QueueState) (o : SubmitOutcome)
      → turn.while_recording ≡ []
      → turn.while_noting ≡ []
      → drain_one rt limits d c t key turn p q ≡ (ok o, q')
      → (q1 : QueueState) × (submit turn.rpc turn.sender d p.payment c t key ≡ ok o)
        × (q1.payments ≡ set_payment (marked p) q.payments)
        × (q1.stored ≡ set_payment (marked p) q.stored)
        × (q'.payments
            ≡ set_payment (recorded p o) (run_calls rt limits turn.while_sending q1).payments)
        × (q'.stored
            ≡ set_payment (recorded p o) (run_calls rt limits turn.while_sending q1).stored)
  unfolding drain_one after_mark sent record_outcome run_calls
  drain_one-eq-ok turn p q q' o quiet1 quiet2 h =
      let (u, q1, h1, rest1) = then_run-eq-ok (save turn.marks (marked p) q) _ h in
      let (o1, q2, h2, rest2) = then_run-eq-ok (sent rt limits d c t key turn p q1) _ rest1 in
      let (v, q3, h3, rest3) = then_run-eq-ok (save turn.records (recorded p o1) q2) _ rest2 in
      let (in_map, in_store) = save-eq-ok turn.marks (marked p) u q q1 h1 in
      let (in_map', in_store') = save-eq-ok turn.records (recorded p o1) v q2 q3 h3 in
      let (answer, same_map, same_store) = note-eq-ok turn o1 o _ q' quiet2 rest3 in
      let sends : submit turn.rpc turn.sender d p.payment c t key ≡ ok o =
        ap (λ r. r.0) h2 ∙ ap ok (sym answer) in
      let sent_q : q2 ≡ run_calls rt limits turn.while_sending q1 = ap (λ r. r.1) (sym h2) in
      let calm : run_calls rt limits turn.while_recording q3 ≡ q3 =
        ap (λ calls. run_calls rt limits calls q3) quiet1 in
      (
        q1,
        sends,
        in_map,
        in_store,
        same_map
            ∙ ap (λ x. x.payments) calm
            ∙ in_map'
            ∙ ap (λ x. set_payment (recorded p x) q2.payments) (sym answer)
            ∙ ap (λ x. set_payment (recorded p o) x.payments) sent_q,
        same_store
            ∙ ap (λ x. x.stored) calm
            ∙ in_store'
            ∙ ap (λ x. set_payment (recorded p x) q2.stored) (sym answer)
            ∙ ap (λ x. set_payment (recorded p o) x.stored) sent_q,
      )

  drain_one-Quiet :
      (turn : Turn) (p : QueuedPayment) (q q' : QueueState) (o : SubmitOutcome)
      → Quiet turn
      → drain_one rt limits d c t key turn p q ≡ (ok o, q')
      → (q'.payments ≡ set_payment (recorded p o) q.payments)
        × (q'.stored ≡ set_payment (recorded p o) q.stored)
  unfolding run_calls marked
  drain_one-Quiet turn p q q' o quiet h =
      let (q1, sends, in_map, in_store, in_map', in_store') =
        drain_one-eq-ok turn p q q' o quiet.1 quiet.2 h in
      let calm : run_calls rt limits turn.while_sending q1 ≡ q1 =
        ap (λ calls. run_calls rt limits calls q1) quiet.0 in
      let put = λ (ps : List QueuedPayment). set_payment (recorded p o) ps in
      (
        in_map'
            ∙ ap (λ x. put x.payments) calm
            ∙ ap put in_map
            ∙ set_payment-again (recorded p o) (marked p) q.payments (recorded-id p o),
        in_store'
            ∙ ap (λ x. put x.stored) calm
            ∙ ap put in_store
            ∙ set_payment-again (recorded p o) (marked p) q.stored (recorded-id p o),
      )

  -- What a drain of a snapshot has saved: one outcome for each payment, recorded in order.
  pub record Drained (ps : List QueuedPayment) (os : List SubmitOutcome) (q q' : QueueState)
      : Type 0 where
    pub one_each : length os ≡ length ps
    pub in_map : q'.payments ≡ set_all (recorded_all ps os) q.payments
    pub in_store : q'.stored ≡ set_all (recorded_all ps os) q.stored

  drain_all-Drained :
      (turn : ℕ → Turn) (i : ℕ) (ps : List QueuedPayment) (q q' : QueueState)
      (os : List SubmitOutcome)
      → ((j : ℕ) → Quiet (turn j))
      → drain_all rt limits d c t key turn i ps q ≡ (ok os, q')
      → Drained ps os q q'
  unfolding set_all
  drain_all-Drained turn i [] q q' os quiet h =
      let (no_outcome, same) = drain_all-nil rt limits d c t key turn i q q' os h in
      record {
        one_each = ap length no_outcome;
        in_map = ap (λ x. x.payments) same;
        in_store = ap (λ x. x.stored) same;
      }
  drain_all-Drained turn i (p ∷ ps) q q' os quiet h =
      let (o, more, q1, split, h1, h2) =
        drain_all-eq-ok rt limits d c t key turn i p ps q q' os h in
      let (in_map, in_store) = drain_one-Quiet (turn i) p q q1 o (quiet i) h1 in
      let rest = drain_all-Drained turn (suc i) ps q1 q' more quiet h2 in
      let put = λ (xs : List QueuedPayment) (ps' : List QueuedPayment). set_all xs ps' in
      record {
        one_each = ap length split ∙ ap suc rest.one_each;
        in_map =
            rest.in_map
            ∙ ap (put (recorded_all ps more)) in_map
            ∙ ap (λ x. put (recorded_all (p ∷ ps) x) q.payments) (sym split);
        in_store =
            rest.in_store
            ∙ ap (put (recorded_all ps more)) in_store
            ∙ ap (λ x. put (recorded_all (p ∷ ps) x) q.stored) (sym split);
      }

  -- Where a drain answers and no other call of the queue runs meanwhile, it has one outcome for
  -- each payment that was queued or failed, in their order, and the map and the store are those
  -- before it with each of these payments replaced, in that order, by its record with its outcome.
  pub drain-Drained :
      (turn : ℕ → Turn) (q q' : QueueState) (os : List SubmitOutcome)
      → ((j : ℕ) → Quiet (turn j))
      → drain rt limits d c t key turn q ≡ (ok os, q')
      → Drained (snapshot rt limits q) os q q'
  unfolding drain
  drain-Drained turn q q' os quiet h = drain_all-Drained turn 0 _ q q' os quiet h

  -- Where the turn of a drain on a payment answers with an outcome, and no other call of the queue
  -- runs after its outcome is in, the map and the store hold the payment as it was before the
  -- turn, recorded with the outcome, whatever calls of `accept`, `expire` and `load` ran to their
  -- end while it was being sent, where no second drain ran.
  pub drain_one-overrides :
      (turn : Turn) (p : QueuedPayment) (q q' : QueueState) (o : SubmitOutcome)
      → turn.while_recording ≡ []
      → turn.while_noting ≡ []
      → drain_one rt limits d c t key turn p q ≡ (ok o, q')
      → (find (has_id p.id) q'.payments ≡ some (recorded p o))
        × (find (has_id p.id) q'.stored ≡ some (recorded p o))
  drain_one-overrides turn p q q' o quiet1 quiet2 h =
      let (q1, sends, in_map, in_store, in_map', in_store') =
        drain_one-eq-ok turn p q q' o quiet1 quiet2 h in
      (found_there p o _ in_map', found_there p o _ in_store')
    where
      found_there :
          (p : QueuedPayment) (o : SubmitOutcome) (before : List QueuedPayment)
          {after : List QueuedPayment}
          → after ≡ set_payment (recorded p o) before
          → find (has_id p.id) after ≡ some (recorded p o)
      found_there p o before h =
          ap (find (has_id p.id)) h
          ∙ ap (λ id. find (has_id id) (set_payment (recorded p o) before)) (sym (recorded-id p o))
          ∙ find-set_payment (recorded p o) before
