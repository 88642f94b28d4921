-- ===== src/Client/Queue/Preserved.antt =====
-- packages/client/src/queue.ts: what every write of the queue keeps, its calls and its loops keep.
use vadum.Base.{ℕ, suc, ◌≡◌, refl, ap, sym, ◌∙◌, Bool, Option, List, [], ◌∷◌, All}
use vadum.Base.Int.{ℤ}
use vadum.Core.Canonical.Wire.{TransactionKit}
use vadum.Core.Errors.{Result, ok, err, ok-injective}
use vadum.Core.Kit.{Derivation, Crypto, KeyPair}
use vadum.Core.Types.{PaymentTier, VerifiedPayment}
use vadum.Client.NonceCheck.{NonceVerdict}
use vadum.Client.Queue.Accept.{save, accept, expire}
use vadum.Client.Queue.Drain.{
  Turn, Call, accept_call, expire_call, load_call, run_call, run_calls, recorded, marked, save_meta,
  note, sent, record_outcome, after_mark, drain_one, drain_all, snapshot, drain,
}
use vadum.Client.Queue.Load.{Reads, load}
use vadum.Client.Queue.State.{QueuedPayment, QueueLimits, Runtime, QueueState, then_run}
use vadum.Client.Submit.{SubmitOutcome}

-- A property of the queue that its writes keep, where a payment is saved that fits.
pub record Kept (rt : Runtime) (limits : QueueLimits) (P : QueueState → Type 0)
    (Fits : QueuedPayment → Type 0) : Type 0 where
  pub by_save :
      (writable : Bool) (p : QueuedPayment) (q : QueueState)
      → Fits p
      → P q
      → P (save writable p q).1
  pub by_accept :
      (writable : Bool) (now : ℕ) (payment : VerifiedPayment) (tier : PaymentTier) (amount : ℤ)
      (precheck : Option NonceVerdict) (q : QueueState)
      → P q
      → P (accept rt limits writable now payment tier amount precheck q).1
  pub by_void :
      (writable : Bool) (now : ℕ) (q : QueueState) → P q → P (expire rt limits writable now q).1
  pub by_load : (reads : Reads) (q : QueueState) → P q → P (load rt reads q).1
  pub by_count : (n : ℕ) (q : QueueState) → P q → P (record q { consecutive_failed_sends = n })
  pub by_meta : (writable : Bool) (q : QueueState) → P q → P (save_meta writable q).1

-- Both payments that a turn saves fit.
abbrev pub BothFit : (QueuedPayment → Type 0) → QueuedPayment → Type 0
BothFit Fits p = Fits (marked p) × ((o : SubmitOutcome) → Fits (recorded p o))

pub then_run-keeps :
    (P : QueueState → Type 0) {A B : Type 0} (r : Result A × QueueState)
    (next : A → QueueState → Result B × QueueState)
    → P r.1
    → ((a : A) (q : QueueState) → P q → P (next a q).1)
    → P (then_run r next).1
then_run-keeps P (ok a, q) next h step = step a q h
then_run-keeps P (err e, q) next h step = h

-- The same, where the step may use what the first part answered.
pub then_run-keeps_at :
    (P : QueueState → Type 0) {A B : Type 0} (r : Result A × QueueState)
    (next : A → QueueState → Result B × QueueState)
    → P r.1
    → ((a : A) (q : QueueState) → r ≡ (ok a, q) → P q → P (next a q).1)
    → P (then_run r next).1
then_run-keeps_at P (ok a, q) next h step = step a q refl h
then_run-keeps_at P (err e, q) next h step = h

-- A run that answers answered at both of its parts.
pub then_run-eq-ok :
    {A B : Type 0} (r : Result A × QueueState) (next : A → QueueState → Result B × QueueState)
    {b : B} {q' : QueueState}
    → then_run r next ≡ (ok b, q')
    → (a : A) × (q1 : QueueState) × (r ≡ (ok a, q1)) × (next a q1 ≡ (ok b, q'))
then_run-eq-ok (ok a, q) next h = (a, q, refl, h)
then_run-eq-ok (err e, q) next h = absurd (cc h)

module _ (rt : Runtime) (limits : QueueLimits) (P : QueueState → Type 0)
    (Fits : QueuedPayment → Type 0) (kept : Kept rt limits P Fits) where
  pub run_call-keeps : (call : Call) (q : QueueState) → P q → P (run_call rt limits call q)
  unfolding run_call
  run_call-keeps (accept_call w now payment tier amount pre) q h =
      kept.by_accept w now payment tier amount pre q h
  run_call-keeps (expire_call w now) q h = kept.by_void w now q h
  run_call-keeps (load_call reads) q h = kept.by_load reads q h

  pub run_calls-keeps : (calls : List Call) (q : QueueState) → P q → P (run_calls rt limits calls q)
  unfolding run_calls
  run_calls-keeps [] q h = h
  run_calls-keeps (call ∷ rest) q h = run_calls-keeps rest _ (run_call-keeps call q h)

  note-keeps :
      (turn : Turn) (o : SubmitOutcome) (q : QueueState) → P q → P (note rt limits turn o q).1
  unfolding note
  note-keeps turn o q h =
      then_run-keeps P _ _ (kept.by_meta turn.notes _ (kept.by_count _ q h))
        (λ u q' k. run_calls-keeps turn.while_noting q' k)

  module _ (d : Derivation) (c : Crypto) (t : TransactionKit) (key : KeyPair) where
    record_outcome-keeps :
        (turn : Turn) (p : QueuedPayment) (o : SubmitOutcome) (q : QueueState)
        → Fits (recorded p o)
        → P q
        → P (record_outcome rt limits d c t key turn p o q).1
    unfolding record_outcome
    record_outcome-keeps turn p o q fit h =
        then_run-keeps P (save turn.records (recorded p o) q) _
          (kept.by_save turn.records (recorded p o) q fit h)
          (λ v q' k. note-keeps turn o _ (run_calls-keeps turn.while_recording q' k))

    after_mark-keeps :
        (turn : Turn) (p : QueuedPayment) (q : QueueState)
        → BothFit Fits p
        → P q
        → P (after_mark rt limits d c t key turn p q).1
    unfolding after_mark sent
    after_mark-keeps turn p q fit h =
        then_run-keeps P (sent rt limits d c t key turn p q)
          (record_outcome rt limits d c t key turn p) (run_calls-keeps turn.while_sending q h)
          (λ o q'. record_outcome-keeps turn p o q' (fit.1 o))

    drain_one-keeps :
        (turn : Turn) (p : QueuedPayment) (q : QueueState)
        → BothFit Fits p
        → P q
        → P (drain_one rt limits d c t key turn p q).1
    unfolding drain_one
    drain_one-keeps turn p q fit h =
        then_run-keeps P (save turn.marks (marked p) q) (λ u. after_mark rt limits d c t key turn p)
          (kept.by_save turn.marks (marked p) q fit.0 h) (λ u q'. after_mark-keeps turn p q' fit)

    pub drain_all-keeps :
        (turn : ℕ → Turn) (i : ℕ) (ps : List QueuedPayment) (q : QueueState)
        → All (BothFit Fits) ps
        → P q
        → P (drain_all rt limits d c t key turn i ps q).1
    unfolding drain_all
    drain_all-keeps turn i [] q fit h = h
    drain_all-keeps turn i (p ∷ ps) q fit h =
        then_run-keeps P (drain_one rt limits d c t key (turn i) p q) _
          (drain_one-keeps (turn i) p q fit.0 h)
          (λ o q1 h1.
            then_run-keeps P (drain_all rt limits d c t key turn (suc i) ps q1) _
              (drain_all-keeps turn (suc i) ps q1 fit.1 h1) (λ os q2 h2. h2))

    pub drain-keeps :
        (turn : ℕ → Turn) (q : QueueState)
        → All (BothFit Fits) (snapshot rt limits q)
        → P q
        → P (drain rt limits d c t key turn q).1
    unfolding drain
    drain-keeps turn q fit h = drain_all-keeps turn 0 _ q fit h

-- A drain of a snapshot that answers was a turn on its first payment and a drain of the others.
module _ (rt : Runtime) (limits : QueueLimits) (d : Derivation) (c : Crypto) (t : TransactionKit)
    (key : KeyPair) where
  pub drain_all-eq-ok :
      (turn : ℕ → Turn) (i : ℕ) (p : QueuedPayment) (ps : List QueuedPayment) (q q' : QueueState)
      (os : List SubmitOutcome)
      → drain_all rt limits d c t key turn i (p ∷ ps) q ≡ (ok os, q')
      → (o : SubmitOutcome) × (more : List SubmitOutcome) × (q1 : QueueState) × (os ≡ o ∷ more)
        × (drain_one rt limits d c t key (turn i) p q ≡ (ok o, q1))
        × (drain_all rt limits d c t key turn (suc i) ps q1 ≡ (ok more, q'))
  unfolding drain_all
  drain_all-eq-ok turn i p ps q q' os h =
      let (o, q1, h1, rest1) = then_run-eq-ok (drain_one rt limits d c t key (turn i) p q) _ h in
      let (more, q2, h2, rest2) =
        then_run-eq-ok (drain_all rt limits d c t key turn (suc i) ps q1) _ rest1 in
      (
        o,
        more,
        q1,
        sym (ok-injective (ap (λ r. r.0) rest2)),
        h1,
        h2 ∙ ap (λ x. (ok more, x)) (ap (λ r. r.1) rest2),
      )

  pub drain_all-nil :
      (turn : ℕ → Turn) (i : ℕ) (q q' : QueueState) (os : List SubmitOutcome)
      → drain_all rt limits d c t key turn i [] q ≡ (ok os, q')
      → (os ≡ []) × (q' ≡ q)
  unfolding drain_all
  drain_all-nil turn i q q' os h = (sym (ok-injective (ap (λ r. r.0) h)), ap (λ r. r.1) (sym h))
