-- ===== src/Client/Queue/Drain.antt =====
-- packages/client/src/queue.ts: `drain`. Each of its awaits lets other calls of the queue run: a turn
-- says what the network answers, which writes to the store succeed, and which calls come meanwhile.
use vadum.Base.{ℕ, suc, ◌+◌, Bool, true, false, Option, some, List, [], ◌∷◌, filter, if◌then◌else◌}
use vadum.Base.Int.{ℤ}
use vadum.Core.Canonical.Wire.{TransactionKit}
use vadum.Core.Errors.{
  ErrorCode, submit_execution_failed, submit_nonce_absent, Result, ok, err, foreign,
}
use vadum.Core.Kit.{Derivation, Crypto, KeyPair}
use vadum.Core.Types.{PaymentTier, VerifiedPayment}
use vadum.Client.NonceCheck.{NonceVerdict}
use vadum.Client.Queue.Accept.{save, accept, expire}
use vadum.Client.Queue.Load.{Reads, load}
use vadum.Client.Queue.State.{
  then_run, queued, submitting, settled, failed, QueuedPayment, QueueLimits, Runtime, QueueState,
  ordered,
}
use vadum.Client.Rpc.{Rpc}
use vadum.Client.Submit.{SubmitOutcome, did_settle, did_fail, Sender, submit}

unfoldable pub counts_as_failed_send : ErrorCode → Bool
counts_as_failed_send submit_execution_failed = true
counts_as_failed_send submit_nonce_absent = true
counts_as_failed_send _ = false

unfoldable pub is_eligible : QueuedPayment → Bool
is_eligible p = elim p.state [ queued ↦ true | failed ↦ true | _ ↦ false ]

unfoldable pub marked : QueuedPayment → QueuedPayment
marked p = record p { state = submitting }

-- What is saved of a payment once `submit` has answered.
unfoldable pub recorded : QueuedPayment → SubmitOutcome → QueuedPayment
recorded p (did_settle signature value) = record p { state = settled; attempts = p.attempts + 1 }
recorded p (did_fail code fee) = record p {
  state = failed;
  attempts = p.attempts + 1;
  last_error = some code;
}

-- The count of consecutive failed sends after an outcome.
unfoldable pub count_after : SubmitOutcome → ℕ → ℕ
count_after (did_settle signature value) n = 0
count_after (did_fail code fee) n = if counts_as_failed_send code then n + 1 else n

unfoldable pub save_meta : Bool → QueueState → Result (Unit {0}) × QueueState
save_meta true q = (ok tt, record q { stored_failed_sends = some q.consecutive_failed_sends })
save_meta false q = (err foreign, q)

-- A call of the queue that another part of the application makes, run to its end. Another drain is
-- not among them.
pub data Call : Type 0 where
  accept_call :
      (writable : Bool) (now : ℕ) (payment : VerifiedPayment) (tier : PaymentTier) (amount : ℤ)
      (precheck : Option NonceVerdict)
      → Call
  expire_call : (writable : Bool) (now : ℕ) → Call
  load_call : (reads : Reads) → Call

pub record Turn : Type 0 where
  pub rpc : Rpc
  pub sender : Sender
  pub marks : Bool
  pub records : Bool
  pub notes : Bool
  pub while_sending : List Call
  pub while_recording : List Call
  pub while_noting : List Call

module _ (rt : Runtime) (limits : QueueLimits) where
  unfoldable pub run_call : Call → QueueState → QueueState
  run_call (accept_call writable now payment tier amount precheck) q =
      (accept rt limits writable now payment tier amount precheck q).1
  run_call (expire_call writable now) q = (expire rt limits writable now q).1
  run_call (load_call reads) q = (load rt reads q).1

  unfoldable pub run_calls : List Call → QueueState → QueueState
  run_calls [] q = q
  run_calls (call ∷ rest) q = run_calls rest (run_call call q)

  -- The count is changed and saved after an outcome is recorded.
  unfoldable pub note : Turn → SubmitOutcome → QueueState → Result SubmitOutcome × QueueState
  note turn o q =
      then_run
        (save_meta turn.notes
          (record q { consecutive_failed_sends = count_after o q.consecutive_failed_sends }))
        (λ u q'. (ok o, run_calls turn.while_noting q'))

  -- The loop runs over the payments as they were when it began, so that the test of their state, its
  -- `continue`, is made on these.
  unfoldable pub snapshot : QueueState → List QueuedPayment
  snapshot q = filter is_eligible (ordered rt q)

  module _ (d : Derivation) (c : Crypto) (t : TransactionKit) (key : KeyPair) where
    unfoldable pub sent : Turn → QueuedPayment → QueueState → Result SubmitOutcome × QueueState
    sent turn p q =
        (submit turn.rpc turn.sender d p.payment c t key, run_calls turn.while_sending q)

    unfoldable pub record_outcome :
        Turn → QueuedPayment → SubmitOutcome → QueueState → Result SubmitOutcome × QueueState
    record_outcome turn p o q =
        then_run (save turn.records (recorded p o) q)
          (λ v q'. note turn o (run_calls turn.while_recording q'))

    unfoldable pub after_mark :
        Turn → QueuedPayment → QueueState → Result SubmitOutcome × QueueState
    after_mark turn p q = then_run (sent turn p q) (record_outcome turn p)

    -- The body of the loop, for a payment of the snapshot that is queued or failed.
    unfoldable pub drain_one : Turn → QueuedPayment → QueueState → Result SubmitOutcome × QueueState
    drain_one turn p q = then_run (save turn.marks (marked p) q) (λ u. after_mark turn p)

    unfoldable pub drain_all :
        (turn : ℕ → Turn)
        → ℕ
        → List QueuedPayment
        → QueueState
        → Result (List SubmitOutcome) × QueueState
    drain_all turn i [] q = (ok [], q)
    drain_all turn i (p ∷ ps) q =
        then_run (drain_one (turn i) p q)
          (λ o q1. then_run (drain_all turn (suc i) ps q1) (λ os q2. (ok (o ∷ os), q2)))

    unfoldable pub drain : (turn : ℕ → Turn) → QueueState → Result (List SubmitOutcome) × QueueState
    drain turn q = drain_all turn 0 (snapshot q) q
