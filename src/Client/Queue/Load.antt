-- ===== src/Client/Queue/Load.antt =====
-- packages/client/src/queue.ts: `load`, and the start of a queue over a store that a former one wrote.
use vadum.Base.{ℕ, Bool, true, false, Option, none, some, List, [], ◌∷◌, if◌then◌else◌}
use vadum.Core.Errors.{Result, ok, err, foreign}
use vadum.Client.Queue.State.{QueuedPayment, Runtime, QueueState, ordered, set_payment, then_run}

-- Each stored payment goes into the map; a read of the store may fail.
unfoldable pub load_all :
    (readable : QueuedPayment → Bool)
    → List QueuedPayment
    → QueueState
    → Result (Unit {0}) × QueueState
load_all readable [] q = (ok tt, q)
load_all readable (p ∷ ps) q =
    let rest = load_all readable ps (record q { payments = set_payment p q.payments }) in
    if readable p then rest else (err foreign, q)

-- `?.consecutiveFailedSends ?? 0`.
unfoldable pub or_zero : Option ℕ → ℕ
or_zero none = 0
or_zero (some n) = n

unfoldable pub load_meta : Bool → QueueState → Result (Unit {0}) × QueueState
load_meta true q = (ok tt, record q { consecutive_failed_sends = or_zero q.stored_failed_sends })
load_meta false q = (err foreign, q)

-- Which of the reads succeed: of the keys, of each payment, and of the count.
pub record Reads : Type 0 where
  pub keys : Bool
  pub payment : QueuedPayment → Bool
  pub meta : Bool

unfoldable pub read_keys : Bool → QueueState → Result (List QueuedPayment) × QueueState
read_keys true q = (ok q.stored, q)
read_keys false q = (err foreign, q)

unfoldable pub load : Runtime → Reads → QueueState → Result (List QueuedPayment) × QueueState
load rt reads q = then_run (read_keys reads.keys q) (λ stored q1.
    then_run (load_all reads.payment stored q1)
      (λ u q2. then_run (load_meta reads.meta q2) (λ v q3. (ok (ordered rt q3), q3))))

-- `createQueue` over the same store: an empty map and a count of zero.
unfoldable pub restart : QueueState → QueueState
restart q = record q { payments = []; consecutive_failed_sends = 0 }
