-- ===== src/Client/Queue/Resend.antt =====
-- packages/client/src/queue.ts: a payment that is settled, voided or being sent is not sent again.
use vadum.Base.{◌≡◌, false, ◌&&◌, ℕ, List, All, All-map}
use vadum.Base.Text.{Text}
use vadum.Core.Canonical.Wire.{TransactionKit}
use vadum.Core.Kit.{Derivation, Crypto, KeyPair}
use vadum.Client.Queue.Drain.{Turn, snapshot, drain, drain_all}
use vadum.Client.Queue.Duplicates.{Later, here, called, drained, loaded, restarted}
use vadum.Client.Queue.Preserved.{Kept, run_call-keeps, drain-keeps, drain_all-keeps}
use vadum.Client.Queue.State.{QueuedPayment, QueueLimits, Runtime, QueueState, has_id}
use vadum.Client.Queue.Idle.{
  Idle, is_waiting, save-Idle, accept-Idle, expire-Idle, save_meta-Idle, fit_of_other,
  snapshot-others,
}
use vadum.Client.Queue.IdleLoads.{load-Idle, load-restart-Idle}

module _ (rt : Runtime) (limits : QueueLimits) where
  Idle-Kept :
      (id : Text) → Kept rt limits (Idle id) (λ p. (has_id id p && is_waiting p.state) ≡ false)
  Idle-Kept id = record {
    by_save = λ writable p q. save-Idle writable p q id;
    by_accept =
        λ w now payment tier amount pre q. accept-Idle rt limits w now payment tier amount pre q id;
    by_void = λ writable now q. expire-Idle rt limits writable now q id;
    by_load = λ reads q. load-Idle rt reads q id;
    by_count = λ n q k. record {
      known = record { in_map = k.known.in_map; in_store = k.known.in_store };
      in_map = k.in_map;
      in_store = k.in_store;
    };
    by_meta = λ writable q. save_meta-Idle writable q id;
  }

  drain-Idle :
      (d : Derivation) (c : Crypto) (t : TransactionKit) (key : KeyPair) (turn : ℕ → Turn)
      (q : QueueState) (id : Text)
      → Idle id q
      → Idle id (drain rt limits d c t key turn q).1
  drain-Idle d c t key turn q id k =
      drain-keeps rt limits (Idle id) (λ p. (has_id id p && is_waiting p.state) ≡ false)
        (Idle-Kept id) d c t key turn q
        (All-map (λ p. has_id id p ≡ false) _ (fit_of_other id) _
          (snapshot-others rt limits id q k))
        k

module _ (rt : Runtime) (limits : QueueLimits) (d : Derivation) (c : Crypto) (t : TransactionKit)
    (key : KeyPair) where
  Later-Idle :
      {q r : QueueState} (id : Text) → Later rt limits d c t key q r → Idle id q → Idle id r
  Later-Idle id here k = k
  Later-Idle id (called call l) k =
      run_call-keeps rt limits (Idle id) _ (Idle-Kept rt limits id) call _ (Later-Idle id l k)
  Later-Idle id (drained turn l) k = drain-Idle rt limits d c t key turn _ id (Later-Idle id l k)
  Later-Idle id (loaded reads l) k = load-Idle rt reads _ id (Later-Idle id l k)
  Later-Idle id (restarted reads l h) k = load-restart-Idle rt reads _ _ _ id h (Later-Idle id l k)

  -- A drain that goes on with payments of other keys keeps a key idle.
  drain_all-Idle :
      (turn : ℕ → Turn) (i : ℕ) (ps : List QueuedPayment) (q : QueueState) (id : Text)
      → All (λ p. has_id id p ≡ false) ps
      → Idle id q
      → Idle id (drain_all rt limits d c t key turn i ps q).1
  drain_all-Idle turn i ps q id others k =
      drain_all-keeps rt limits (Idle id) (λ p. (has_id id p && is_waiting p.state) ≡ false)
        (Idle-Kept rt limits id) d c t key turn i ps q
        (All-map (λ p. has_id id p ≡ false) _ (fit_of_other id) ps others) k

  -- Where the map and the store know a key and hold no queued or failed payment with it (it is
  -- settled, voided, or still marked as being sent by a drain that has ended), and a drain that is
  -- running, if there is one, is between two payments and has only payments with other keys left,
  -- then after the rest of that drain and after any calls of `accept`, `expire`, `drain` and
  -- `load` and any restarts with a `load` that answers, each begun after the former has ended,
  -- except that calls of `accept`, `expire` and `load` may also run during a drain, no payment
  -- with that key is among those that a next drain would send.
  pub snapshot-Idle :
      (id : Text) (turn : ℕ → Turn) (i : ℕ) (left : List QueuedPayment) (q r : QueueState)
      → Idle id q
      → All (λ p. has_id id p ≡ false) left
      → Later rt limits d c t key (drain_all rt limits d c t key turn i left q).1 r
      → All (λ p. has_id id p ≡ false) (snapshot rt limits r)
  snapshot-Idle id turn i left q r k others l =
      snapshot-others rt limits id r (Later-Idle id l (drain_all-Idle turn i left q id others k))
