-- ===== src/Client/Queue/Duplicates.antt =====
-- packages/client/src/queue.ts: rule 13. A payment that was accepted once is refused ever after.
use vadum.Base.{ℕ, ◌≡◌, ap, sym, ◌∙◌, Bool, true, false, Option, List, All-intro}
use vadum.Base.Int.{ℤ}
use vadum.Base.Text.{Text}
use vadum.Core.Canonical.Wire.{TransactionKit}
use vadum.Core.Errors.{Result, ok, err, vadum_error, wire_duplicate_auth}
use vadum.Core.Kit.{Derivation, Crypto, KeyPair}
use vadum.Core.Types.{PaymentTier, VerifiedPayment}
use vadum.Client.NonceCheck.{NonceVerdict}
use vadum.Client.Queue.State.{QueuedPayment, QueueLimits, Runtime, QueueState, payment_id, has}
use vadum.Client.Queue.Accept.{save, new_payment, check, accept_checked, accept, expire}
use vadum.Client.Queue.Drain.{Turn, Call, run_call, save_meta, drain}
use vadum.Client.Queue.Load.{Reads, load, restart}
use vadum.Client.Queue.Loaded.{
  Known, has-set_payment, set_payment-keeps, set_all-keeps, load-Known, load-restart-Known,
}
use vadum.Client.Queue.Preserved.{Kept, run_call-keeps, drain-keeps}

pub save-Known :
    (writable : Bool) (p : QueuedPayment) (q : QueueState) (id : Text)
    → Known id q
    → Known id (save writable p q).1
unfolding save
save-Known true p q id k = record {
  in_map = set_payment-keeps p q.payments id k.in_map;
  in_store = set_payment-keeps p q.stored id k.in_store;
}
save-Known false p q id k = record {
  in_map = set_payment-keeps p q.payments id k.in_map;
  in_store = k.in_store;
}

pub save_meta-Known :
    (writable : Bool) (q : QueueState) (id : Text) → Known id q → Known id (save_meta writable q).1
unfolding save_meta
save_meta-Known true q id k = record { in_map = k.in_map; in_store = k.in_store }
save_meta-Known false q id k = k

-- A save that answers has put the payment into the map and into the store.
save-brings :
    (writable : Bool) (p p' : QueuedPayment) (q q' : QueueState)
    → save writable p q ≡ (ok p', q')
    → Known p.id q'
unfolding save
save-brings true p p' q q' h = record {
  in_map = ap (λ r. has r.1.payments p.id) (sym h) ∙ has-set_payment p q.payments;
  in_store = ap (λ r. has r.1.stored p.id) (sym h) ∙ has-set_payment p q.stored;
}
save-brings false p p' q q' h = absurd (cc h)

module _ (rt : Runtime) (limits : QueueLimits) where
  pub expire-Known :
      (writable : Bool) (now : ℕ) (q : QueueState) (id : Text)
      → Known id q
      → Known id (expire rt limits writable now q).1
  unfolding expire
  expire-Known true now q id k = record {
    in_map = set_all-keeps _ q.payments id k.in_map;
    in_store = set_all-keeps _ q.stored id k.in_store;
  }
  expire-Known false now q id k = record {
    in_map = set_all-keeps _ q.payments id k.in_map;
    in_store = k.in_store;
  }

  accept_checked-keeps :
      (r : Result (Unit {0})) (writable : Bool) (now : ℕ) (payment : VerifiedPayment)
      (tier : PaymentTier) (amount : ℤ) (q : QueueState) (id : Text)
      → Known id q
      → Known id (accept_checked rt limits r writable now payment tier amount q).1
  unfolding accept_checked
  accept_checked-keeps (err e) writable now payment tier amount q id k = k
  accept_checked-keeps (ok u) writable now payment tier amount q id k = save-Known writable _ q id k

  pub accept-keeps :
      (writable : Bool) (now : ℕ) (payment : VerifiedPayment) (tier : PaymentTier) (amount : ℤ)
      (pre : Option NonceVerdict) (q : QueueState) (id : Text)
      → Known id q
      → Known id (accept rt limits writable now payment tier amount pre q).1
  unfolding accept
  accept-keeps writable now payment tier amount pre q id k =
      accept_checked-keeps _ writable now payment tier amount q id k

  Known-Kept : (id : Text) → Kept rt limits (Known id) (λ p. Unit {0})
  Known-Kept id = record {
    by_save = λ writable p q fit. save-Known writable p q id;
    by_accept = λ w now payment tier amount pre q. accept-keeps w now payment tier amount pre q id;
    by_void = λ writable now q. expire-Known writable now q id;
    by_load = λ reads q. load-Known rt reads q id;
    by_count = λ n q k. record { in_map = k.in_map; in_store = k.in_store };
    by_meta = λ writable q. save_meta-Known writable q id;
  }

  module _ (d : Derivation) (c : Crypto) (t : TransactionKit) (key : KeyPair) where
    -- The queues that calls lead to, in any order, also across restarts of the application.
    pub data Later (q : QueueState) : QueueState → Type 0 where
      here : Later q q
      called : {r : QueueState} (call : Call) → Later q r → Later q (run_call rt limits call r)
      drained :
          {r : QueueState} (turn : ℕ → Turn)
          → Later q r
          → Later q (drain rt limits d c t key turn r).1
      loaded : {r : QueueState} (reads : Reads) → Later q r → Later q (load rt reads r).1
      restarted :
          {r s : QueueState} {ps : List QueuedPayment} (reads : Reads)
          → Later q r
          → load rt reads (restart r) ≡ (ok ps, s)
          → Later q s

    pub Later-Known : {q r : QueueState} (id : Text) → Later q r → Known id q → Known id r
    Later-Known id here k = k
    Later-Known id (called call l) k =
        run_call-keeps rt limits (Known id) _ (Known-Kept id) call _ (Later-Known id l k)
    Later-Known id (drained turn l) k =
        drain-keeps rt limits (Known id) (λ p. Unit {0}) (Known-Kept id) d c t key turn _
          (All-intro (λ p. (tt, λ o. tt)) _) (Later-Known id l k)
    Later-Known id (loaded reads l) k = load-Known rt reads _ id (Later-Known id l k)
    Later-Known id (restarted reads l h) k =
        load-restart-Known rt reads _ _ _ id h (Later-Known id l k)

  refused_known :
      (writable : Bool) (now : ℕ) (payment : VerifiedPayment) (tier : PaymentTier) (amount : ℤ)
      (precheck : Option NonceVerdict) (q : QueueState)
      → has q.payments (payment_id rt payment) ≡ true
      → accept rt limits writable now payment tier amount precheck q
        ≡ (err (vadum_error wire_duplicate_auth), q)
  unfolding accept accept_checked check
  refused_known writable now payment tier amount precheck q h = rw h

  accept_checked-Known :
      (c : Result (Unit {0})) (writable : Bool) (now : ℕ) (payment : VerifiedPayment)
      (tier : PaymentTier) (amount : ℤ) (q q' : QueueState) (p : QueuedPayment)
      → accept_checked rt limits c writable now payment tier amount q ≡ (ok p, q')
      → Known (payment_id rt payment) q'
  unfolding accept_checked new_payment
  accept_checked-Known (err e) writable now payment tier amount q q' p h = absurd (cc h)
  accept_checked-Known (ok u) writable now payment tier amount q q' p h =
      save-brings writable (new_payment (payment_id rt payment) payment tier now amount) p q q' h

  -- Once `accept` has answered with a payment, then after any calls of `accept`, `expire`, `drain`
  -- and `load` and any restarts with a `load` that answers, in any order, one after another or,
  -- except for a second drain, during a drain, every further `accept` of the same payment throws
  -- WIRE_DUPLICATE_AUTH and changes nothing, whatever its tier, amount, time and pre-check.
  pub accept-once :
      (d : Derivation) (c : Crypto) (t : TransactionKit) (key : KeyPair) (w1 w2 : Bool)
      (now1 now2 : ℕ) (payment : VerifiedPayment) (tier1 tier2 : PaymentTier) (amount1 amount2 : ℤ)
      (pre1 pre2 : Option NonceVerdict) (q q' r : QueueState) (p : QueuedPayment)
      → accept rt limits w1 now1 payment tier1 amount1 pre1 q ≡ (ok p, q')
      → Later d c t key q' r
      → accept rt limits w2 now2 payment tier2 amount2 pre2 r
        ≡ (err (vadum_error wire_duplicate_auth), r)
  unfolding accept
  accept-once d c t key w1 w2 now1 now2 payment tier1 tier2 amount1 amount2 pre1 pre2 q q' r p h l =
      let known = accept_checked-Known _ w1 now1 payment tier1 amount1 q q' p h in
      let still : Known (payment_id rt payment) r = Later-Known d c t key _ l known in
      refused_known w2 now2 payment tier2 amount2 pre2 r still.in_map
