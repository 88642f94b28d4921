-- ===== src/Client/Queue/IdleLoads.antt =====
-- packages/client/src/queue.ts: a load brings no payment that would be sent.
use vadum.Base.{
  ◌≡◌, refl, ap, subst, ◌∙◌, Bool, true, false, List, [], ◌∷◌, arith, Bool-cases, inl, inr,
}
use vadum.Base.Text.{Text}
use vadum.Core.Errors.{ok}
use vadum.Client.Queue.Load.{Reads, read_keys, load_all, load_meta, load, restart}
use vadum.Client.Queue.Loaded.{load-Known, load-restart-Known, load_all-stored, read_keys-stored}
use vadum.Client.Queue.Preserved.{then_run-keeps, then_run-keeps_at}
use vadum.Client.Queue.State.{QueuedPayment, Runtime, QueueState, set_payment}
use vadum.Client.Queue.Idle.{sends, sends-set_payment, Idle}

load_all-sends :
    (readable : QueuedPayment → Bool) (ps : List QueuedPayment) (q : QueueState) (id : Text)
    → sends id ps ≡ false
    → sends id q.payments ≡ false
    → sends id (load_all readable ps q).1.payments ≡ false
unfolding load_all
load_all-sends readable [] q id h k = k
load_all-sends readable (p ∷ ps) q id h k =
    let rest =
      load_all-sends readable ps (record q { payments = set_payment p q.payments }) id
        (ground arith) (sends-set_payment id p q.payments (ground arith) k) in
    elim (Bool-cases (readable p)) [ inl e ↦ rw e rest | inr e ↦ rw e k ]

-- No payment with the key, in the map or in the store, that would be sent.
record NoSends (id : Text) (q : QueueState) : Type 0 where
  pub in_map : sends id q.payments ≡ false
  pub in_store : sends id q.stored ≡ false

read_keys-NoSends :
    (b : Bool) (q : QueueState) (id : Text) → NoSends id q → NoSends id (read_keys b q).1
unfolding read_keys
read_keys-NoSends true q id k = k
read_keys-NoSends false q id k = k

load_meta-NoSends :
    (b : Bool) (q : QueueState) (id : Text) → NoSends id q → NoSends id (load_meta b q).1
unfolding load_meta
load_meta-NoSends true q id k = record { in_map = k.in_map; in_store = k.in_store }
load_meta-NoSends false q id k = k

-- A load brings no payment that would be sent.
load-NoSends :
    (rt : Runtime) (reads : Reads) (q : QueueState) (id : Text)
    → NoSends id q
    → NoSends id (load rt reads q).1
unfolding load
load-NoSends rt reads q id k =
    then_run-keeps_at (NoSends id) (read_keys reads.keys q) _ (read_keys-NoSends reads.keys q id k)
      (λ stored q1 h1 k1.
        let from : stored ≡ q.stored = read_keys-stored reads.keys q q1 stored h1 in
        then_run-keeps (NoSends id) (load_all reads.payment stored q1) _
          (record {
            in_map =
                load_all-sends reads.payment stored q1 id (ap (sends id) from ∙ k.in_store)
                  k1.in_map;
            in_store = ap (sends id) (load_all-stored reads.payment stored q1) ∙ k1.in_store;
          })
          (λ u q2 k2.
            then_run-keeps (NoSends id) (load_meta reads.meta q2) _
              (load_meta-NoSends reads.meta q2 id k2) (λ v q3 k3. k3)))

no_sends : {id : Text} {q : QueueState} → Idle id q → NoSends id q
no_sends k = record { in_map = k.in_map; in_store = k.in_store }

pub load-Idle :
    (rt : Runtime) (reads : Reads) (q : QueueState) (id : Text)
    → Idle id q
    → Idle id (load rt reads q).1
load-Idle rt reads q id k =
    let rest = load-NoSends rt reads q id (no_sends k) in
    record {
      known = load-Known rt reads q id k.known;
      in_map = rest.in_map;
      in_store = rest.in_store;
    }

pub load-restart-Idle :
    (rt : Runtime) (reads : Reads) (q r : QueueState) (ps : List QueuedPayment) (id : Text)
    → load rt reads (restart q) ≡ (ok ps, r)
    → Idle id q
    → Idle id r
unfolding restart
load-restart-Idle rt reads q r ps id h k =
    let clear : NoSends id (restart q) = record { in_map = refl; in_store = k.in_store } in
    let rest : NoSends id r =
      subst (λ x. NoSends id x.1) h (load-NoSends rt reads (restart q) id clear) in
    record {
      known = load-restart-Known rt reads q r ps id h k.known;
      in_map = rest.in_map;
      in_store = rest.in_store;
    }
