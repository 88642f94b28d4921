-- ===== src/Client/Queue/Loaded.antt =====
-- packages/client/src/queue.ts: a key in the map and in the store, and what `set` and `load` do to it.
use vadum.Base.{
  ◌≡◌, ◌≢◌, refl, subst, ap, sym, ◌∙◌, Bool, true, false, List, [], ◌∷◌, arith, Bool-cases, inl,
  inr,
}
use vadum.Base.Text.{Text, text_eq, text_eq_refl, text_eq→eq}
use vadum.Core.Errors.{ok, ok-injective}
use vadum.Client.Queue.State.{QueuedPayment, Runtime, QueueState, has_id, has, set_payment, set_all}
use vadum.Client.Queue.Load.{Reads, read_keys, load_all, load_meta, load, restart}
use vadum.Client.Queue.Preserved.{then_run-keeps, then_run-eq-ok}

pub has-set_payment :
    (p : QueuedPayment) (ps : List QueuedPayment) → has (set_payment p ps) p.id ≡ true
unfolding has set_payment has_id
has-set_payment p [] = let r = text_eq_refl p.id in ground arith
has-set_payment p (x ∷ xs) =
    let r = text_eq_refl p.id in
    let rest = has-set_payment p xs in
    elim (Bool-cases (text_eq x.id p.id)) [ inl e ↦ rw (e, r) | inr e ↦ rw e (rw e rest) ]

pub set_payment-keeps :
    (p : QueuedPayment) (ps : List QueuedPayment) (id : Text)
    → has ps id ≡ true
    → has (set_payment p ps) id ≡ true
unfolding has set_payment has_id
set_payment-keeps p [] id h = cc
set_payment-keeps p (x ∷ xs) id h = elim (Bool-cases (text_eq x.id p.id)) [
  | inl e ↦ let same : x.id ≡ p.id = text_eq→eq x.id p.id e in rw (e, sym same) h
  | inr e ↦ elim (Bool-cases (text_eq x.id id)) [
    | inl f ↦ rw (e, f)
    | inr f ↦ rw (e, f) (set_payment-keeps p xs id (ground arith))
  ]
]

pub set_all-keeps :
    (ps all : List QueuedPayment) (id : Text) → has all id ≡ true → has (set_all ps all) id ≡ true
unfolding set_all
set_all-keeps [] all id h = h
set_all-keeps (p ∷ ps) all id h =
    set_all-keeps ps (set_payment p all) id (set_payment-keeps p all id h)

-- The key is in the map and in the store.
pub record Known (id : Text) (q : QueueState) : Type 0 where
  pub in_map : has q.payments id ≡ true
  pub in_store : has q.stored id ≡ true

load_all-has :
    (readable : QueuedPayment → Bool) (ps : List QueuedPayment) (q : QueueState) (id : Text)
    → has q.payments id ≡ true
    → has (load_all readable ps q).1.payments id ≡ true
unfolding load_all
load_all-has readable [] q id h = h
load_all-has readable (p ∷ ps) q id h = elim (Bool-cases (readable p)) [
  | inl e ↦ rw e (
      load_all-has readable ps (record q { payments = set_payment p q.payments }) id
        (set_payment-keeps p q.payments id h))
  | inr e ↦ rw e h
]

pub load_all-stored :
    (readable : QueuedPayment → Bool) (ps : List QueuedPayment) (q : QueueState)
    → (load_all readable ps q).1.stored ≡ q.stored
unfolding load_all
load_all-stored readable [] q = refl
load_all-stored readable (p ∷ ps) q = elim (Bool-cases (readable p)) [
  | inl e ↦ rw e (load_all-stored readable ps (record q { payments = set_payment p q.payments }))
  | inr e ↦ rw e
]

load_all-Known :
    (readable : QueuedPayment → Bool) (ps : List QueuedPayment) (q : QueueState) (id : Text)
    → Known id q
    → Known id (load_all readable ps q).1
load_all-Known readable ps q id k = record {
  in_map = load_all-has readable ps q id k.in_map;
  in_store = ap (λ xs. has xs id) (load_all-stored readable ps q) ∙ k.in_store;
}

read_keys-Known : (b : Bool) (q : QueueState) (id : Text) → Known id q → Known id (read_keys b q).1
unfolding read_keys
read_keys-Known true q id k = k
read_keys-Known false q id k = k

load_meta-Known : (b : Bool) (q : QueueState) (id : Text) → Known id q → Known id (load_meta b q).1
unfolding load_meta
load_meta-Known true q id k = record { in_map = k.in_map; in_store = k.in_store }
load_meta-Known false q id k = k

pub load-Known :
    (rt : Runtime) (reads : Reads) (q : QueueState) (id : Text)
    → Known id q
    → Known id (load rt reads q).1
unfolding load
load-Known rt reads q id k =
    then_run-keeps (Known id) (read_keys reads.keys q) _ (read_keys-Known reads.keys q id k)
      (λ stored q1 k1.
        then_run-keeps (Known id) (load_all reads.payment stored q1) _
          (load_all-Known reads.payment stored q1 id k1)
          (λ u q2 k2.
            then_run-keeps (Known id) (load_meta reads.meta q2) _
              (load_meta-Known reads.meta q2 id k2) (λ v q3 k3. k3)))

pub load_all-read :
    (readable : QueuedPayment → Bool) (p : QueuedPayment) (ps : List QueuedPayment) (q : QueueState)
    → readable p ≡ true
    → load_all readable (p ∷ ps) q
      ≡ load_all readable ps (record q { payments = set_payment p q.payments })
unfolding load_all
load_all-read readable p ps q e = rw e

pub load_all-unread :
    (readable : QueuedPayment → Bool) (p : QueuedPayment) (ps : List QueuedPayment)
    (q q' : QueueState) (u : Unit {0})
    → readable p ≡ false
    → load_all readable (p ∷ ps) q ≢ (ok u, q')
unfolding load_all
load_all-unread readable p ps q q' u e h = cc (e, h)

-- A load of the stored payments that answers has put each of them into the map.
load_all-brings :
    (readable : QueuedPayment → Bool) (ps : List QueuedPayment) (q q' : QueueState) (id : Text)
    (u : Unit {0})
    → load_all readable ps q ≡ (ok u, q')
    → has ps id ≡ true
    → has q'.payments id ≡ true
unfolding load_all has has_id
load_all-brings readable [] q q' id u h k = absurd (cc k)
load_all-brings readable (p ∷ ps) q q' id u h k = elim (Bool-cases (readable p)) [
  | inr e ↦ absurd (load_all-unread readable p ps q q' u e h)
  | inl e ↦
      let q1 : QueueState = record q { payments = set_payment p q.payments } in
      let loaded : load_all readable ps q1 ≡ (ok u, q') =
        sym (load_all-read readable p ps q e) ∙ h in
      elim (Bool-cases (has_id id p)) [
        | inl f ↦
            let same : p.id ≡ id = text_eq→eq p.id id f in
            let there : has q1.payments id ≡ true =
              subst (λ x. has q1.payments x ≡ true) same (has-set_payment p q.payments) in
            ap (λ r. has r.1.payments id) (sym loaded) ∙ load_all-has readable ps q1 id there
        | inr f ↦ load_all-brings readable ps q1 q' id u loaded (ground arith)
      ]
]

pub read_keys-stored :
    (b : Bool) (q q' : QueueState) (ps : List QueuedPayment)
    → read_keys b q ≡ (ok ps, q')
    → ps ≡ q.stored
unfolding read_keys
read_keys-stored true q q' ps h = sym (ok-injective (ap (λ r. r.0) h))
read_keys-stored false q q' ps h = absurd (cc h)

pub read_keys-store : (b : Bool) (q : QueueState) → (read_keys b q).1.stored ≡ q.stored
unfolding read_keys
read_keys-store true q = refl
read_keys-store false q = refl

pub load_meta-store : (b : Bool) (q : QueueState) → (load_meta b q).1.stored ≡ q.stored
unfolding load_meta
load_meta-store true q = refl
load_meta-store false q = refl

load_meta-payments :
    (b : Bool) (q q' : QueueState) (u : Unit {0})
    → load_meta b q ≡ (ok u, q')
    → q'.payments ≡ q.payments
unfolding load_meta
load_meta-payments true q q' u h = ap (λ r. r.1.payments) (sym h)
load_meta-payments false q q' u h = absurd (cc h)

load-brings :
    (rt : Runtime) (reads : Reads) (q r : QueueState) (ps : List QueuedPayment) (id : Text)
    → load rt reads q ≡ (ok ps, r)
    → has q.stored id ≡ true
    → has r.payments id ≡ true
unfolding load
load-brings rt reads q r ps id h k =
    let (stored, q1, h1, rest1) = then_run-eq-ok (read_keys reads.keys q) _ h in
    let (u, q2, h2, rest2) = then_run-eq-ok (load_all reads.payment stored q1) _ rest1 in
    let (v, q3, h3, rest3) = then_run-eq-ok (load_meta reads.meta q2) _ rest2 in
    let same : stored ≡ q.stored = read_keys-stored reads.keys q q1 stored h1 in
    let brought : has q2.payments id ≡ true =
      load_all-brings reads.payment stored q1 q2 id u h2
        (subst (λ xs. has xs id ≡ true) (sym same) k) in
    let kept : has q3.payments id ≡ true =
      ap (λ xs. has xs id) (load_meta-payments reads.meta q2 q3 v h3) ∙ brought in
    ap (λ x. has x.1.payments id) (sym rest3) ∙ kept

pub load-keeps_store :
    (rt : Runtime) (reads : Reads) (q : QueueState) → (load rt reads q).1.stored ≡ q.stored
unfolding load
load-keeps_store rt reads q =
    then_run-keeps (λ x. x.stored ≡ q.stored) (read_keys reads.keys q) _
      (read_keys-store reads.keys q)
      (λ stored q1 k1.
        then_run-keeps (λ x. x.stored ≡ q.stored) (load_all reads.payment stored q1) _
          (load_all-stored reads.payment stored q1 ∙ k1)
          (λ u q2 k2.
            then_run-keeps (λ x. x.stored ≡ q.stored) (load_meta reads.meta q2) _
              (load_meta-store reads.meta q2 ∙ k2) (λ v q3 k3. k3)))

pub load-restart-Known :
    (rt : Runtime) (reads : Reads) (q r : QueueState) (ps : List QueuedPayment) (id : Text)
    → load rt reads (restart q) ≡ (ok ps, r)
    → Known id q
    → Known id r
unfolding restart
load-restart-Known rt reads q r ps id h k = record {
  in_map = load-brings rt reads (restart q) r ps id h k.in_store;
  in_store =
      ap (λ x. has x.1.stored id) (sym h)
      ∙ ap (λ xs. has xs id) (load-keeps_store rt reads (restart q))
      ∙ k.in_store;
}
