-- ===== src/Client/Pool/Keeps.antt =====
-- Which calls leave the spend log as it is: all but `reserve_slot`.
use vadum.Base.{
  [], ◌∷◌, arith, ℕ, ◌≡◌, refl, ap, sym, ◌∙◌, Bool, true, false, Option, none, some, List, ◌⊎◌, inl,
  inr,
}
use vadum.Base.Number.{Number}
use vadum.Base.Text.{Text}
use vadum.Core.Errors.{Result, ok, err, >>=-eq-ok, ok-injective}
use vadum.Core.Kit.{Kit, Derivation, Crypto, KeyPair}
use vadum.Core.NonceReturn.{ReceivedReturn}
use vadum.Client.Rpc.{Rpc}
use vadum.Client.Pool.Memory.{
  Memory, M, and_then, ◌>>=◌, pure, lift, load, loaded, loaded_from, persist, ledger,
}
use vadum.Client.Pool.State.{
  PoolOptions, SpentAgainst, PoolState, PoolSlot, PoolStatus, SpendEntry, or_empty, log_of,
  with_slot,
}
use vadum.Client.Pool.Offline.{apply_nonce_return}
use vadum.Client.Pool.Offline.{spent_record}
use vadum.Client.Pool.Chain.{Reconciled, reconcile_slot, reconcile_step, reconcile_slots}
use vadum.Client.Pool.Online.{prior_spend_log, refresh, create, recover, close, reconcile}

-- The log of a ledger; one that is not there has the empty log.
unfoldable pub entries : Option PoolState → List SpendEntry
entries s = or_empty (log_of s)

-- The ledger in use has the log that it had, and the store has that log or the one it had.
pub record Keeps (m m' : Memory) : Type 0 where
  pub in_use : entries (ledger m') ≡ entries (ledger m)
  pub in_store : (entries m'.stored ≡ entries (ledger m)) ⊎ (entries m'.stored ≡ entries m.stored)

pub Keeps-refl : (m : Memory) → Keeps m m
Keeps-refl m = record { in_use = refl; in_store = inr refl }

pub Keeps-trans : {a b c : Memory} → Keeps a b → Keeps b c → Keeps a c
Keeps-trans p q = record {
  in_use = q.in_use ∙ p.in_use;
  in_store = elim q.in_store [
    | inl e ↦ inl (e ∙ p.in_use)
    | inr e ↦ elim p.in_store [ inl f ↦ inl (e ∙ f) | inr f ↦ inr (e ∙ f) ]
  ];
}

unfoldable pub KeepsAt : {A : Type 0} → Memory → M A → Type 0
KeepsAt m f = Keeps m (f m).1

and_then-Keeps :
    {A B : Type 0} (m : Memory) (r : Result A × Memory) (f : A → M B)
    → Keeps m r.1
    → ((a : A) → KeepsAt r.1 (f a))
    → Keeps m (and_then r f).1
unfolding KeepsAt
and_then-Keeps m (ok a, m') f k h = Keeps-trans k (h a)
and_then-Keeps m (err e, m') f k h = k

lift-Keeps :
    {A B : Type 0} (m : Memory) (r : Result A) (f : A → M B)
    → ((a : A) → KeepsAt m (f a))
    → KeepsAt m (lift r >>= f)
unfolding KeepsAt ◌>>=◌ lift
lift-Keeps m r f h = and_then-Keeps m (r, m) f (Keeps-refl m) h

-- The same, where the continuation may use what the call answered.
lift_with-Keeps :
    {A B : Type 0} (m : Memory) (r : Result A) (f : A → M B)
    → ((a : A) → r ≡ ok a → KeepsAt m (f a))
    → KeepsAt m (lift r >>= f)
unfolding KeepsAt ◌>>=◌ lift
lift_with-Keeps m (ok a) f h = h a refl
lift_with-Keeps m (err e) f h = Keeps-refl m

loaded_from-Keeps :
    {B : Type 0} (m : Memory) (s : Option PoolState) (f : PoolState → M B)
    → ledger m ≡ s
    → ((s : PoolState) (m' : Memory) → ledger m' ≡ some s → KeepsAt m' (f s))
    → Keeps m (and_then (loaded_from s m) f).1
unfolding KeepsAt loaded_from ledger
loaded_from-Keeps m none f e h = Keeps-refl m
loaded_from-Keeps m (some s) f e h =
    let m' : Memory = record m { current = some s } in
    let same : entries (ledger m') ≡ entries (ledger m) = ap entries (sym e) in
    Keeps-trans (record { in_use = same; in_store = inr refl }) (h s m' refl)

persist-Keeps :
    (writable : Bool) (m : Memory) (s : PoolState)
    → or_empty s.spend_log ≡ entries (ledger m)
    → KeepsAt m (persist writable s)
unfolding KeepsAt persist entries ledger log_of
persist-Keeps true m s e = record { in_use = e; in_store = inl e }
persist-Keeps false m s e = record { in_use = e; in_store = inr refl }

-- Each of the calls below keeps the log, whatever the network answers and wherever it stops.
loaded-Keeps :
    {B : Type 0} (m : Memory) (f : PoolState → M B)
    → ((s : PoolState) (m' : Memory) → ledger m' ≡ some s → KeepsAt m' (f s))
    → KeepsAt m (loaded >>= f)
unfolding KeepsAt ◌>>=◌ loaded
loaded-Keeps m f h = loaded_from-Keeps m (ledger m) f refl h

persist_then :
    {B : Type 0} (writable : Bool) (m : Memory) (s : PoolState) (f : PoolStatus → M B)
    → or_empty s.spend_log ≡ entries (ledger m)
    → ((st : PoolStatus) (m' : Memory) → KeepsAt m' (f st))
    → KeepsAt m (persist writable s >>= f)
unfolding KeepsAt ◌>>=◌
persist_then writable m s f e h =
    and_then-Keeps m (persist writable s m) f (persist-Keeps writable m s e) (λ st. h st _)

pure-Keeps : {A : Type 0} (m : Memory) (a : A) → KeepsAt m (pure a)
unfolding KeepsAt pure
pure-Keeps m a = Keeps-refl m

pub log_in_use :
    (m : Memory) (s : PoolState) → ledger m ≡ some s → or_empty s.spend_log ≡ entries (ledger m)
unfolding entries log_of
log_in_use m s e = sym (ap (λ x. or_empty (log_of x)) e)

with_slot-log :
    (s : PoolState) (slot : PoolSlot) → or_empty (with_slot s slot).spend_log ≡ or_empty s.spend_log
unfolding with_slot
with_slot-log s slot = refl

prior-Keeps :
    {B : Type 0} (m : Memory) (f : List SpendEntry → M B)
    → KeepsAt m (f (entries (ledger m)))
    → KeepsAt m (prior_spend_log >>= f)
unfolding KeepsAt ◌>>=◌ prior_spend_log entries
prior-Keeps m f h = h

pub apply_nonce_return-Keeps :
    (k : Kit) (c : Crypto) (payer : Text) (writable : Bool) (r : ReceivedReturn) (m : Memory)
    → KeepsAt m (apply_nonce_return k c payer writable r)
unfolding apply_nonce_return
apply_nonce_return-Keeps k c payer writable r m = loaded-Keeps m _ λ s m' e.
    lift-Keeps m' _ _ λ slot. lift-Keeps m' _ _ λ entry.
      lift-Keeps m' _ _
        λ statement. persist-Keeps writable m' _ (with_slot-log _ _ ∙ log_in_use m' s e)

log_after : Reconciled → List SpendEntry
log_after r = or_empty r.state.spend_log

reconcile_slot-log :
    (window now : ℕ) (slot : PoolSlot) (entry : SpentAgainst) (value : Option Text) (r : Reconciled)
    → log_after (reconcile_slot window now slot entry value r) ≡ log_after r
unfolding reconcile_slot log_after with_slot
reconcile_slot-log window now slot entry none r = refl
reconcile_slot-log window now slot entry (some value) r = ground arith

reconcile_step-log :
    (rpc : Rpc) (window now : ℕ) (slot : PoolSlot) (entry : Option SpentAgainst)
    (r next : Reconciled)
    → reconcile_step rpc window now slot entry r ≡ ok next
    → log_after next ≡ log_after r
unfolding reconcile_step
reconcile_step-log rpc window now slot none r next h = ap log_after (sym (ok-injective h))
reconcile_step-log rpc window now slot (some entry) r next h =
    let (account, p, q) = >>=-eq-ok (rpc.nonce_account slot.address) _ h in
    ap log_after (sym (ok-injective q)) ∙ reconcile_slot-log window now slot entry _ r

reconcile_slots-log :
    (rpc : Rpc) (window now : ℕ) (slots : List PoolSlot) (r last : Reconciled)
    → reconcile_slots rpc window now slots r ≡ ok last
    → log_after last ≡ log_after r
unfolding reconcile_slots
reconcile_slots-log rpc window now [] r last h = ap log_after (sym (ok-injective h))
reconcile_slots-log rpc window now (slot ∷ slots) r last h =
    let (next, p, q) = >>=-eq-ok (reconcile_step rpc window now slot (spent_record slot) r) _ h in
    reconcile_slots-log rpc window now slots next last q
    ∙ reconcile_step-log rpc window now slot (spent_record slot) r next p

reconcile_slots_keep_log :
    (rpc : Rpc) (o : PoolOptions) (now : ℕ) (s : PoolState) (r : Reconciled)
    → reconcile_slots rpc o.send_window now s.slots
        (record { state = s; released = []; settled = []; still_pending = [] })
      ≡ ok r
    → or_empty r.state.spend_log ≡ or_empty s.spend_log
unfolding log_after
reconcile_slots_keep_log rpc o now s r h = reconcile_slots-log rpc o.send_window now s.slots _ r h

module _ (rpc : Rpc) (d : Derivation) (c : Crypto) (payer : Text) (writable : Bool) where
  pub refresh-Keeps : (m : Memory) → KeepsAt m (refresh rpc d c payer writable)
  unfolding refresh
  refresh-Keeps m =
      loaded-Keeps m _
        λ s m' e. lift-Keeps m' _ _ λ slots. persist-Keeps writable m' _ (log_in_use m' s e)

  pub create-Keeps :
      (uuid : Text) (size : Number) (key : KeyPair) (m : Memory)
      → KeepsAt m (create rpc d c payer writable uuid size key)
  unfolding create
  create-Keeps uuid size key m = lift-Keeps m _ _ λ n. lift-Keeps m _ _ λ u.
      lift-Keeps m _ _ λ cost. lift-Keeps m _ _ λ balance. lift-Keeps m _ _ λ u2.
        lift-Keeps m _ _ λ both.
          lift-Keeps m _ _
            λ u3. prior-Keeps m _ (persist_then writable m _ _ refl λ st m'. refresh-Keeps m')

  pub recover-Keeps :
      (uuid : Text) (max_probe : ℕ) (m : Memory)
      → KeepsAt m (recover rpc d c payer writable uuid max_probe)
  unfolding recover
  recover-Keeps uuid max_probe m =
      lift-Keeps m _ _
        λ slots. lift-Keeps m _ _ λ u. prior-Keeps m _ (persist-Keeps writable m _ refl)

  pub close-Keeps : (key : KeyPair) (m : Memory) → KeepsAt m (close rpc d c payer writable key)
  unfolding close
  close-Keeps key m = loaded-Keeps m _ λ s m' e. lift-Keeps m' _ _ λ u. lift-Keeps m' _ _ λ balance.
      lift-Keeps m' _ _ λ minimum. lift-Keeps m' _ _ λ u2. lift-Keeps m' _ _ λ both.
        lift-Keeps m' _ _
          λ u3. persist_then writable m' _ _ (log_in_use m' s e) λ st m''. pure-Keeps m'' _

  pub reconcile-Keeps :
      (o : PoolOptions) (now : ℕ) (m : Memory) → KeepsAt m (reconcile rpc d c payer writable o now)
  unfolding reconcile
  reconcile-Keeps o now m = loaded-Keeps m _ λ s m' e. lift_with-Keeps m' _ _ λ r h.
      persist_then writable m' _ _ (reconcile_slots_keep_log rpc o now s r h ∙ log_in_use m' s e)
        λ st m''. pure-Keeps m'' _

pub load-Keeps : (m : Memory) → KeepsAt m load
unfolding load
load-Keeps m = loaded-Keeps m _ λ s m' e. pure-Keeps m' _
