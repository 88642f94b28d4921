-- ===== src/Client/Pool/Returns.antt =====
-- What `applyNonceReturn` demands before it re-arms a slot.
use vadum.Base.{◌≡◌, refl, ap, sym, ◌∙◌, Bool, true, false, Option, none, some}
use vadum.Base.Text.{Text}
use vadum.Core.Errors.{Result, ok, err, or_throw-eq-ok}
use vadum.Core.Kit.{Kit, Crypto}
use vadum.Core.NonceReturn.{ReceivedReturn}
use vadum.Core.NonceReturn.Verified.{Signed, verify_nonce_return-Signed}
use vadum.Client.Pool.State.{
  unspent, SpentAgainst, PoolState, PoolSlot, PoolStatus, with_slot, rearmed,
}
use vadum.Client.Pool.Memory.{
  Memory, M, and_then, ◌>>=◌, lift, loaded, loaded_from, persist, ledger,
}
use vadum.Client.Pool.Offline.{slot_at, spent_record, apply_nonce_return}

lift-eq-ok :
    {A B : Type 0} (r : Result A) (f : A → M B) (m : Memory) {b : B} {m' : Memory}
    → (lift r >>= f) m ≡ (ok b, m')
    → (a : A) × (r ≡ ok a) × (f a m ≡ (ok b, m'))
unfolding ◌>>=◌ lift
lift-eq-ok (ok a) f m h = (a, refl, h)
lift-eq-ok (err e) f m h = cc

loaded_from-eq-ok :
    {B : Type 0} (s : Option PoolState) (f : PoolState → M B) (m : Memory) {b : B} {m' : Memory}
    → and_then (loaded_from s m) f ≡ (ok b, m')
    → (l : PoolState) × (s ≡ some l) × (f l (record m { current = some l }) ≡ (ok b, m'))
unfolding loaded_from
loaded_from-eq-ok none f m h = cc
loaded_from-eq-ok (some l) f m h = (l, refl, h)

loaded-eq-ok :
    {B : Type 0} (f : PoolState → M B) (m : Memory) {b : B} {m' : Memory}
    → (loaded >>= f) m ≡ (ok b, m')
    → (l : PoolState) × (ledger m ≡ some l) × (f l (record m { current = some l }) ≡ (ok b, m'))
unfolding loaded ◌>>=◌
loaded-eq-ok f m h = loaded_from-eq-ok (ledger m) f m h

persist-eq-ok :
    (writable : Bool) (s : PoolState) (m : Memory) {st : PoolStatus} {m' : Memory}
    → persist writable s m ≡ (ok st, m')
    → (ledger m' ≡ some s) × (m'.stored ≡ some s)
unfolding persist ledger
persist-eq-ok true s m {m' = m'} h =
    let e : record { current = some s; stored = some s } ≡ m' = ap (λ x. x.1) h in
    (ap (λ x. ledger x) (sym e), ap (λ x. x.stored) (sym e))
persist-eq-ok false s m h = cc

-- The slot that a return re-arms, and the record that the ledger held of it.
pub record Rearmed (k : Kit) (c : Crypto) (payer : Text) (r : ReceivedReturn) (m m' : Memory)
    : Type 0 where
  pub before : PoolState
  pub slot : PoolSlot
  pub entry : SpentAgainst
  pub was_in_use : ledger m ≡ some before
  pub at_index : slot_at r.nonce_index before.slots ≡ some slot
  pub was_spent : spent_record slot ≡ some entry
  pub signed :
      Signed k c r
        (record { payer = payer; merchant = entry.merchant; spent_against_value = entry.value })
  pub in_use :
      ledger m' ≡ some (with_slot before (rearmed slot (some r.new_nonce_value) unspent none))
  pub in_store : m'.stored ≡ ledger m'

-- Where `applyNonceReturn` answers, the ledger held a spent record for the slot of the index of
-- the return, the signature covers this payer, that index, the value of the record and the new
-- value under the key of the merchant of the record, the new value differs from the spent one, and
-- the one change to the ledger, in use and stored, is that the slot is unspent at the new value.
pub apply_nonce_return-Rearmed :
    (k : Kit) (c : Crypto) (payer : Text) (writable : Bool) (r : ReceivedReturn) (m m' : Memory)
    (st : PoolStatus)
    → apply_nonce_return k c payer writable r m ≡ (ok st, m')
    → Rearmed k c payer r m m'
unfolding apply_nonce_return
apply_nonce_return-Rearmed k c payer writable r m m' st h =
    let (s, e, h1) = loaded-eq-ok _ m h in
    let (slot, p, h2) = lift-eq-ok _ _ _ h1 in
    let (entry, q, h3) = lift-eq-ok _ _ _ h2 in
    let (statement, v, h4) = lift-eq-ok _ _ _ h3 in
    let (used, stored) = persist-eq-ok writable _ _ h4 in
    record {
      before = s;
      slot = slot;
      entry = entry;
      was_in_use = e;
      at_index = or_throw-eq-ok _ _ p;
      was_spent = or_throw-eq-ok _ _ q;
      signed = (verify_nonce_return-Signed k c r _ statement v).0;
      in_use = used;
      in_store = stored ∙ sym used;
    }
