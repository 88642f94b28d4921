-- ===== src/Client/Pool/SpendLimit.antt =====
-- Everything that one device's pool may go through, and the limit on what it signs in any window.
use vadum.Base.{ℕ, ◌≤◌, sym, subst, Bool, none, List, [], ◌∷◌, ◌++◌, inl, inr, arith}
use vadum.Base.Int.{ℤ, pos, ◌≤ℤ◌, int_laws, parts_of}
use vadum.Base.Number.{Number}
use vadum.Base.Text.{Text}
use vadum.Core.Errors.{Result, ok, err}
use vadum.Core.Kit.{Kit, Derivation, Crypto, KeyPair}
use vadum.Core.NonceReturn.{ReceivedReturn}
use vadum.Client.Rpc.{Rpc}
use vadum.Client.Pool.State.{log_of, PoolOptions, SpendEntry}
use vadum.Client.Pool.Memory.{Memory, M, restart, ledger, load}
use vadum.Client.Pool.Offline.{reserve_slot, apply_nonce_return}
use vadum.Client.Pool.Online.{refresh, create, recover, close, reconcile}
use vadum.Client.Pool.SpendSums.{spent_in, spent_in-nil, spent_in-filter-le}
use vadum.Client.Pool.SpendBounds.{
  in_window, entry_of, Bounds, Bounds-later, logged-Bounds, unsigned-Bounds,
}
use vadum.Client.Pool.Keeps.{
  Keeps, KeepsAt, entries, load-Keeps, apply_nonce_return-Keeps, refresh-Keeps, create-Keeps,
  recover-Keeps, close-Keeps, reconcile-Keeps,
}
use vadum.Client.Pool.Attempt.{After, reserve_slot-After}

-- A payment is signed only where `reserveSlot` answered with a slot.
abbrev pub signed_after {ℓ} : {A : Type ℓ} → Result A → ℕ → ℤ → List SpendEntry → List SpendEntry
signed_after (ok a) now amount signed = signed ++ (entry_of now amount ∷ [])
signed_after (err e) now amount signed = signed

-- The memory, the time of the last reservation and the spends signed so far, after any sequence of
-- calls and restarts. Each call meets its own network, key, wallet and store, and may answer or throw.
-- The times of reservations do not go back.
pub data Reaches (o : PoolOptions) : Memory → ℕ → List SpendEntry → Type 0 where
  opened : Reaches o (record { current = none; stored = none }) 0 []
  reserved :
      {m : Memory} {clock : ℕ} {signed : List SpendEntry} (writable : Bool) (merchant : Text)
      (now : ℕ) (amount : ℤ)
      → clock ≤ now
      → Reaches o m clock signed
      → Reaches o
          (reserve_slot o writable merchant now amount m).1
          now
          (signed_after (reserve_slot o writable merchant now amount m).0 now amount signed)
  restarted :
      {m : Memory} {clock : ℕ} {signed : List SpendEntry}
      → Reaches o m clock signed
      → Reaches o (restart m) clock signed
  loaded :
      {m : Memory} {clock : ℕ} {signed : List SpendEntry}
      → Reaches o m clock signed
      → Reaches o (load m).1 clock signed
  returned :
      {m : Memory} {clock : ℕ} {signed : List SpendEntry} (k : Kit) (c : Crypto) (payer : Text)
      (writable : Bool) (r : ReceivedReturn)
      → Reaches o m clock signed
      → Reaches o (apply_nonce_return k c payer writable r m).1 clock signed
  refreshed :
      {m : Memory} {clock : ℕ} {signed : List SpendEntry} (rpc : Rpc) (d : Derivation) (c : Crypto)
      (payer : Text) (writable : Bool)
      → Reaches o m clock signed
      → Reaches o (refresh rpc d c payer writable m).1 clock signed
  created :
      {m : Memory} {clock : ℕ} {signed : List SpendEntry} (rpc : Rpc) (d : Derivation) (c : Crypto)
      (payer : Text) (writable : Bool) (uuid : Text) (size : Number) (key : KeyPair)
      → Reaches o m clock signed
      → Reaches o (create rpc d c payer writable uuid size key m).1 clock signed
  recovered :
      {m : Memory} {clock : ℕ} {signed : List SpendEntry} (rpc : Rpc) (d : Derivation) (c : Crypto)
      (payer : Text) (writable : Bool) (uuid : Text) (max_probe : ℕ)
      → Reaches o m clock signed
      → Reaches o (recover rpc d c payer writable uuid max_probe m).1 clock signed
  closed :
      {m : Memory} {clock : ℕ} {signed : List SpendEntry} (rpc : Rpc) (d : Derivation) (c : Crypto)
      (payer : Text) (writable : Bool) (key : KeyPair)
      → Reaches o m clock signed
      → Reaches o (close rpc d c payer writable key m).1 clock signed
  reconciled :
      {m : Memory} {clock : ℕ} {signed : List SpendEntry} (rpc : Rpc) (d : Derivation) (c : Crypto)
      (payer : Text) (writable : Bool) (now : ℕ)
      → Reaches o m clock signed
      → Reaches o (reconcile rpc d c payer writable o now m).1 clock signed

-- Both logs, the one in use and the stored one, bound what was signed.
pub record Bounded (o : PoolOptions) (m : Memory) (clock : ℕ) (signed : List SpendEntry)
    : Type 0 where
  pub in_use : Bounds o clock signed (entries (ledger m))
  pub in_store : Bounds o clock signed (entries m.stored)

module _ (o : PoolOptions) (clock : ℕ) (signed : List SpendEntry) where
  Keeps-Bounded :
      {m m' : Memory} → Keeps m m' → Bounded o m clock signed → Bounded o m' clock signed
  Keeps-Bounded k b = record {
    in_use = subst (Bounds o clock signed) (sym k.in_use) b.in_use;
    in_store = elim k.in_store [
      | inl e ↦ subst (Bounds o clock signed) (sym e) b.in_use
      | inr e ↦ subst (Bounds o clock signed) (sym e) b.in_store
    ];
  }

  KeepsAt-Bounded :
      {A : Type 0} {m : Memory} (f : M A)
      → KeepsAt m f
      → Bounded o m clock signed
      → Bounded o (f m).1 clock signed
  unfolding KeepsAt
  KeepsAt-Bounded f k b = Keeps-Bounded k b

  restart-Bounded : {m : Memory} → Bounded o m clock signed → Bounded o (restart m) clock signed
  unfolding restart ledger
  restart-Bounded b = record { in_use = b.in_store; in_store = b.in_store }

  module _ (now : ℕ) (amount : ℤ) (le : clock ≤ now) where
    After-Bounded :
        {A : Type 0} (m : Memory) (r : Result A × Memory)
        → After o now amount m r
        → Bounded o m clock signed
        → Bounded o r.1 now (signed_after r.0 now amount signed)
    unfolding After
    After-Bounded m (ok a, m') (l, e) b =
        let h = logged-Bounds o clock signed _ b.in_use now amount le l.room in
        record {
          in_use = subst (Bounds o now _) (sym l.in_use) h;
          in_store = subst (Bounds o now _) (sym e) h;
        }
    After-Bounded m (err x, m') (inl k) b =
        let h = Keeps-Bounded k b in
        record {
          in_use = Bounds-later o clock signed _ h.in_use now le;
          in_store = Bounds-later o clock signed _ h.in_store now le;
        }
    After-Bounded m (err x, m') (inr (l, e)) b = record {
      in_use =
          subst (Bounds o now signed) (sym l.in_use)
            (unsigned-Bounds o clock signed _ b.in_use now amount le l.room);
      in_store =
          subst (Bounds o now signed) (sym e) (Bounds-later o clock signed _ b.in_store now le);
    }

module _ (o : PoolOptions) (limit : pos 0 ≤ℤ o.spend_limit) where
  opened-Bounds : Bounds o 0 [] []
  opened-Bounds = record {
    positive = tt;
    within = omega (int_laws, limit, parts_of spent_in-nil);
    covers = λ t h. omega arith;
  }

  opened-Bounded : Bounded o (record { current = none; stored = none }) 0 []
  unfolding ledger entries log_of
  opened-Bounded = record { in_use = opened-Bounds; in_store = opened-Bounds }

  reached-Bounded :
      {m : Memory} {clock : ℕ} {signed : List SpendEntry}
      → Reaches o m clock signed
      → Bounded o m clock signed
  reached-Bounded opened = opened-Bounded
  reached-Bounded (reserved w merchant now amount le r) =
      After-Bounded o _ _ now amount le _ _ (reserve_slot-After o w merchant now amount _)
        (reached-Bounded r)
  reached-Bounded (restarted r) = restart-Bounded o _ _ (reached-Bounded r)
  reached-Bounded (loaded r) = KeepsAt-Bounded o _ _ _ (load-Keeps _) (reached-Bounded r)
  reached-Bounded (returned k c payer w x r) =
      KeepsAt-Bounded o _ _ _ (apply_nonce_return-Keeps k c payer w x _) (reached-Bounded r)
  reached-Bounded (refreshed rpc d c payer w r) =
      KeepsAt-Bounded o _ _ _ (refresh-Keeps rpc d c payer w _) (reached-Bounded r)
  reached-Bounded (created rpc d c payer w uuid size key r) =
      KeepsAt-Bounded o _ _ _ (create-Keeps rpc d c payer w uuid size key _) (reached-Bounded r)
  reached-Bounded (recovered rpc d c payer w uuid probe r) =
      KeepsAt-Bounded o _ _ _ (recover-Keeps rpc d c payer w uuid probe _) (reached-Bounded r)
  reached-Bounded (closed rpc d c payer w key r) =
      KeepsAt-Bounded o _ _ _ (close-Keeps rpc d c payer w key _) (reached-Bounded r)
  reached-Bounded (reconciled rpc d c payer w now r) =
      KeepsAt-Bounded o _ _ _ (reconcile-Keeps rpc d c payer w o now _) (reached-Bounded r)

  -- With a spend limit that is not negative, after any sequence of reservations, loads, nonce
  -- returns, refreshes, creations, recoveries, closes, reconciliations and restarts, with any
  -- answers of the network and any failed store writes, the amounts signed within any spend window
  -- that ends at or after the last reservation sum to at most the limit, where the times of
  -- reservations do not go back.
  pub spent_in-window-le :
      {m : Memory} {clock : ℕ} {signed : List SpendEntry} (t : ℕ)
      → Reaches o m clock signed
      → clock ≤ t
      → spent_in (in_window o t signed) ≤ℤ o.spend_limit
  spent_in-window-le t r h =
      let b = (reached-Bounded r).in_use in
      omega (int_laws, b.covers t h, b.within, spent_in-filter-le _ _ b.positive)
