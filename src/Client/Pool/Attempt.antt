-- ===== src/Client/Pool/Attempt.antt =====
-- What one call of `reserveSlot` does to the spend log, whatever it answers.
use vadum.Base.{
  ℕ, ◌≡◌, refl, ap, sym, ◌∙◌, Bool, true, false, Option, none, some, List, ◌⊎◌, inl, inr,
}
use vadum.Base.Int.{ℤ}
use vadum.Base.Text.{Text}
use vadum.Core.Errors.{Result, ok, err, Failure, throw_if-eq-ok}
use vadum.Client.Pool.State.{
  PoolState, PoolSlot, PoolOptions, SpendEntry, or_empty, log_of, counted,
}
use vadum.Client.Pool.Memory.{
  Memory, M, and_then, ◌>>=◌, lift, pure, loaded, loaded_from, persist, ledger,
}
use vadum.Client.Pool.Offline.{reserved, reserve_from, reserve_slot}
use vadum.Client.Pool.SpendBounds.{HasRoom, logged, remaining-HasRoom}
use vadum.Client.Pool.Keeps.{Keeps, entries, Keeps-refl, log_in_use}

-- The spend is in the log in use; `stored` says what the store keeps.
pub record Logs (o : PoolOptions) (now : ℕ) (amount : ℤ) (before : List SpendEntry) (m : Memory)
    : Type 0 where
  pub room : HasRoom o now amount before
  pub in_use : entries (ledger m) ≡ logged o now amount before

-- A slot that was handed out is logged in both places; a call that threw has kept the log, or has
-- logged the spend in use and failed to store it.
unfoldable pub After :
    (o : PoolOptions) (now : ℕ) (amount : ℤ) → Memory → {A : Type 0} → Result A × Memory → Type 0
After o now amount m (ok a, m') =
    Logs o now amount (entries (ledger m)) m'
    × (entries m'.stored ≡ logged o now amount (entries (ledger m)))
After o now amount m (err e, m') =
    Keeps m m'
    ⊎ (Logs o now amount (entries (ledger m)) m' × (entries m'.stored ≡ entries m.stored))

pub lift_cases :
    {A B : Type 0} (P : Result B × Memory → Type 0) (r : Result A) (f : A → M B) (m : Memory)
    → ((e : Failure) → P (err e, m))
    → ((a : A) → r ≡ ok a → P (f a m))
    → P ((lift r >>= f) m)
unfolding ◌>>=◌ lift
lift_cases P (ok a) f m h k = k a refl
lift_cases P (err e) f m h k = h e

persist_last :
    {A : Type 0} (o : PoolOptions) (now : ℕ) (amount : ℤ) (writable : Bool) (s : PoolState) (a : A)
    (m0 m : Memory)
    → HasRoom o now amount (entries (ledger m0))
    → or_empty s.spend_log ≡ logged o now amount (entries (ledger m0))
    → m.stored ≡ m0.stored
    → After o now amount m0 ((persist writable s >>= λ st. pure a) m)
unfolding After ◌>>=◌ persist pure ledger entries log_of
persist_last o now amount true s a m0 m room e f = (record { room = room; in_use = e }, e)
persist_last o now amount false s a m0 m room e f =
    inr (record { room = room; in_use = e }, ap entries f)

reserved-log :
    (o : PoolOptions) (s : PoolState) (slot : PoolSlot) (value merchant : Text) (now : ℕ)
    (amount : ℤ)
    → or_empty (reserved o s slot value merchant now amount).spend_log
      ≡ logged o now amount (or_empty s.spend_log)
unfolding reserved counted
reserved-log o s slot value merchant now amount = refl

module _ (o : PoolOptions) (writable : Bool) (merchant : Text) (now : ℕ) (amount : ℤ) where
  reserve_from-After :
      (s : PoolState) (m0 m : Memory)
      → Keeps m0 m
      → entries (ledger m0) ≡ or_empty s.spend_log
      → m.stored ≡ m0.stored
      → After o now amount m0 (reserve_from o writable merchant now amount s m)
  unfolding reserve_from
  reserve_from-After s m0 m k e f =
      let P = After o now amount m0 {A = ℕ × Text} in
      let thrown : (x : Failure) → P (err x, m) = λ x. unfold After in inl k in
      lift_cases P _ _ m thrown λ u1 p. lift_cases P _ _ m thrown λ u2 q.
        lift_cases P _ _ m thrown λ slot h1. lift_cases P _ _ m thrown λ value h2.
          persist_last o now amount writable _ _ m0 m
            (rw e (remaining-HasRoom o s now amount (throw_if-eq-ok _ _ p) (throw_if-eq-ok _ _ q)))
            (reserved-log o s slot value merchant now amount ∙ ap (logged o now amount) (sym e)) f

  loaded-After :
      (m : Memory) (s : Option PoolState)
      → ledger m ≡ s
      → After o now amount m
          (and_then (loaded_from s m) (reserve_from o writable merchant now amount))
  unfolding loaded_from
  loaded-After m none e = unfold After in inl (Keeps-refl m)
  loaded-After m (some s) e =
      let m' : Memory = record m { current = some s } in
      let same : entries (some s) ≡ entries (ledger m) = ap entries (sym e) in
      reserve_from-After s m m' (record { in_use = unfold ledger in same; in_store = inr refl })
        (sym (log_in_use m s e)) refl

  -- Whatever `reserveSlot` answers, what it leaves is as `After` says.
  pub reserve_slot-After :
      (m : Memory) → After o now amount m (reserve_slot o writable merchant now amount m)
  unfolding reserve_slot loaded ◌>>=◌
  reserve_slot-After m = loaded-After m (ledger m) refl
