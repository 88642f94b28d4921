-- ===== src/Client/Pool/Refills.antt =====
-- When `reserveSlot` answers: the slot, the allowance and the store are there.
use vadum.Base.{
  ℕ, ◌+◌, ◌≤◌, ◌≡◌, refl, Bool, true, false, Option, none, some, List, [], ◌∷◌, filter, find, any,
  All, arith, Bool-cases, Option-cases, inl, inr, is_some, &&-true,
}
use vadum.Base.Int.{ℤ, pos, leb_ℤ, ltb_ℤ, ◌≤ℤ◌, ◌<ℤ◌, total-nil, -ℤ_parts}
use vadum.Base.Sort.{insert, sort}
use vadum.Base.Text.{Text}
use vadum.Core.Errors.{ok}
use vadum.Client.Pool.State.{
  PoolState, PoolSlot, SpendEntry, PoolOptions, is_usable, is_unspent, never_released,
  released_before, next_slot, first, counts, counted, or_empty, allowance_of, log_of, amounts,
}
use vadum.Client.Pool.Memory.{Memory, ◌>>=◌, lift, pure, loaded, loaded_from, persist, ledger}
use vadum.Client.Pool.Offline.{reserved, reserve_from, reserve_slot}
use vadum.Client.Pool.Handover.{next_slot-All, filter_tested}

filter-any {ℓ} :
    {A : Type ℓ} (p : A → Bool) (xs : List A)
    → any p xs ≡ true
    → (y : A) × (ys : List A) × (filter p xs ≡ y ∷ ys)
filter-any p [] h = cc
filter-any p (x ∷ xs) h = elim (Bool-cases (p x)) [
  | inl e ↦ (x, filter p xs, rw e refl)
  | inr e ↦ let (y, ys, r) = filter-any p xs (cc (h, e)) in (y, ys, rw e r)
]

first-insert {ℓ} :
    {A : Type ℓ} (le : A → A → Bool) (a : A) (xs : List A)
    → (y : A) × (first (insert le a xs) ≡ some y)
unfolding first insert
first-insert le a [] = (a, refl)
first-insert le a (x ∷ xs) = elim (Bool-cases (le a x)) [
  | inl e ↦ (a, rw e refl)
  | inr e ↦ (x, rw e refl)
]

first-sort {ℓ} :
    {A : Type ℓ} (le : A → A → Bool) (x : A) (xs : List A)
    → (y : A) × (first (sort le (x ∷ xs)) ≡ some y)
unfolding sort
first-sort le x xs = first-insert le x (sort le xs)

-- A slot is chosen wherever one is usable.
next_slot-any :
    (slots : List PoolSlot)
    → any is_usable slots ≡ true
    → (slot : PoolSlot) × (next_slot slots ≡ some slot)
unfolding next_slot
next_slot-any slots h =
    let (x, xs, e) = filter-any is_usable slots h in
    let (y, f) = first-sort released_before x xs in
    elim (Option-cases (find never_released (filter is_usable slots))) [
      | inl n ↦ (y, rw (n, e) f)
      | inr (z, g) ↦ (z, rw g refl)
    ]

is_some_value {ℓ} : {A : Type ℓ} (o : Option A) → is_some o ≡ true → (v : A) × (o ≡ some v)
is_some_value none h = cc
is_some_value (some v) h = (v, refl)

usable_value : (slot : PoolSlot) → is_usable slot ≡ true → (v : Text) × (slot.value ≡ some v)
unfolding is_usable
usable_value slot h =
    is_some_value slot.value (&&-true (is_unspent slot.state) (is_some slot.value) h).1

-- The ledger that holds the memory after a reservation.
abbrev holding : PoolState → Memory
holding s = record { current = some s; stored = some s }

reserve_from-eq :
    (o : PoolOptions) (merchant : Text) (now : ℕ) (amount : ℤ) (s : PoolState) (m : Memory)
    (slot : PoolSlot) (v : Text)
    → leb_ℤ amount (pos 0) ≡ false
    → ltb_ℤ (allowance_of o (some s) now).remaining amount ≡ false
    → next_slot s.slots ≡ some slot
    → slot.value ≡ some v
    → reserve_from o true merchant now amount s m
      ≡ (ok (slot.index, v), holding (reserved o s slot v merchant now amount))
unfolding reserve_from ◌>>=◌ lift pure persist
reserve_from-eq o merchant now amount s m slot v p q n e = rw (p, q, n, e) refl

-- With a ledger, a usable slot, a positive amount within the allowance and a store that writes,
-- `reserveSlot` answers.
reserve_slot-answers :
    (o : PoolOptions) (merchant : Text) (now : ℕ) (amount : ℤ) (m : Memory) (s : PoolState)
    → ledger m ≡ some s
    → any is_usable s.slots ≡ true
    → pos 0 <ℤ amount
    → amount ≤ℤ (allowance_of o (some s) now).remaining
    → (i : ℕ) × (v : Text) × (m' : Memory) × (reserve_slot o true merchant now amount m
        ≡ (ok (i, v), m'))
unfolding reserve_slot loaded ◌>>=◌ loaded_from
reserve_slot-answers o merchant now amount m s held usable positive within =
    let (slot, n) = next_slot-any s.slots usable in
    let tested =
      next_slot-All (λ x. is_usable x ≡ true) s.slots (filter_tested is_usable s.slots) n in
    let (v, e) = usable_value slot tested in
    let step =
      reserve_from-eq o merchant now amount s (record m { current = some s }) slot v (ground arith)
        (ground arith) n e in
    (slot.index, v, holding (reserved o s slot v merchant now amount), rw held step)

-- Entries that lie a window back are not counted.
old-counted :
    (log : List SpendEntry) (now window : ℕ)
    → All (λ e. e.at + window ≤ now) log
    → filter (counts now window) log ≡ []
old-counted [] now window h = refl
old-counted (x ∷ xs) now window h =
    let past = h.0 in
    let off : counts now window x ≡ false = ground arith in rw off (old-counted xs now window h.1)

refilled :
    (o : PoolOptions) (s : PoolState) (now : ℕ) (amount : ℤ)
    → All (λ e. e.at + o.spend_window ≤ now) (or_empty s.spend_log)
    → pos 0 <ℤ amount
    → amount ≤ℤ o.spend_limit
    → amount ≤ℤ (allowance_of o (some s) now).remaining
unfolding allowance_of counted log_of amounts
refilled o s now amount old positive within =
    let free : leb_ℤ o.spend_limit (pos 0) ≡ false = ground arith in
    rw (old-counted (or_empty s.spend_log) now o.spend_window old, total-nil, free)
      (omega (arith, -ℤ_parts o.spend_limit (pos 0)))

-- With a ledger in memory or in the store whose logged reservations all lie at least a spend
-- window back, a usable slot in it, and a store that writes, `reserveSlot` of a positive amount up
-- to the spend limit answers with an index and a value.
pub reserve_slot-refills :
    (o : PoolOptions) (merchant : Text) (now : ℕ) (amount : ℤ) (m : Memory) (s : PoolState)
    → ledger m ≡ some s
    → any is_usable s.slots ≡ true
    → All (λ e. e.at + o.spend_window ≤ now) (or_empty s.spend_log)
    → pos 0 <ℤ amount
    → amount ≤ℤ o.spend_limit
    → (i : ℕ) × (v : Text) × (m' : Memory) × (reserve_slot o true merchant now amount m
        ≡ (ok (i, v), m'))
reserve_slot-refills o merchant now amount m s held usable old positive within =
    reserve_slot-answers o merchant now amount m s held usable positive
      (refilled o s now amount old positive within)
