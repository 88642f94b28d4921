-- ===== src/Client/Pool/Handover.antt =====
-- The slot that `reserveSlot` hands out: which one it is, and what becomes of it.
use vadum.Base.{
  ℕ, ◌≡◌, refl, subst, Bool, true, false, Option, none, some, List, [], ◌∷◌, filter, find, All,
  Bool-cases, Option-cases, inl, inr,
}
use vadum.Base.Int.{ℤ}
use vadum.Base.Sort.{insert, sort}
use vadum.Base.Text.{Text}
use vadum.Core.Errors.{Result, ok, err, Failure, or_throw-eq-ok}
use vadum.Client.Pool.State.{
  PoolState, PoolSlot, PoolOptions, is_usable, never_released, released_before, next_slot, first,
}
use vadum.Client.Pool.Memory.{Memory, and_then, ◌>>=◌, pure, loaded, loaded_from, persist, ledger}
use vadum.Client.Pool.Offline.{reserved, reserve_from, reserve_slot}
use vadum.Client.Pool.Attempt.{lift_cases}

module _ {ℓ κ} {A : Type ℓ} (P : A → Type κ) where
  pub filter-All : (p : A → Bool) (xs : List A) → All P xs → All P (filter p xs)
  filter-All p [] h = tt
  filter-All p (x ∷ xs) h = elim (Bool-cases (p x)) [
    | inl e ↦ rw e (h.0, filter-All p xs h.1)
    | inr e ↦ rw e (filter-All p xs h.1)
  ]

  find-All : (p : A → Bool) (xs : List A) {x : A} → All P xs → find p xs ≡ some x → P x
  find-All p [] h e = cc
  find-All p (y ∷ ys) h e = elim (Bool-cases (p y)) [
    | inl b ↦ subst P (cc b) h.0
    | inr b ↦ find-All p ys h.1 (cc b)
  ]

  insert-All : (le : A → A → Bool) (a : A) (xs : List A) → P a → All P xs → All P (insert le a xs)
  unfolding insert
  insert-All le a [] p h = (p, tt)
  insert-All le a (x ∷ xs) p h = elim (Bool-cases (le a x)) [
    | inl e ↦ rw e (p, h)
    | inr e ↦ rw e (h.0, insert-All le a xs p h.1)
  ]

  sort-All : (le : A → A → Bool) (xs : List A) → All P xs → All P (sort le xs)
  unfolding sort
  sort-All le [] h = tt
  sort-All le (x ∷ xs) h = insert-All le x (sort le xs) h.0 (sort-All le xs h.1)

  first-All : (xs : List A) {x : A} → All P xs → first xs ≡ some x → P x
  unfolding first
  first-All [] h e = cc
  first-All (y ∷ ys) h e = subst P (cc e) h.0

pub filter_tested {ℓ} :
    {A : Type ℓ} (p : A → Bool) (xs : List A) → All (λ x. p x ≡ true) (filter p xs)
filter_tested p [] = tt
filter_tested p (x ∷ xs) = elim (Bool-cases (p x)) [
  | inl e ↦ rw e (e, filter_tested p xs)
  | inr e ↦ rw e (filter_tested p xs)
]

-- What every usable slot has, the slot handed out has.
pub next_slot-All {κ} :
    (P : PoolSlot → Type κ) (slots : List PoolSlot) {slot : PoolSlot}
    → All P (filter is_usable slots)
    → next_slot slots ≡ some slot
    → P slot
unfolding next_slot
next_slot-All P slots h e =
    let usable = filter is_usable slots in
    elim (Option-cases (find never_released usable)) [
      | inl n ↦ first-All P _ (sort-All P released_before usable h) (cc n)
      | inr (s, f) ↦ find-All P never_released usable h (cc f)
    ]

-- A slot handed out: the ledger it was chosen from, and the ledger that both places hold afterwards.
pub record Handover (o : PoolOptions) (merchant : Text) (now : ℕ) (amount : ℤ) (m : Memory)
    (index : ℕ) (value : Text) (m' : Memory) : Type 0 where
  pub ledger_before : PoolState
  pub slot : PoolSlot
  pub was_in_use : ledger m ≡ some ledger_before
  pub is_next : next_slot ledger_before.slots ≡ some slot
  pub index_of_slot : slot.index ≡ index
  pub value_of_slot : slot.value ≡ some value
  pub in_use : ledger m' ≡ some (reserved o ledger_before slot value merchant now amount)
  pub in_store : m'.stored ≡ some (reserved o ledger_before slot value merchant now amount)

module _ (o : PoolOptions) (writable : Bool) (merchant : Text) (now : ℕ) (amount : ℤ) where
  Handed : Memory → Result (ℕ × Text) × Memory → Type 0
  Handed m (ok (i, v), m') = Handover o merchant now amount m i v m'
  Handed m (err e, m') = Unit {0}

  persist-Handed :
      (s : PoolState) (slot : PoolSlot) (value : Text) (m0 m : Memory)
      → ledger m0 ≡ some s
      → next_slot s.slots ≡ some slot
      → slot.value ≡ some value
      → Handed m0 (
          (persist writable (reserved o s slot value merchant now amount) >>= λ st.
          pure (slot.index, value))
            m)
  unfolding Handed ◌>>=◌ persist pure ledger
  persist-Handed s slot value m0 m e n h =
      elim writable
        as (λ w. Handed m0 (
          (persist w (reserved o s slot value merchant now amount) >>= λ st.
          pure (slot.index, value))
            m)) [
              | true ↦ record {
                ledger_before = s;
                slot = slot;
                was_in_use = e;
                is_next = n;
                index_of_slot = refl;
                value_of_slot = h;
                in_use = refl;
                in_store = refl;
              }
              | false ↦ tt
            ]

  reserve_from-Handed :
      (s : PoolState) (m0 m : Memory)
      → ledger m0 ≡ some s
      → Handed m0 (reserve_from o writable merchant now amount s m)
  unfolding reserve_from
  reserve_from-Handed s m0 m e =
      let P = Handed m0 in
      let thrown : (x : Failure) → P (err x, m) = λ x. unfold Handed in tt in
      lift_cases P _ _ m thrown λ u1 p. lift_cases P _ _ m thrown λ u2 q.
        lift_cases P _ _ m thrown λ slot h1. lift_cases P _ _ m thrown λ value h2.
          persist-Handed s slot value m0 m e (or_throw-eq-ok _ _ h1) (or_throw-eq-ok _ _ h2)

  loaded-Handed :
      (m : Memory) (s : Option PoolState)
      → ledger m ≡ s
      → Handed m (and_then (loaded_from s m) (reserve_from o writable merchant now amount))
  unfolding loaded_from
  loaded-Handed m none e = unfold Handed in tt
  loaded-Handed m (some s) e = reserve_from-Handed s m (record m { current = some s }) e

  reserve_slot-Handed : (m : Memory) → Handed m (reserve_slot o writable merchant now amount m)
  unfolding reserve_slot loaded ◌>>=◌
  reserve_slot-Handed m = loaded-Handed m (ledger m) refl

  pub reserve_slot-Handover :
      (m m' : Memory) (i : ℕ) (v : Text)
      → reserve_slot o writable merchant now amount m ≡ (ok (i, v), m')
      → Handover o merchant now amount m i v m'
  reserve_slot-Handover m m' i v e =
      let h = subst (Handed m) e (reserve_slot-Handed m) in unfold Handed in h
