-- ===== src/Client/Pool/Reservations.antt =====
-- What `reserveSlot` promises the payer: a slot is handed out once, and only with its record stored.
use vadum.Base.{
  ℕ, ◌≡◌, ◌≢◌, refl, sym, subst, ◌∙◌, Bool, true, Option, none, some, List, [], ◌∷◌, arith, ◌==◌,
  map, All, All-map, Bool-cases, inl, inr,
}
use vadum.Base.Int.{ℤ}
use vadum.Base.Text.{Text}
use vadum.Core.Errors.{ok}
use vadum.Client.Pool.State.{
  spent, SpentAgainst, PoolState, PoolSlot, PoolOptions, is_unspent, is_usable, replace_slot,
  with_slot,
}
use vadum.Client.Pool.Memory.{Memory, ledger}
use vadum.Client.Pool.Offline.{spent_slot, reserved, reserve_slot}
use vadum.Client.Pool.Handover.{next_slot-All, filter-All, filter_tested, reserve_slot-Handover}

-- Every slot of one index is spent against one value, for one merchant.
abbrev pub SpentAt : ℕ → SpentAgainst → List PoolSlot → Type 0
SpentAt index against =
    All (λ slot. slot.index ≡ index → (slot.state ≡ spent) × (slot.spent_against ≡ some against))

with_slot-SpentAt :
    (slot : PoolSlot) (against : SpentAgainst) (slots : List PoolSlot)
    → slot.state ≡ spent
    → slot.spent_against ≡ some against
    → SpentAt slot.index against (map (replace_slot slot) slots)
unfolding replace_slot
with_slot-SpentAt slot against [] h k = tt
with_slot-SpentAt slot against (x ∷ xs) h k = elim (Bool-cases (x.index == slot.index)) [
  | inl e ↦ rw e ((λ same. (h, k)), with_slot-SpentAt slot against xs h k)
  | inr e ↦ rw e ((λ same. absurd (ground (arith, same))), with_slot-SpentAt slot against xs h k)
]

reserved-SpentAt :
    (o : PoolOptions) (s : PoolState) (slot : PoolSlot) (value merchant : Text) (now : ℕ)
    (amount : ℤ)
    → SpentAt slot.index
        (record { value = value; merchant = merchant; at = now })
        (reserved o s slot value merchant now amount).slots
unfolding reserved with_slot spent_slot
reserved-SpentAt o s slot value merchant now amount = with_slot-SpentAt _ _ s.slots refl refl

-- Where `reserveSlot` answers with a slot, the ledger in use and the stored one are the same, and
-- every slot of that index is spent in it against the value of the answer, for the merchant and
-- the time of the call.
pub reserve_slot-SpentAt :
    (o : PoolOptions) (writable : Bool) (merchant : Text) (now : ℕ) (amount : ℤ) (m m' : Memory)
    (i : ℕ) (v : Text)
    → reserve_slot o writable merchant now amount m ≡ (ok (i, v), m')
    → (s : PoolState) × (ledger m' ≡ some s)
      × (m'.stored ≡ some s)
      × SpentAt i (record { value = v; merchant = merchant; at = now }) s.slots
reserve_slot-SpentAt o writable merchant now amount m m' i v e =
    let h = reserve_slot-Handover o writable merchant now amount m m' i v e in
    let s = reserved o h.ledger_before h.slot v merchant now amount in
    let against : SpentAgainst = record { value = v; merchant = merchant; at = now } in
    let marked = reserved-SpentAt o h.ledger_before h.slot v merchant now amount in
    (s, h.in_use, h.in_store, subst (λ n. SpentAt n against s.slots) h.index_of_slot marked)

usable_not_spent : (slot : PoolSlot) → is_usable slot ≡ true → slot.state ≢ spent
unfolding is_usable is_unspent
usable_not_spent slot h e = ground (arith, e)

SpentIn : ℕ → SpentAgainst → Option PoolState → Type 0
SpentIn index against none = Unit {0}
SpentIn index against (some s) = SpentAt index against s.slots

-- Where `reserveSlot` answers with a slot and the next `reserveSlot` answers with a slot too, the
-- two indices differ.
pub reserve_slot-once :
    (o : PoolOptions) (w1 w2 : Bool) (merchant1 merchant2 : Text) (now1 now2 : ℕ)
    (amount1 amount2 : ℤ) (m m' m'' : Memory) (i j : ℕ) (v1 v2 : Text)
    → reserve_slot o w1 merchant1 now1 amount1 m ≡ (ok (i, v1), m')
    → reserve_slot o w2 merchant2 now2 amount2 m' ≡ (ok (j, v2), m'')
    → i ≢ j
unfolding SpentIn
reserve_slot-once o w1 w2 merchant1 merchant2 now1 now2 amount1 amount2 m m' m'' i j v1 v2 e1 e2
      same =
    let (s, used, stored, spent_at) =
      reserve_slot-SpentAt o w1 merchant1 now1 amount1 m m' i v1 e1 in
    let h = reserve_slot-Handover o w2 merchant2 now2 amount2 m' m'' j v2 e2 in
    let here : some s ≡ some h.ledger_before = sym used ∙ h.was_in_use in
    let marked =
      subst (SpentIn i (record { value = v1; merchant = merchant1; at = now1 })) here spent_at in
    let usable = next_slot-All (λ x. is_usable x ≡ true) _ (filter_tested is_usable _) h.is_next in
    let was_spent =
      next_slot-All (λ x. x.index ≡ i → x.state ≡ spent) _
        (filter-All _ is_usable _ (All-map _ _ (λ x f e. (f e).0) _ marked)) h.is_next in
    usable_not_spent h.slot usable (was_spent (h.index_of_slot ∙ sym same))
