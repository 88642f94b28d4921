-- ===== src/Client/Pool/Offline.antt =====
-- packages/client/src/pool.ts: the operations that need no network.
use vadum.Base.{ℕ, Bool, Option, none, some, List, [], ◌∷◌, ◌++◌, find}
use vadum.Base.Int.{ℤ, pos, leb_ℤ, ltb_ℤ}
use vadum.Base.Number.{Number, number_is}
use vadum.Base.Text.{Text}
use vadum.Core.Errors.{
  ok, vadum_error, throw_if, or_throw, limit_payer_allowance, nonce_pool_exhausted,
  nonce_return_untrusted,
}
use vadum.Core.Kit.{Kit, Crypto}
use vadum.Core.NonceReturn.{ReceivedReturn, verify_nonce_return}
use vadum.Client.Pool.Memory.{M, ◌>>=◌, ◌>>◌, pure, lift, loaded, persist, ledger}
use vadum.Client.Pool.State.{
  unspent, spent, SpentAgainst, PoolSlot, PoolState, PoolStatus, SpendAllowance, PoolOptions,
  counted, with_slot, rearmed, allowance_of, next_slot,
}

-- A slot marked spent against its value.
unfoldable pub spent_slot : PoolSlot → Text → Text → ℕ → PoolSlot
spent_slot slot value merchant now = record slot {
  state = spent;
  spent_against = some (record { value = value; merchant = merchant; at = now });
}

-- The ledger that `reserveSlot` persists: the slot spent and the spend logged, in one write.
unfoldable pub reserved : PoolOptions → PoolState → PoolSlot → Text → Text → ℕ → ℤ → PoolState
reserved o s slot value merchant now amount =
    record (with_slot s (spent_slot slot value merchant now)) {
      spend_log =
          some
            (counted s.spend_log now o.spend_window ++ (record { at = now; amount = amount } ∷ []));
    }

module _ (o : PoolOptions) (writable : Bool) where
  -- `reserveSlot` once the ledger is loaded.
  unfoldable pub reserve_from : Text → ℕ → ℤ → PoolState → M (ℕ × Text)
  reserve_from merchant now amount s = do
    lift (throw_if (leb_ℤ amount (pos 0)) limit_payer_allowance)
    let a = allowance_of o (some s) now
    lift (throw_if (ltb_ℤ a.remaining amount) limit_payer_allowance)
    slot ← lift (or_throw (next_slot s.slots) (vadum_error nonce_pool_exhausted))
    value ← lift (or_throw slot.value (vadum_error nonce_pool_exhausted))
    _status ← persist writable (reserved o s slot value merchant now amount)
    pure (slot.index, value)

  unfoldable pub reserve_slot : Text → ℕ → ℤ → M (ℕ × Text)
  reserve_slot merchant now amount = do s ← loaded; reserve_from merchant now amount s

  unfoldable pub allowance : ℕ → M SpendAllowance
  allowance now m = (ok (allowance_of o (ledger m) now), m)

unfoldable pub slot_at : Number → List PoolSlot → Option PoolSlot
slot_at index = find (λ slot. number_is index slot.index)

-- The spent record of a slot whose state is spent.
unfoldable pub spent_record : PoolSlot → Option SpentAgainst
spent_record slot = elim slot.state [ spent ↦ slot.spent_against | _ ↦ none ]

module _ (k : Kit) (c : Crypto) (payer : Text) (writable : Bool) where
  unfoldable pub apply_nonce_return : ReceivedReturn → M PoolStatus
  apply_nonce_return received = do
    s ← loaded
    slot ←
        lift (or_throw (slot_at received.nonce_index s.slots) (vadum_error nonce_return_untrusted))
    entry ← lift (or_throw (spent_record slot) (vadum_error nonce_return_untrusted))
    _statement ← lift (
        verify_nonce_return k c received
          (record { payer = payer; merchant = entry.merchant; spent_against_value = entry.value }))
    persist writable (with_slot s (rearmed slot (some received.new_nonce_value) unspent none))
