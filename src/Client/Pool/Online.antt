-- ===== src/Client/Pool/Online.antt =====
-- packages/client/src/pool.ts: the operations that read the chain or send to it.
use vadum.Base.{ℕ, suc, ◌/◌, Bool, true, false, not, none, some, List, [], ◌∷◌, map}
use vadum.Base.Int.{ℤ, pos, negsuc, ◌-ℤ◌}
use vadum.Base.Number.{Number}
use vadum.Base.Text.{Text, text_eq}
use vadum.Core.Errors.{
  Result, ok, vadum_error, throw_if, or_throw, nonce_index_out_of_range, canon_account_mismatch,
  nonce_pool_underfunded, nonce_ledger_missing,
}
use vadum.Core.Kit.{Derivation, Crypto, KeyPair}
use vadum.Client.Rpc.{Rpc, SetupInstruction}
use vadum.Client.Pool.Memory.{M, ◌>>=◌, ◌>>◌, pure, lift, loaded, persist, ledger}
use vadum.Client.Pool.State.{
  unknown, PoolSlot, SpendEntry, PoolStatus, PoolOptions, or_empty, rearmed, log_of,
}
use vadum.Client.Pool.Chain.{
  pool_size, is_underfunded, cannot_close, Reconciled, estimate_setup_cost, refreshed, withdrawals,
  reconcile_slots, recovered, setup,
}

unfoldable pub assert_payer_key : Crypto → Text → KeyPair → Result (Unit {0})
assert_payer_key c payer key =
    throw_if (not (text_eq (c.address_of key) payer)) canon_account_mismatch

-- The log outlives the pool it was written under.
unfoldable pub prior_spend_log : M (List SpendEntry)
prior_spend_log m = (ok (or_empty (log_of (ledger m))), m)

-- `(slots.at(-1)?.index ?? 0) + 1`.
unfoldable pub recovered_size : List PoolSlot → ℕ
recovered_size [] = 1
recovered_size (slot ∷ []) = suc slot.index
recovered_size (slot ∷ next ∷ slots) = recovered_size (next ∷ slots)

unfoldable pub is_empty {ℓ} : {A : Type ℓ} → List A → Bool
is_empty [] = true
is_empty (x ∷ xs) = false

-- `if (instructions.length > 0) await rpc.sendSetup(…)`.
unfoldable pub send_if_any : Rpc → List SetupInstruction → Result (Unit {0})
send_if_any rpc [] = ok tt
send_if_any rpc (i ∷ is) = rpc.send_setup (i ∷ is)

-- `a / BigInt(n)`, which truncates towards zero.
unfoldable pub quotient : ℤ → ℕ → ℤ
quotient (pos a) n = pos (a / n)
quotient (negsuc a) n = pos 0 -ℤ pos (suc a / n)

module _ (rpc : Rpc) (d : Derivation) (c : Crypto) (payer : Text) (writable : Bool) where
  unfoldable pub refresh : M PoolStatus
  refresh = do
    s ← loaded
    slots ← lift (refreshed rpc s.slots)
    persist writable (record s { slots = slots })

  -- `uuid` is `crypto.randomUUID()`.
  unfoldable pub create : (uuid : Text) → Number → KeyPair → M PoolStatus
  create uuid size key = do
    n ← lift (or_throw (pool_size size) (vadum_error nonce_index_out_of_range))
    lift (assert_payer_key c payer key)
    cost ← lift (estimate_setup_cost rpc n)
    balance ← lift (rpc.balance payer)
    lift (throw_if (is_underfunded balance cost) nonce_pool_underfunded)
    (instructions, slots) ← lift (setup d payer (quotient cost.nonce_rent n) n 0)
    lift (rpc.send_setup instructions)
    log ← prior_spend_log
    _status ←
        persist writable
          (record { payer = payer; size = n; epoch = uuid; slots = slots; spend_log = some log })
    refresh

  unfoldable pub recover : (uuid : Text) → (max_probe : ℕ) → M PoolStatus
  recover uuid max_probe = do
    slots ← lift (recovered rpc d payer max_probe 0)
    lift (throw_if (is_empty slots) nonce_ledger_missing)
    log ← prior_spend_log
    persist writable (record {
      payer = payer;
      size = recovered_size slots;
      epoch = uuid;
      slots = slots;
      spend_log = some log;
    })

  unfoldable pub close : KeyPair → M ℤ
  close key = do
    s ← loaded
    lift (assert_payer_key c payer key)
    balance ← lift (rpc.balance payer)
    minimum ← lift (rpc.rent_exemption 0)
    lift (throw_if (cannot_close balance minimum) nonce_pool_underfunded)
    (refunded, instructions) ← lift (withdrawals rpc payer s.slots (pos 0))
    lift (send_if_any rpc instructions)
    _status ←
        persist writable (record s { slots = map (λ slot. rearmed slot none unknown none) s.slots })
    pure refunded

  unfoldable pub reconcile : PoolOptions → ℕ → M Reconciled
  reconcile o now = do
    s ← loaded
    r ← lift (
        reconcile_slots rpc o.send_window now s.slots
          (record { state = s; released = []; settled = []; still_pending = [] }))
    _status ← persist writable r.state
    pure r
