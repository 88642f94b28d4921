-- ===== src/Client/Pool/Chain.antt =====
-- packages/client/src/pool.ts: the loops that read the chain slot by slot, before anything is
-- persisted.
use vadum.Base.{
  ℕ, zero, suc, ◌+◌, Bool, not, ◌&&◌, ◌||◌, Option, none, some, List, [], ◌∷◌, ◌++◌, leb,
  if◌then◌else◌,
}
use vadum.Base.Int.{ℤ, pos, ◌+ℤ◌, ltb_ℤ, eq_ℤ}
use vadum.Base.Number.{Number, int, from_nat}
use vadum.Base.Text.{Text, text_eq}
use vadum.Core.Derive.{nonce_seed, derive_nonce_address}
use vadum.Core.Errors.{Result, ok, ◌>>=◌}
use vadum.Core.Kit.{Derivation}
use vadum.Client.Rpc.{
  Rpc, NonceAccountState, absent, uninitialized, initialized, SetupInstruction,
  create_account_with_seed, initialize_nonce_account, withdraw_nonce_account,
}
use vadum.Client.Pool.State.{
  unspent, unknown, SpentAgainst, PoolSlot, PoolState, with_slot, rearmed, lamports_per_signature,
}
use vadum.Client.Pool.Offline.{spent_record}

-- `Number.isInteger(size) && 1 <= size <= 256`.
unfoldable pub pool_size : Number → Option ℕ
pool_size (int (pos n)) = if leb 1 n && leb n 256 then some n else none
pool_size _ = none

pub record SetupCost : Type 0 where
  pub nonce_rent : ℤ
  pub fee : ℤ
  pub wallet_minimum : ℤ

-- `nonceRent * BigInt(size)`.
unfoldable pub times : ℕ → ℤ → ℤ
times zero z = pos 0
times (suc n) z = z +ℤ times n z

-- The wallet could end the setup neither at zero nor rent-exempt.
unfoldable pub is_underfunded : ℤ → SetupCost → Bool
is_underfunded balance cost =
    let due = cost.nonce_rent +ℤ cost.fee in
    ltb_ℤ balance due || (ltb_ℤ due balance && ltb_ℤ balance (due +ℤ cost.wallet_minimum))

-- The fee payer of a close must stay rent-exempt after the fee, or have nothing.
unfoldable pub cannot_close : ℤ → ℤ → Bool
cannot_close balance minimum =
    not (eq_ℤ balance (pos 0)) && ltb_ℤ balance (lamports_per_signature +ℤ minimum)

-- What `readValue` makes of an account: its value and its lamports.
unfoldable pub value_of : NonceAccountState → Option Text
value_of absent = none
value_of uninitialized = none
value_of (initialized authority value lamports) = some value

unfoldable pub lamports_of : NonceAccountState → ℤ
lamports_of absent = pos 0
lamports_of uninitialized = pos 0
lamports_of (initialized authority value lamports) = lamports

-- The value of an initialized account whose authority is this payer.
unfoldable pub own_value : Text → NonceAccountState → Option Text
own_value payer absent = none
own_value payer uninitialized = none
own_value payer (initialized authority value lamports) =
    if text_eq authority payer then some value else none

pub record Reconciled : Type 0 where
  pub state : PoolState
  pub released : List ℕ
  pub settled : List ℕ
  pub still_pending : List ℕ

-- One slot of `reconcile`, by the record of what it was spent against and the value read.
unfoldable pub reconcile_slot :
    ℕ → ℕ → PoolSlot → SpentAgainst → Option Text → Reconciled → Reconciled
reconcile_slot window now slot entry none r = record r {
  state = with_slot r.state (rearmed slot none unknown none);
  released = r.released ++ (slot.index ∷ []);
}
reconcile_slot window now slot entry (some value) r =
    if not (text_eq value entry.value)
    then record r {
      state = with_slot r.state (rearmed slot (some value) unspent none);
      settled = r.settled ++ (slot.index ∷ []);
    }
    else if leb (entry.at + window) now
    then record r {
      state = with_slot r.state (rearmed slot (some value) unspent (some now));
      released = r.released ++ (slot.index ∷ []);
    }
    else record r { still_pending = r.still_pending ++ (slot.index ∷ []) }

module _ (rpc : Rpc) where
  unfoldable pub estimate_setup_cost : ℕ → Result SetupCost
  estimate_setup_cost size = do
    rent ← rpc.nonce_rent_exemption
    minimum ← rpc.rent_exemption 0
    ok (record {
      nonce_rent = times size rent;
      fee = lamports_per_signature;
      wallet_minimum = minimum;
    })

  -- `refresh`: every slot's value is read again, and nothing else of it changes.
  unfoldable pub refreshed : List PoolSlot → Result (List PoolSlot)
  refreshed [] = ok []
  refreshed (slot ∷ slots) = do
    account ← rpc.nonce_account slot.address
    rest ← refreshed slots
    ok (record slot { value = value_of account } ∷ rest)

  -- `close`: what is withdrawn, and the instructions that withdraw it.
  unfoldable pub withdrawals : Text → List PoolSlot → ℤ → Result (ℤ × List SetupInstruction)
  withdrawals payer [] refunded = ok (refunded, [])
  withdrawals payer (slot ∷ slots) refunded = do
    account ← rpc.nonce_account slot.address
    let lamports = lamports_of account
    let nothing = eq_ℤ lamports (pos 0)
    (sum, rest) ← withdrawals payer slots (if nothing then refunded else refunded +ℤ lamports)
    ok (sum, if nothing then rest else withdraw_nonce_account slot.address payer lamports ∷ rest)

  unfoldable pub reconcile_step :
      ℕ → ℕ → PoolSlot → Option SpentAgainst → Reconciled → Result Reconciled
  reconcile_step window now slot none r = ok r
  reconcile_step window now slot (some entry) r = do
    account ← rpc.nonce_account slot.address
    ok (reconcile_slot window now slot entry (value_of account) r)

  -- `reconcile`: the slots of the ledger as it was loaded, in order.
  unfoldable pub reconcile_slots : ℕ → ℕ → List PoolSlot → Reconciled → Result Reconciled
  reconcile_slots window now [] r = ok r
  reconcile_slots window now (slot ∷ slots) r = do
    next ← reconcile_step window now slot (spent_record slot) r
    reconcile_slots window now slots next

  module _ (d : Derivation) (payer : Text) where
    -- The account of one derived index, if it is an initialized account of this payer.
    unfoldable pub recovered_slot : ℕ → Text → NonceAccountState → List PoolSlot
    recovered_slot index address account = elim (own_value payer account) [
      | none ↦ []
      | some value ↦
          record {
            index = index;
            address = address;
            value = some value;
            state = unknown;
            spent_against = none;
            released_at = none;
          }
          ∷ []
    ]

    -- `recover`: `left` indices still to probe, from `index` on.
    unfoldable pub recovered : (left index : ℕ) → Result (List PoolSlot)
    recovered zero index = ok []
    recovered (suc left) index = do
      address ← derive_nonce_address d payer (from_nat index)
      account ← rpc.nonce_account address
      rest ← recovered left (suc index)
      ok (recovered_slot index address account ++ rest)

module _ (d : Derivation) (payer : Text) (per_slot : ℤ) where
  -- `create`: the instructions and the slots, `left` indices from `index` on.
  unfoldable pub setup : (left index : ℕ) → Result (List SetupInstruction × List PoolSlot)
  setup zero index = ok ([], [])
  setup (suc left) index = do
    address ← derive_nonce_address d payer (from_nat index)
    seed ← nonce_seed (from_nat index)
    (instructions, slots) ← setup left (suc index)
    let slot : PoolSlot = record {
      index = index;
      address = address;
      value = none;
      state = unspent;
      spent_against = none;
      released_at = none;
    }
    ok (
      create_account_with_seed address payer seed per_slot
          ∷ initialize_nonce_account address payer
          ∷ instructions,
      slot ∷ slots,
    )
