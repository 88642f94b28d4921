-- ===== src/Client/Pool/State.antt =====
-- packages/client/src/pool.ts: slots, the ledger, and the functions on them that touch no store.
use vadum.Base.{
  ℕ, ◌+◌, ◌*◌, Bool, true, false, not, ◌&&◌, Option, none, some, List, [], ◌∷◌, ltb, leb, ◌==◌,
  if◌then◌else◌, is_some, length, map, filter, find,
}
use vadum.Base.Int.{ℤ, pos, ◌-ℤ◌, leb_ℤ, total}
use vadum.Base.Sort.{sort}
use vadum.Base.Text.{Text}

abbrev pub lamports_per_signature : ℤ
lamports_per_signature = pos 5_000

abbrev pub send_window_ms : ℕ
send_window_ms = 24 * 60 * 60 * 1000

abbrev pub pool_low_water_mark : ℕ
pool_low_water_mark = 2

abbrev pub default_recover_probe : ℕ
default_recover_probe = 16

abbrev pub default_spend_limit : ℤ
default_spend_limit = pos 100_000_000

abbrev pub spend_limit_window_ms : ℕ
spend_limit_window_ms = 24 * 60 * 60 * 1000

pub data SlotState : Type 0 where
  unspent spent unknown : SlotState

pub record SpentAgainst : Type 0 where
  pub value : Text
  pub merchant : Text
  pub at : ℕ

pub record PoolSlot : Type 0 where
  pub index : ℕ
  pub address : Text
  pub value : Option Text
  pub state : SlotState
  pub spent_against : Option SpentAgainst
  pub released_at : Option ℕ

pub record SpendEntry : Type 0 where
  pub at : ℕ
  pub amount : ℤ

pub record PoolState : Type 0 where
  pub payer : Text
  pub size : ℕ
  pub epoch : Text
  pub slots : List PoolSlot
  pub spend_log : Option (List SpendEntry)

pub record PoolStatus : Type 0 where
  pub payer : Text
  pub size : ℕ
  pub slots : List PoolSlot
  pub unspent_count : ℕ
  pub below_low_water_mark : Bool
  pub epoch : Text

pub record SpendAllowance : Type 0 where
  pub limit : ℤ
  pub spent : ℤ
  pub remaining : ℤ
  pub next_refill_at : Option ℕ

-- The options of `createPool`, and what its defaults are.
pub record PoolOptions : Type 0 where
  pub send_window : ℕ
  pub spend_limit : ℤ
  pub spend_window : ℕ

abbrev pub default_options : PoolOptions
default_options = record {
  send_window = send_window_ms;
  spend_limit = default_spend_limit;
  spend_window = spend_limit_window_ms;
}

abbrev pub or_empty {ℓ} : {A : Type ℓ} → Option (List A) → List A
or_empty none = []
or_empty (some xs) = xs

abbrev pub or_else {ℓ} : {A : Type ℓ} → Option A → Option A → Option A
or_else none b = b
or_else (some a) b = some a

-- `entry.at > now - windowMs`.
abbrev pub counts : ℕ → ℕ → SpendEntry → Bool
counts now window e = ltb now (e.at + window)

unfoldable pub counted : Option (List SpendEntry) → ℕ → ℕ → List SpendEntry
counted log now window = filter (counts now window) (or_empty log)

unfoldable pub is_unspent : SlotState → Bool
is_unspent unspent = true
is_unspent _ = false

unfoldable pub status_of : PoolState → PoolStatus
status_of s =
    let n = length (filter (λ slot. is_unspent slot.state) s.slots) in
    record {
      payer = s.payer;
      size = s.size;
      slots = s.slots;
      unspent_count = n;
      below_low_water_mark = leb n pool_low_water_mark;
      epoch = s.epoch;
    }

unfoldable pub replace_slot : PoolSlot → PoolSlot → PoolSlot
replace_slot slot candidate = if candidate.index == slot.index then slot else candidate

unfoldable pub with_slot : PoolState → PoolSlot → PoolState
with_slot s slot = record s { slots = map (replace_slot slot) s.slots }

-- A slot without its spent record.
unfoldable pub rearmed : PoolSlot → Option Text → SlotState → Option ℕ → PoolSlot
rearmed slot value state released_at = record {
  index = slot.index;
  address = slot.address;
  value = value;
  state = state;
  spent_against = none;
  released_at = released_at;
}

-- `Math.min(...ats)`, none where nothing is counted.
unfoldable pub earliest : List SpendEntry → Option ℕ
earliest [] = none
earliest (e ∷ es) = elim (earliest es) [
  | none ↦ some e.at
  | some t ↦ some (if ltb t e.at then t else e.at)
]

unfoldable pub refill_at : Option ℕ → ℕ → Option ℕ
refill_at none window = none
refill_at (some t) window = some (t + window)

unfoldable pub log_of : Option PoolState → Option (List SpendEntry)
log_of none = none
log_of (some s) = s.spend_log

unfoldable pub amounts : List SpendEntry → List ℤ
amounts = map (λ e. e.amount)

unfoldable pub allowance_of : PoolOptions → Option PoolState → ℕ → SpendAllowance
allowance_of o state now =
    let entries = counted (log_of state) now o.spend_window in
    let spent = total (amounts entries) in
    record {
      limit = o.spend_limit;
      spent = spent;
      remaining = if leb_ℤ o.spend_limit spent then pos 0 else o.spend_limit -ℤ spent;
      next_refill_at = refill_at (earliest entries) o.spend_window;
    }

unfoldable pub is_usable : PoolSlot → Bool
is_usable slot = is_unspent slot.state && is_some slot.value

unfoldable pub never_released : PoolSlot → Bool
never_released slot = not (is_some slot.released_at)

-- `releasedAt ?? 0`.
abbrev pub or_zero : Option ℕ → ℕ
or_zero none = 0
or_zero (some t) = t

unfoldable pub released_before : PoolSlot → PoolSlot → Bool
released_before a b = leb (or_zero a.released_at) (or_zero b.released_at)

unfoldable pub first {ℓ} : {A : Type ℓ} → List A → Option A
first [] = none
first (x ∷ xs) = some x

-- The slot that `reserveSlot` takes: one that was never released, or else the one that was released
-- first.
unfoldable pub next_slot : List PoolSlot → Option PoolSlot
next_slot slots =
    let usable = filter is_usable slots in
    or_else (find never_released usable) (first (sort released_before usable))
