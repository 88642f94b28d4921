-- ===== src/Client/Pool/Memory.antt =====
-- packages/client/src/pool.ts: what one `createPool` holds between calls. `current` is its variable;
-- `stored` is what the key-value store keeps under the payer's key, and survives the page.
use vadum.Base.{Bool, Option, none, some, if◌then◌else◌}
use vadum.Core.Errors.{Result, ok, err, foreign, vadum_error, nonce_ledger_missing}
use vadum.Client.Pool.State.{PoolState, PoolStatus, status_of, or_else}

pub record Memory : Type 0 where
  pub current : Option PoolState
  pub stored : Option PoolState

-- A call answers and leaves the memory changed, also where it throws.
abbrev pub M : Type 0 → Type 0
M A = Memory → Result A × Memory

abbrev pub and_then : {A B : Type 0} → Result A × Memory → (A → M B) → Result B × Memory
and_then (ok a, m) f = f a m
and_then (err e, m) f = (err e, m)

infixl 5 ◌>>=◌ ◌>>◌
unfoldable pub ◌>>=◌ : {A B : Type 0} → M A → (next : A → M B) → M B
(call >>= next) memory = and_then (call memory) next

abbrev pub ◌>>◌ : {B : Type 0} → M (Unit {0}) → (next : M B) → M B
call >> next = call >>= (λ u. next)

unfoldable pub pure : {X : Type 0} → X → M X
pure x memory = (ok x, memory)

-- A part that touches no memory.
unfoldable pub lift : {A : Type 0} → Result A → M A
lift r m = (r, m)

-- The page is loaded anew: the variable is gone, and the store is not.
unfoldable pub restart : Memory → Memory
restart m = record m { current = none }

-- `current` is set before the store is written; the write may fail.
unfoldable pub persist : Bool → PoolState → M PoolStatus
persist writable s m =
    if writable
    then (ok (status_of s), record { current = some s; stored = some s })
    else (err foreign, record m { current = some s })

unfoldable pub ledger : Memory → Option PoolState
ledger m = or_else m.current m.stored

unfoldable pub loaded_from : Option PoolState → M PoolState
loaded_from none m = (err (vadum_error nonce_ledger_missing), m)
loaded_from (some s) m = (ok s, record m { current = some s })

unfoldable pub loaded : M PoolState
unfolding loaded_from
loaded m = loaded_from (ledger m) m

status_from : Option PoolState → Result PoolStatus
status_from none = err (vadum_error nonce_ledger_missing)
status_from (some s) = ok (status_of s)

-- `status()` is synchronous and reads the variable alone.
unfoldable pub status : M PoolStatus
unfolding status_from
status m = (status_from m.current, m)

unfoldable pub load : M PoolStatus
load = do s ← loaded; pure (status_of s)
