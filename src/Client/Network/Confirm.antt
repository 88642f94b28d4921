-- ===== src/Client/Network/Confirm.antt =====
-- packages/client/src/rpc.ts: `broadcastAndPoll` and `sendPayment`.
use vadum.Base.{
  ℕ, zero, suc, ◌+◌, Bool, true, false, not, ◌&&◌, Option, none, some, ltb, if◌then◌else◌,
}
use vadum.Base.Text.{Text, codes}
use vadum.Core.Errors.{vadum_error, submit_execution_failed, submit_rpc_unavailable}
use vadum.Client.Submit.{PaymentLifetime, by_nonce, by_blockhash}
use vadum.Client.Network.Retry.{
  Thrown, Answer, answered, threw, is_retryable, is_subscription_failure, with_retry,
}

abbrev pub confirm_timeout : ℕ
confirm_timeout = 90_000

abbrev pub poll_interval : ℕ
poll_interval = 2000

pub data Confirmation : Type 0 where
  processed confirmed finalized : Confirmation

-- One entry of `getSignatureStatuses`: whether its `err` is there, and how far it is confirmed.
pub record Status : Type 0 where
  pub has_failed : Bool
  pub confirmation : Option Confirmation

-- What the node and the clock answer while one call runs. `sends n` is attempt n of sendTransaction,
-- `clock i` the time at the test of the loop number i, and `statuses i n` attempt n of the status
-- request of its turn i.
pub record Node : Type 0 where
  pub sends : (skip_preflight : Bool) → ℕ → Answer (Unit {0})
  pub started_at : ℕ
  pub clock : ℕ → ℕ
  pub statuses : ℕ → ℕ → Answer (Option Status)

-- A `VadumError` that this file throws: it carries no status, and its text is not read.
abbrev pub vadum_thrown : Text → Thrown
vadum_thrown message = record {
  status_code = none;
  kit_code = none;
  message = message;
  failure = vadum_error submit_rpc_unavailable;
}

abbrev pub did_not_confirm : Thrown
did_not_confirm = vadum_thrown (codes "SUBMIT_RPC_UNAVAILABLE")

abbrev pub executed_and_failed : Thrown
executed_and_failed = record (vadum_thrown (codes "SUBMIT_EXECUTION_FAILED")) {
  failure = vadum_error submit_execution_failed;
}

is_confirmed : Confirmation → Bool
is_confirmed processed = false
is_confirmed confirmed = true
is_confirmed finalized = true

-- What a turn of the loop makes of the status: it stops with an answer, or goes on.
pub data Turn : Type 0 where
  stops : Answer Text → Turn
  waits : Turn

unfoldable pub reached : Text → Option Confirmation → Turn
unfolding is_confirmed
reached signature none = waits
reached signature (some c) = if is_confirmed c then stops (answered signature) else waits

unfoldable pub read_status : Text → Answer (Option Status) → Turn
read_status signature (threw t) = stops (threw t)
read_status signature (answered none) = waits
read_status signature (answered (some s)) =
    if s.has_failed then stops (threw executed_and_failed) else reached signature s.confirmation

abbrev pub or_wait : Turn → Option (Answer Text) → Option (Answer Text)
or_wait (stops a) rest = some a
or_wait waits rest = rest

-- The two confirmers of kit; `none` is a promise that never settles. They are awaited without a
-- timeout and without an abort signal.
pub record Confirmers : Type 0 where
  pub by_durable_nonce : PaymentLifetime → Option (Answer (Unit {0}))
  pub by_block_height : PaymentLifetime → Option (Answer (Unit {0}))

unfoldable pub confirm : Confirmers → PaymentLifetime → Option (Answer (Unit {0}))
confirm kit (by_nonce value account authority) =
    kit.by_durable_nonce (by_nonce value account authority)
confirm kit (by_blockhash blockhash height) = kit.by_block_height (by_blockhash blockhash height)

module _ (node : Node) (signature : Text) where
  -- The loop; `none` is a loop that has not ended when the fuel is used up.
  unfoldable pub poll : (fuel : ℕ) → (turn : ℕ) → Option (Answer Text)
  poll zero turn = none
  poll (suc fuel) turn =
      let rest = poll fuel (suc turn) in
      if ltb (node.clock turn) (node.started_at + confirm_timeout)
      then or_wait (read_status signature (with_retry (node.statuses turn))) rest
      else some (threw did_not_confirm)

  unfoldable pub poll_after : ℕ → Answer (Unit {0}) → Option (Answer Text)
  poll_after fuel (threw t) = some (threw t)
  poll_after fuel (answered u) = poll fuel 0

  unfoldable pub broadcast_and_poll : (fuel : ℕ) → (skip_preflight : Bool) → Option (Answer Text)
  broadcast_and_poll fuel skip = poll_after fuel (with_retry (node.sends skip))

  unfoldable pub after_confirm : ℕ → Option (Answer (Unit {0})) → Option (Answer Text)
  after_confirm fuel none = none
  after_confirm fuel (some (answered u)) = some (answered signature)
  after_confirm fuel (some (threw t)) =
      let again = broadcast_and_poll fuel false in
      if not (is_subscription_failure t) && not (is_retryable t) then some (threw t) else again

  -- `none` is a call that has not ended: the confirmer never settles, or the fuel is used up.
  -- `signature` is that of the decoded transaction, which both ways of sending answer with.
  unfoldable pub send_payment :
      ℕ → Confirmers → PaymentLifetime → (skip_preflight : Bool) → Option (Answer Text)
  send_payment fuel kit lifetime skip =
      let watched = after_confirm fuel (confirm kit lifetime) in
      let polled = broadcast_and_poll fuel true in if skip then polled else watched
