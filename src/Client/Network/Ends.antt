-- ===== src/Client/Network/Ends.antt =====
-- packages/client/src/rpc.ts: when a send ends.
use vadum.Base.{
  ℕ, zero, suc, ◌+◌, ◌*◌, ◌≤◌, ◌≡◌, refl, ap, ◌∙◌, Bool, true, false, not, ◌&&◌, ◌⊎◌, inl, inr,
  Option, none, some, ltb, Option-cases, Bool-cases, arith,
}
use vadum.Base.Text.{Text}
use vadum.Client.Submit.{PaymentLifetime}
use vadum.Client.Network.Retry.{
  Answer, answered, threw, is_retryable, is_subscription_failure, with_retry,
}
use vadum.Client.Network.Confirm.{
  confirm_timeout, poll_interval, Node, Turn, stops, waits, read_status, or_wait, did_not_confirm,
  poll, poll_after, broadcast_and_poll, Confirmers, confirm, after_confirm, send_payment,
}

module _ (node : Node) (signature : Text) where
  or_wait-ends :
      (t : Turn) (rest : Option (Answer Text)) (a : Answer Text)
      → rest ≡ some a
      → (b : Answer Text) × (or_wait t rest ≡ some b)
  or_wait-ends (stops b) rest a h = (b, refl)
  or_wait-ends waits rest a h = (a, h)

  poll-ends :
      (fuel turn : ℕ)
      → ((i : ℕ) → node.clock i + poll_interval ≤ node.clock (suc i))
      → node.started_at + confirm_timeout ≤ node.clock turn + fuel * poll_interval
      → (a : Answer Text) × (poll node signature (suc fuel) turn ≡ some a)
  unfolding poll
  poll-ends zero turn ticks late =
      let over : ltb (node.clock turn) (node.started_at + confirm_timeout) ≡ false = ground arith in
      (threw did_not_confirm, rw over)
  poll-ends (suc fuel) turn ticks late =
      let tick = ticks turn in
      let (a, rest) = poll-ends fuel (suc turn) ticks (omega arith) in
      elim (Bool-cases (ltb (node.clock turn) (node.started_at + confirm_timeout))) [
        | inr over ↦ (threw did_not_confirm, rw over)
        | inl early ↦
            let (b, found) =
              or_wait-ends (read_status signature (with_retry (node.statuses turn))) _ a rest in
            (b, rw early found)
      ]

  poll_after-ends :
      (fuel : ℕ) (sent : Answer (Unit {0}))
      → (a : Answer Text) × (poll node signature fuel 0 ≡ some a)
      → (a : Answer Text) × (poll_after node signature fuel sent ≡ some a)
  unfolding poll_after
  poll_after-ends fuel (threw t) h = (threw t, refl)
  poll_after-ends fuel (answered u) h = h

  broadcast_and_poll-ends :
      (skip : Bool)
      → ((i : ℕ) → node.clock i + poll_interval ≤ node.clock (suc i))
      → node.started_at ≤ node.clock 0
      → (a : Answer Text) × (broadcast_and_poll node signature 46 skip ≡ some a)
  unfolding broadcast_and_poll
  broadcast_and_poll-ends skip ticks begun =
      poll_after-ends 46 (with_retry (node.sends skip)) (poll-ends 45 0 ticks (omega arith))

  after_confirm-ends :
      (fuel : ℕ) (watched : Answer (Unit {0}))
      → (a : Answer Text) × (broadcast_and_poll node signature fuel false ≡ some a)
      → (a : Answer Text) × (after_confirm node signature fuel (some watched) ≡ some a)
  unfolding after_confirm
  after_confirm-ends fuel (answered u) h = (answered signature, refl)
  after_confirm-ends fuel (threw t) h =
      elim (Bool-cases (not (is_subscription_failure t) && not (is_retryable t))) [
        | inl e ↦ (threw t, rw e)
        | inr e ↦ (h.0, rw e h.1)
      ]

  -- The call awaits a confirmer that never settles, and does not end with any number of tests.
  pub record Hangs (kit : Confirmers) (lifetime : PaymentLifetime) (skip : Bool) : Type 0 where
    pub watches : skip ≡ false
    pub never_settles : confirm kit lifetime ≡ none
    pub never_ends : (fuel : ℕ) → send_payment node signature fuel kit lifetime skip ≡ none

  after_confirm-settled :
      (watched : Option (Answer (Unit {0}))) (w : Answer (Unit {0}))
      → watched ≡ some w
      → (a : Answer Text) × (broadcast_and_poll node signature 46 false ≡ some a)
      → (a : Answer Text) × (after_confirm node signature 46 watched ≡ some a)
  after_confirm-settled watched w e h =
      let (a, r) = after_confirm-ends 46 w h in (a, ap (after_confirm node signature 46) e ∙ r)

  send_payment-never :
      (kit : Confirmers) (lifetime : PaymentLifetime)
      → confirm kit lifetime ≡ none
      → Hangs kit lifetime false
  unfolding send_payment after_confirm
  send_payment-never kit lifetime h = record {
    watches = refl;
    never_settles = h;
    never_ends = λ fuel. ap (after_confirm node signature fuel) h;
  }

  -- Where each request to the node answers or fails, and the clock has passed by the polling
  -- interval at each turn of the loop and does not go back before its first, either 46 tests of
  -- the loop are enough for `sendPayment` to answer or throw, or the preflight is not skipped, the
  -- confirmer of kit for the lifetime of the payment never settles, and `sendPayment` does not end
  -- with any number of tests.
  pub send_payment-ends :
      (kit : Confirmers) (lifetime : PaymentLifetime) (skip : Bool)
      → ((i : ℕ) → node.clock i + poll_interval ≤ node.clock (suc i))
      → node.started_at ≤ node.clock 0
      → ((a : Answer Text) × (send_payment node signature 46 kit lifetime skip ≡ some a))
        ⊎ Hangs kit lifetime skip
  unfolding send_payment
  send_payment-ends kit lifetime true ticks begun = inl (broadcast_and_poll-ends true ticks begun)
  send_payment-ends kit lifetime false ticks begun = elim (Option-cases (confirm kit lifetime)) [
    | inl never ↦ inr (send_payment-never kit lifetime never)
    | inr (w, settled) ↦ inl (
        after_confirm-settled (confirm kit lifetime) w settled
          (broadcast_and_poll-ends false ticks begun))
  ]
