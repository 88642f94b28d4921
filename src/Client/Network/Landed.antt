-- ===== src/Client/Network/Landed.antt =====
-- packages/client/src/rpc.ts: what a send has seen where it answers with a signature.
use vadum.Base.{
  ℕ, zero, suc, ◌+◌, ◌≡◌, refl, sym, ap, ◌∙◌, Bool, true, false, not, ◌&&◌, ◌⊎◌, inl, inr, Option,
  none, some, some-injective, ltb, if◌then◌else◌, Bool-cases,
}
use vadum.Base.Text.{Text}
use vadum.Client.Submit.{PaymentLifetime}
use vadum.Client.Network.Retry.{
  Thrown, Answer, answered, threw, is_retryable, is_subscription_failure, with_retry,
}
use vadum.Client.Network.Confirm.{
  confirm_timeout, Confirmation, processed, confirmed, finalized, Status, Node, Turn, stops, waits,
  reached, read_status, or_wait, did_not_confirm, executed_and_failed, poll, poll_after,
  broadcast_and_poll, Confirmers, confirm, after_confirm, send_payment,
}

answered-injective : {A : Type 0} {x y : A} → answered x ≡ answered y → x ≡ y
answered-injective {x = x} h = ap (λ a. elim a [ answered z ↦ z | threw t ↦ x ]) h

-- A status request that saw the transaction confirmed, and not failed.
pub record Seen (node : Node) : Type 0 where
  pub turn : ℕ
  pub status : Status
  pub read : with_retry (node.statuses turn) ≡ answered (some status)
  pub not_failed : status.has_failed ≡ false
  pub deep : (status.confirmation ≡ some confirmed) ⊎ (status.confirmation ≡ some finalized)

module _ (node : Node) (signature : Text) where
  stops_at : {s : Text} → stops (answered signature) ≡ stops (answered s) → s ≡ signature
  stops_at h =
      sym (answered-injective (ap (λ t. elim t [ stops a ↦ a | waits ↦ answered signature ]) h))

  reached-deep :
      (c : Option Confirmation) (s : Text)
      → reached signature c ≡ stops (answered s)
      → (s ≡ signature) × ((c ≡ some confirmed) ⊎ (c ≡ some finalized))
  unfolding reached
  reached-deep none s h = absurd (cc h)
  reached-deep (some processed) s h = absurd (cc h)
  reached-deep (some confirmed) s h = (stops_at h, inl refl)
  reached-deep (some finalized) s h = (stops_at h, inr refl)

  read_status-Seen :
      (turn : ℕ) (a : Answer (Option Status)) (s : Text)
      → with_retry (node.statuses turn) ≡ a
      → read_status signature a ≡ stops (answered s)
      → (s ≡ signature) × Seen node
  unfolding read_status
  read_status-Seen turn (threw t) s e h = absurd (cc h)
  read_status-Seen turn (answered none) s e h = absurd (cc h)
  read_status-Seen turn (answered (some st)) s e h = elim (Bool-cases st.has_failed) [
    | inl f ↦ absurd (cc (f, h))
    | inr f ↦
        let same : read_status signature (answered (some st)) ≡ reached signature st.confirmation =
          unfold read_status in rw f in
        let (named, deep) = reached-deep st.confirmation s (sym same ∙ fold_read st h) in
        (named, record { turn = turn; status = st; read = e; not_failed = f; deep = deep })
  ]
    where
      fold_read :
          (st : Status)
          → (if st.has_failed
              then stops (threw executed_and_failed)
              else reached signature st.confirmation)
            ≡ stops (answered s)
          → read_status signature (answered (some st)) ≡ stops (answered s)
      fold_read st h = unfold read_status in h

  or_wait-cases :
      (t : Turn) (rest : Option (Answer Text)) (a : Answer Text)
      → or_wait t rest ≡ some a
      → (t ≡ stops a) ⊎ (rest ≡ some a)
  or_wait-cases (stops b) rest a h = inl (ap stops (some-injective h))
  or_wait-cases waits rest a h = inr h

  poll-early :
      (fuel turn : ℕ)
      → ltb (node.clock turn) (node.started_at + confirm_timeout) ≡ true
      → poll node signature (suc fuel) turn
        ≡ or_wait
            (read_status signature (with_retry (node.statuses turn)))
            (poll node signature fuel (suc turn))
  unfolding poll
  poll-early fuel turn early = rw early

  poll-late :
      (fuel turn : ℕ)
      → ltb (node.clock turn) (node.started_at + confirm_timeout) ≡ false
      → poll node signature (suc fuel) turn ≡ some (threw did_not_confirm)
  unfolding poll
  poll-late fuel turn over = rw over

  poll-Seen :
      (fuel turn : ℕ) (s : Text)
      → poll node signature fuel turn ≡ some (answered s)
      → (s ≡ signature) × Seen node
  poll-Seen zero turn s h = absurd (unfold poll in cc h)
  poll-Seen (suc fuel) turn s h =
      elim (Bool-cases (ltb (node.clock turn) (node.started_at + confirm_timeout))) [
        | inr over ↦ absurd (let e = sym (poll-late fuel turn over) ∙ h in cc e)
        | inl early ↦
            elim (or_wait-cases (read_status signature (with_retry (node.statuses turn))) _
              (answered s) (sym (poll-early fuel turn early) ∙ h)) [
                | inl stop ↦ read_status-Seen turn _ s refl stop
                | inr rest ↦ poll-Seen fuel (suc turn) s rest
              ]
      ]

  poll_after-Seen :
      (fuel : ℕ) (sent : Answer (Unit {0})) (s : Text)
      → poll_after node signature fuel sent ≡ some (answered s)
      → (s ≡ signature) × Seen node
  unfolding poll_after
  poll_after-Seen fuel (threw t) s h = absurd (cc (some-injective h))
  poll_after-Seen fuel (answered u) s h = poll-Seen fuel 0 s h

  broadcast_and_poll-Seen :
      (fuel : ℕ) (skip : Bool) (s : Text)
      → broadcast_and_poll node signature fuel skip ≡ some (answered s)
      → (s ≡ signature) × Seen node
  unfolding broadcast_and_poll
  broadcast_and_poll-Seen fuel skip s h = poll_after-Seen fuel _ s h

  after_confirm-again :
      (fuel : ℕ) (t : Thrown)
      → (not (is_subscription_failure t) && not (is_retryable t)) ≡ false
      → after_confirm node signature fuel (some (threw t))
        ≡ broadcast_and_poll node signature fuel false
  unfolding after_confirm
  after_confirm-again fuel t e = rw e

  after_confirm-Seen :
      (fuel : ℕ) (watched : Option (Answer (Unit {0}))) (s : Text)
      → after_confirm node signature fuel watched ≡ some (answered s)
      → (s ≡ signature) × ((watched ≡ some (answered tt)) ⊎ Seen node)
  unfolding after_confirm
  after_confirm-Seen fuel none s h = absurd (cc h)
  after_confirm-Seen fuel (some (answered u)) s h =
      (sym (answered-injective (some-injective h)), inl refl)
  after_confirm-Seen fuel (some (threw t)) s h =
      elim (Bool-cases (not (is_subscription_failure t) && not (is_retryable t))) [
        | inl e ↦ absurd (cc (e, h))
        | inr e ↦
            let (named, seen) =
              broadcast_and_poll-Seen fuel false s (sym (after_confirm-again fuel t e) ∙ h) in
            (named, inr seen)
      ]

  -- Where `sendPayment` answers with a signature, it is that of the transaction, and either the
  -- confirmer of kit for its lifetime succeeded, or a status request saw the transaction without
  -- an error and confirmed or finalized.
  pub send_payment-Seen :
      (fuel : ℕ) (kit : Confirmers) (lifetime : PaymentLifetime) (skip : Bool) (s : Text)
      → send_payment node signature fuel kit lifetime skip ≡ some (answered s)
      → (s ≡ signature) × ((confirm kit lifetime ≡ some (answered tt)) ⊎ Seen node)
  unfolding send_payment
  send_payment-Seen fuel kit lifetime true s h =
      let (named, seen) = broadcast_and_poll-Seen fuel true s h in (named, inr seen)
  send_payment-Seen fuel kit lifetime false s h = after_confirm-Seen fuel _ s h
