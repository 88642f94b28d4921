-- ===== src/Client/Queue/State.antt =====
-- packages/client/src/queue.ts: queued payments, the map that holds them, and the sums over it.
use vadum.Base.{
  ℕ, ◌+◌, ◌*◌, Bool, true, false, not, ◌&&◌, ◌||◌, Option, none, some, List, [], ◌∷◌, ◌++◌, ltb,
  leb, ◌==◌, if◌then◌else◌, filter, map, any,
}
use vadum.Base.Int.{ℤ, pos, ◌-ℤ◌, ltb_ℤ, total}
use vadum.Base.Number.{Number}
use vadum.Base.Sort.{sort}
use vadum.Base.Text.{Text, codes, text_eq}
use vadum.Core.Errors.{Result, ok, err, ErrorCode, limit_send_window_expired}
use vadum.Core.Types.{PaymentTier, t0, t1, t2, VerifiedPayment, NonceRef}

pub data PaymentState : Type 0 where
  queued submitting settled failed voided : PaymentState

pub record QueuedPayment : Type 0 where
  pub id : Text
  pub payment : VerifiedPayment
  pub tier : PaymentTier
  pub accepted_at : ℕ
  pub amount : ℤ
  pub attempts : ℕ
  pub last_error : Option ErrorCode
  pub state : PaymentState

pub record QueueLimits : Type 0 where
  pub receipt_cap_by_tier : PaymentTier → ℤ
  pub queue_exposure_cap : ℤ
  pub max_consecutive_failed_sends : ℕ
  pub send_window : ℕ

default_cap : PaymentTier → ℤ
default_cap t0 = pos 18_446_744_073_709_551_615
default_cap t1 = pos 20_000_000
default_cap t2 = pos 5_000_000

unfoldable pub default_queue_limits : QueueLimits
unfolding default_cap
default_queue_limits = record {
  receipt_cap_by_tier = default_cap;
  queue_exposure_cap = pos 50_000_000;
  max_consecutive_failed_sends = 3;
  send_window = 24 * 60 * 60 * 1000;
}

-- What the queue uses of its runtime: how a number is printed, SHA-256, the base58 text of a digest,
-- and `localeCompare`, true where the first id does not come after the second.
pub record Runtime : Type 0 where
  pub number_text : Number → Text
  pub sha_256 : List ℕ → List ℕ
  pub base58_text : List ℕ → Text
  pub not_after : Text → Text → Bool

-- The map in its insertion order, the payments in the store, the count of failed sends, and the count
-- that the store keeps under `queue:meta`.
pub record QueueState : Type 0 where
  pub payments : List QueuedPayment
  pub stored : List QueuedPayment
  pub consecutive_failed_sends : ℕ
  pub stored_failed_sends : Option ℕ

id_of_ref : Runtime → Text → Option NonceRef → List ℕ → Text
id_of_ref rt payer (some r) message =
    codes "nonce:" ++ (payer ++ (codes ":" ++ (rt.number_text r.index ++ (codes ":" ++ r.value))))
id_of_ref rt payer none message =
    codes "fresh:" ++ (payer ++ (codes ":" ++ rt.base58_text (rt.sha_256 message)))

-- The dedupe key.
unfoldable pub payment_id : Runtime → VerifiedPayment → Text
unfolding id_of_ref
payment_id rt p = id_of_ref rt p.input.payer p.input.nonce_ref p.message_bytes

unfoldable pub has_id : Text → QueuedPayment → Bool
has_id id p = text_eq p.id id

unfoldable pub has : List QueuedPayment → Text → Bool
has payments id = any (has_id id) payments

-- `Map.set`: an entry that is there keeps its place.
unfoldable pub set_payment : QueuedPayment → List QueuedPayment → List QueuedPayment
set_payment p [] = p ∷ []
set_payment p (x ∷ xs) = if has_id p.id x then p ∷ xs else x ∷ set_payment p xs

unfoldable pub is_unsettled : PaymentState → Bool
is_unsettled queued = true
is_unsettled submitting = true
is_unsettled failed = true
is_unsettled _ = false

unfoldable pub is_t0 : PaymentTier → Bool
is_t0 t0 = true
is_t0 _ = false

unfoldable pub is_exposed : QueuedPayment → Bool
is_exposed p = not (is_t0 p.tier) && is_unsettled p.state

unfoldable pub comes_first : Runtime → QueuedPayment → QueuedPayment → Bool
comes_first rt a b =
    ltb a.accepted_at b.accepted_at || a.accepted_at == b.accepted_at && rt.not_after a.id b.id

unfoldable pub ordered : Runtime → QueueState → List QueuedPayment
ordered rt q = sort (comes_first rt) q.payments

unfoldable pub exposed_in : List QueuedPayment → ℤ
exposed_in ps = total (map (λ p. p.amount) (filter is_exposed ps))

unfoldable pub exposure : Runtime → QueueState → ℤ
exposure rt q = exposed_in (ordered rt q)

-- `remainingExposure`.
unfoldable pub remaining_exposure : Runtime → QueueLimits → QueueState → ℤ
remaining_exposure rt limits q =
    let left = limits.queue_exposure_cap -ℤ exposure rt q in
    if ltb_ℤ (pos 0) left then left else pos 0

unfoldable pub is_open : PaymentState → Bool
is_open settled = false
is_open voided = false
is_open _ = true

unfoldable pub is_expired : QueueLimits → ℕ → QueuedPayment → Bool
is_expired limits now p = is_open p.state && leb (p.accepted_at + limits.send_window) now

unfoldable pub void_payment : QueuedPayment → QueuedPayment
void_payment p = record p { state = voided; last_error = some limit_send_window_expired }

unfoldable pub set_all : List QueuedPayment → List QueuedPayment → List QueuedPayment
set_all [] payments = payments
set_all (p ∷ ps) payments = set_all ps (set_payment p payments)

-- A call goes on with what the first part answers, or ends with what it throws.
abbrev pub then_run :
    {A B : Type 0}
    → Result A × QueueState
    → (A → QueueState → Result B × QueueState)
    → Result B × QueueState
then_run (ok a, q) next = next a q
then_run (err e, q) next = (err e, q)
