-- ===== src/Client/Network/Retry.antt =====
-- packages/client/src/rpc.ts: `withRetry`, and how it tells a transport failure from a decision.
use vadum.Base.{
  ℕ, zero, suc, ◌+◌, ◌-◌, Bool, false, ◌&&◌, ◌||◌, Option, none, some, List, [], ◌∷◌, ◌==◌, leb,
  if◌then◌else◌, any, map,
}
use vadum.Base.Text.{Text, codes}
use vadum.Core.Errors.{Failure, Result, ok, err}
use vadum.Client.Submit.{includes}

abbrev pub retry_attempts : ℕ
retry_attempts = 5

retryable_status : List ℕ
retryable_status = 429 ∷ 500 ∷ 502 ∷ 503 ∷ 504 ∷ []

-- What a request throws: the numbers in its `context`, its text, and how the callers see it.
pub record Thrown : Type 0 where
  pub status_code : Option ℕ
  pub kit_code : Option ℕ
  pub message : Text
  pub failure : Failure

pub data Answer (A : Type 0) : Type 0 where
  answered : A → Answer A
  threw : Thrown → Answer A

unfoldable pub result_of : {A : Type 0} → Answer A → Result A
result_of (answered a) = ok a
result_of (threw t) = err t.failure

-- A regular expression with the flag `i` folds the case of ASCII letters.
fold_case : ℕ → ℕ
fold_case c = if leb 65 c && leb c 90 then c + 32 else c

unfoldable pub mentions : Text → Text → Bool
unfolding fold_case
mentions message word = includes (map fold_case message) (map fold_case word)

transport_words : List Text
transport_words =
    codes "Too Many Requests"
    ∷ codes "rate limit"
    ∷ codes "fetch failed"
    ∷ codes "ETIMEDOUT"
    ∷ codes "ECONNRESET"
    ∷ codes "socket hang up"
    ∷ []

retryable_by : Option ℕ → Text → Bool
unfolding retryable_status transport_words
retryable_by (some status) message = any (◌==◌ status) retryable_status
retryable_by none message = any (mentions message) transport_words

unfoldable pub is_retryable : Thrown → Bool
unfolding retryable_by
is_retryable t = retryable_by t.status_code t.message

channel_failed : Option ℕ → Bool
channel_failed none = false
channel_failed (some code) = code == 8_190_004

unfoldable pub is_subscription_failure : Thrown → Bool
unfolding channel_failed
is_subscription_failure t =
    channel_failed t.kit_code
    || mentions t.message (codes "WebSocket")
    || mentions t.message (codes "subscription")

abbrev pub or_again : {A : Type 0} → Answer A → Answer A → Answer A
or_again (answered a) again = answered a
or_again (threw t) again = if is_retryable t then again else threw t

-- The loop: `left` is how many attempts may follow this one, RETRY_ATTEMPTS - attempt. `run attempt`
-- is what the call answers at that attempt; the pause between two attempts is left out.
unfoldable pub retry_from : {A : Type 0} → (left attempt : ℕ) → (run : ℕ → Answer A) → Answer A
retry_from zero attempt run = run attempt
retry_from (suc left) attempt run =
    let again = retry_from left (suc attempt) run in or_again (run attempt) again

unfoldable pub with_retry : {A : Type 0} → (run : ℕ → Answer A) → Answer A
with_retry run = retry_from (retry_attempts - 1) 1 run
