-- ===== src/Client/Network/Attempts.antt =====
-- packages/client/src/rpc.ts: how often `withRetry` asks, and whose answer it gives.
use vadum.Base.{
  ℕ, zero, suc, ◌+◌, ◌-◌, ◌≤◌, ◌≡◌, refl, ◌∙◌, ap, Bool, true, false, not, ◌⊎◌, inl, inr, List, [],
  ◌∷◌, All, Bool-cases, arith,
}
use vadum.Client.Network.Retry.{
  retry_attempts, Answer, answered, threw, is_retryable, or_again, retry_from, with_retry,
}

-- An answer that is not asked for again.
abbrev pub is_final : {A : Type 0} → Answer A → Bool
is_final (answered a) = true
is_final (threw t) = not (is_retryable t)

-- The numbers from `first`, as many as asked for.
abbrev pub count_from : (first many : ℕ) → List ℕ
count_from first zero = []
count_from first (suc n) = first ∷ count_from (suc first) n

-- The answer `a` of the call after `more` failed attempts from the one numbered `first`.
pub record Attempted {A : Type 0} (run : ℕ → Answer A) (first left : ℕ) (a : Answer A) (more : ℕ)
    : Type 0 where
  pub bounded : more ≤ left
  pub earlier_failed : All (λ n. is_final (run n) ≡ false) (count_from first more)
  pub answer : a ≡ run (first + more)
  pub last : (more ≡ left) ⊎ (is_final a ≡ true)

at_once : (first : ℕ) → first ≡ first + 0
at_once first = omega arith

one_later : (first more : ℕ) → suc first + more ≡ first + suc more
one_later first more = omega arith

module _ {A : Type 0} (run : ℕ → Answer A) where
  or_again-cases :
      (a again : Answer A)
      → ((or_again a again ≡ a) × (is_final a ≡ true))
        ⊎ ((or_again a again ≡ again) × (is_final a ≡ false))
  or_again-cases (answered x) again = inl (refl, refl)
  or_again-cases (threw t) again = elim (Bool-cases (is_retryable t)) [
    | inl e ↦ inr (rw e, rw e)
    | inr e ↦ inl (rw e, rw e)
  ]

  retry_from-Attempted :
      (left first : ℕ) → (more : ℕ) × Attempted run first left (retry_from left first run) more
  unfolding retry_from
  retry_from-Attempted zero first = (
    0,
    record {
      bounded = omega arith;
      earlier_failed = tt;
      answer = ap run (at_once first);
      last = inl refl;
    },
  )
  retry_from-Attempted (suc left) first =
      elim (or_again-cases (run first) (retry_from left (suc first) run)) [
        | inl stop ↦ (
          0,
          record {
            bounded = omega arith;
            earlier_failed = tt;
            answer = stop.0 ∙ ap run (at_once first);
            last = inr (ap is_final stop.0 ∙ stop.1);
          },
        )
        | inr go ↦
            let (more, later) = retry_from-Attempted left (suc first) in
            (
              suc more,
              record {
                bounded = let b = later.bounded in omega arith;
                earlier_failed = (go.1, later.earlier_failed);
                answer = go.0 ∙ later.answer ∙ ap run (one_later first more);
                last = elim later.last [
                  | inl e ↦ inl (ap suc e)
                  | inr e ↦ inr (ap is_final go.0 ∙ e)
                ];
              },
            )
      ]

  -- `withRetry` gives the answer of an attempt among the first five; each attempt before it threw
  -- a retryable error, and it is the fifth or one that succeeded or threw an error that is not
  -- retryable.
  pub with_retry-Attempted : (more : ℕ) × Attempted run 1 (retry_attempts - 1) (with_retry run) more
  unfolding with_retry
  with_retry-Attempted = retry_from-Attempted (retry_attempts - 1) 1
