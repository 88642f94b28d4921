-- ===== src/Client/Pool/SpendSums.antt =====
-- Sums over a spend log: what is counted at one time, and what still is at a later one.
use vadum.Base.{
  ℕ, ◌≤◌, ◌≡◌, refl, subst, sym, Bool, List, [], ◌∷◌, ◌++◌, arith, if◌then◌else◌, filter, All,
  Bool-cases, inl, inr,
}
use vadum.Base.Int.{
  ℤ, pos, ◌+ℤ◌, ◌≤ℤ◌, ◌<ℤ◌, total, total-nil, total-cons, int_laws, parts_of, eq_of_parts,
}
use vadum.Client.Pool.State.{SpendEntry, counts, amounts}

abbrev pub IsPositive : SpendEntry → Type 0
IsPositive e = pos 0 <ℤ e.amount

unfoldable pub spent_in : List SpendEntry → ℤ
spent_in log = total (amounts log)

pub spent_in-nil : spent_in [] ≡ pos 0
unfolding spent_in amounts
spent_in-nil = total-nil

pub spent_in-cons :
    (e : SpendEntry) (log : List SpendEntry) → spent_in (e ∷ log) ≡ e.amount +ℤ spent_in log
unfolding spent_in amounts
spent_in-cons e log = total-cons e.amount (amounts log)

pub spent_in-append : (xs ys : List SpendEntry) → spent_in (xs ++ ys) ≡ spent_in xs +ℤ spent_in ys
spent_in-append [] ys = eq_of_parts _ _ (omega (int_laws, parts_of spent_in-nil))
spent_in-append (x ∷ xs) ys = eq_of_parts _ _ (
    omega (
      int_laws,
      parts_of (spent_in-cons x (xs ++ ys)),
      parts_of (spent_in-cons x xs),
      parts_of (spent_in-append xs ys),
    ))

pub spent_in-single : (e : SpendEntry) → spent_in (e ∷ []) ≡ e.amount
spent_in-single e =
    eq_of_parts _ _ (omega (int_laws, parts_of (spent_in-cons e []), parts_of spent_in-nil))

pub spent_in-nonnegative : (xs : List SpendEntry) → All IsPositive xs → pos 0 ≤ℤ spent_in xs
spent_in-nonnegative [] h = omega (int_laws, parts_of spent_in-nil)
spent_in-nonnegative (x ∷ xs) h =
    let rest = spent_in-nonnegative xs h.1 in omega (int_laws, h.0, parts_of (spent_in-cons x xs))

module _ (p : SpendEntry → Bool) where
  pub filter-append : (xs ys : List SpendEntry) → filter p (xs ++ ys) ≡ filter p xs ++ filter p ys
  filter-append [] ys = refl
  filter-append (x ∷ xs) ys = ground (arith, filter-append xs ys)

  pub filter-All : (xs : List SpendEntry) → All IsPositive xs → All IsPositive (filter p xs)
  filter-All [] h = tt
  filter-All (x ∷ xs) h = elim (Bool-cases (p x)) [
    | inl e ↦ rw e (h.0, filter-All xs h.1)
    | inr e ↦ rw e (filter-All xs h.1)
  ]

  -- Leaving positive entries out does not raise the sum.
  pub spent_in-filter-le :
      (xs : List SpendEntry) → All IsPositive xs → spent_in (filter p xs) ≤ℤ spent_in xs
  spent_in-filter-le [] h = omega arith
  spent_in-filter-le (x ∷ xs) h =
      let rest = spent_in-filter-le xs h.1 in
      let whole = parts_of (spent_in-cons x xs) in
      let kept = parts_of (spent_in-cons x (filter p xs)) in
      elim (Bool-cases (p x)) [
        | inl e ↦
            subst (λ b. spent_in (if b then x ∷ filter p xs else filter p xs) ≤ℤ spent_in (x ∷ xs))
              (sym e) (omega (int_laws, h.0))
        | inr e ↦
            subst (λ b. spent_in (if b then x ∷ filter p xs else filter p xs) ≤ℤ spent_in (x ∷ xs))
              (sym e) (omega (int_laws, h.0))
      ]

-- What counts at a later time counted before.
pub filter-counts-later :
    (window now t : ℕ) (xs : List SpendEntry)
    → now ≤ t
    → filter (counts t window) (filter (counts now window) xs) ≡ filter (counts t window) xs
filter-counts-later window now t [] h = refl
filter-counts-later window now t (x ∷ xs) h = ground (arith, filter-counts-later window now t xs h)
