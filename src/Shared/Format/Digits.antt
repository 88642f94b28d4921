-- ===== src/Shared/Format/Digits.antt =====
-- apps/shared/src/format.ts: digits, their value and their trailing zeros.
use vadum.Base.{
  ℕ, zero, suc, ◌+◌, ◌-◌, ◌*◌, ◌/◌, ◌≤◌, ◌≡◌, refl, sym, ap, ◌∙◌, Bool, true, false, ◌&&◌, [], ◌∷◌,
  ◌++◌, ltb, ◌==◌, if◌then◌else◌, length, replicate, All, All-append, Bool-cases, inl, inr, arith,
}
use vadum.Base.Text.{Text}
use vadum.Core.Derive.{decimal_digits}
use vadum.Shared.Format.{is_empty, trim_end_by, digits_value}

-- A decimal digit, as a code unit.
abbrev pub IsDigit : ℕ → Type 0
IsDigit c = (48 ≤ c) × (c ≤ 57)

abbrev pub Digits : Text → Type 0
Digits t = All IsDigit t

pub decimal_digits-Digits : (fuel n : ℕ) → n ≤ fuel → Digits (decimal_digits fuel n)
unfolding decimal_digits
decimal_digits-Digits zero n h = ((omega arith, omega arith), tt)
decimal_digits-Digits (suc fuel) n h = elim (Bool-cases (ltb n 10)) [
  | inl e ↦ rw e (((omega arith, ground arith), tt))
  | inr e ↦ rw e (
      All-append IsDigit (decimal_digits fuel (n / 10)) _
        (decimal_digits-Digits fuel (n / 10) (ground arith)) ((omega arith, omega arith), tt))
]

digits_value-append :
    (b : ℕ) (s t : Text) → digits_value b (s ++ t) ≡ digits_value (digits_value b s) t
unfolding digits_value
digits_value-append b [] t = refl
digits_value-append b (c ∷ s) t = digits_value-append (b * 10 + (c - 48)) s t

pub decimal_digits-value : (fuel n : ℕ) → n ≤ fuel → digits_value 0 (decimal_digits fuel n) ≡ n
unfolding decimal_digits digits_value
decimal_digits-value zero n h = omega arith
decimal_digits-value (suc fuel) n h = elim (Bool-cases (ltb n 10)) [
  | inl e ↦ rw e (omega arith)
  | inr e ↦
      let front = decimal_digits-value fuel (n / 10) (ground arith) in
      rw e (digits_value-append 0 (decimal_digits fuel (n / 10)) _ ∙ rw front (omega arith))
]

pub zeros-value : (k : ℕ) (t : Text) → digits_value 0 (replicate k 48 ++ t) ≡ digits_value 0 t
unfolding digits_value
zeros-value zero t = refl
zeros-value (suc k) t = zeros-value k t

pub zeros-Digits : (k : ℕ) → Digits (replicate k 48)
zeros-Digits zero = tt
zeros-Digits (suc k) = ((omega arith, omega arith), zeros-Digits k)

is_empty→nil : (t : Text) → is_empty t ≡ true → t ≡ []
unfolding is_empty
is_empty→nil [] h = refl
is_empty→nil (c ∷ s) h = absurd (cc h)

abbrev pub is_zero : ℕ → Bool
is_zero c = c == 48

-- Zeros that are taken off at the end come back by padding.
pad_by :
    (c : ℕ) (r s : Text) (b : Bool)
    → (b ≡ true → (r ≡ []) × (c ≡ 48))
    → r ++ replicate (length s - length r) 48 ≡ s
    → (if b then [] else c ∷ r) ++ replicate (suc (length s) - length (if b then [] else c ∷ r)) 48
      ≡ c ∷ s
pad_by c r s true h ih =
    let (none_left, zero_c) = h refl in
    let back : replicate (length s) 48 ≡ s =
      ap (λ k. replicate k 48) (let n : length s ≡ length s - 0 = omega arith in n)
      ∙ ap (λ x. x ++ replicate (length s - length x) 48) (sym none_left)
      ∙ ih in
    let n : suc (length s) - 0 ≡ suc (length s) = omega arith in
    rw zero_c (ap (λ k. replicate k 48) n ∙ ap (λ x. 48 ∷ x) back)
pad_by c r s false h ih =
    let n : suc (length s) - suc (length r) ≡ length s - length r = omega arith in
    ap (λ x. c ∷ x) (ap (λ k. r ++ replicate k 48) n ∙ ih)

pub trim_zeros-pad :
    (f : Text)
    → trim_end_by is_zero f ++ replicate (length f - length (trim_end_by is_zero f)) 48 ≡ f
unfolding trim_end_by
trim_zeros-pad [] = refl
trim_zeros-pad (c ∷ s) =
    let r = trim_end_by is_zero s in
    pad_by c r s (is_empty r && is_zero c) (λ e. (is_empty→nil r (ground arith), ground arith))
      (trim_zeros-pad s)

pub trim_end-Digits : (test : ℕ → Bool) (f : Text) → Digits f → Digits (trim_end_by test f)
unfolding trim_end_by
trim_end-Digits test [] h = tt
trim_end-Digits test (c ∷ s) h = elim (Bool-cases (is_empty (trim_end_by test s) && test c)) [
  | inl e ↦ rw e tt
  | inr e ↦ rw e (h.0, trim_end-Digits test s h.1)
]

pub trim_end-length : (test : ℕ → Bool) (f : Text) → length (trim_end_by test f) ≤ length f
unfolding trim_end_by
trim_end-length test [] = omega arith
trim_end-length test (c ∷ s) = elim (Bool-cases (is_empty (trim_end_by test s) && test c)) [
  | inl e ↦ rw e (omega arith)
  | inr e ↦ rw e (omega (arith, trim_end-length test s))
]
