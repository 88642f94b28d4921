-- ===== src/Shared/Format/RoundTrip.antt =====
-- apps/shared/src/format.ts: an amount that is shown reads back as itself.
use vadum.Base.{
  ℕ, ◌+◌, ◌-◌, ◌^◌, ◌≤◌, ◌<◌, ◌≡◌, refl, ap, subst, ◌∙◌, true, false, ◌&&◌, some, [], ◌∷◌, ◌++◌,
  ltb, ◌==◌, length, take, drop, replicate, All, All-append, All-map, All-take, All-drop,
  length-append, length-replicate, length-take, length-drop, take-append-drop, arith,
}
use vadum.Base.Int.{pos}
use vadum.Base.Text.{Text}
use vadum.Core.Derive.{decimal, decimal_digits}
use vadum.Shared.Format.{
  pad_start, pad_end, is_empty, trim_end_by, trim_start_by, is_space, trim, trim_zeros,
  with_fraction, format_digits, format_amount, is_digit, all_digits, is_decimal, split_point,
  digits_value, or_zero, within_u64, parse_parts, parse_trimmed, parse_amount,
}
use vadum.Shared.Format.Digits.{
  IsDigit, Digits, decimal_digits-Digits, decimal_digits-value, zeros-value, zeros-Digits, is_zero,
  trim_zeros-pad, trim_end-Digits, trim_end-length,
}

-- A text of digits with a point is no space anywhere.
abbrev NoSpace : ℕ → Type 0
NoSpace c = is_space c ≡ false

digit-NoSpace : (c : ℕ) → IsDigit c → NoSpace c
unfolding is_space
digit-NoSpace c h = let a = h.0 in let b = h.1 in ground arith

trim_start-NoSpace : (t : Text) → All NoSpace t → trim_start_by is_space t ≡ t
unfolding trim_start_by
trim_start-NoSpace [] h = refl
trim_start-NoSpace (c ∷ s) h = rw (h.0)

trim_end-NoSpace : (t : Text) → All NoSpace t → trim_end_by is_space t ≡ t
unfolding trim_end_by
trim_end-NoSpace [] h = refl
trim_end-NoSpace (c ∷ s) h =
    let rest = trim_end-NoSpace s h.1 in
    let no = h.0 in
    let keep : (is_empty (trim_end_by is_space s) && is_space c) ≡ false = ground arith in
    rw keep (ap (λ x. c ∷ x) rest)

trim-NoSpace : (t : Text) → All NoSpace t → trim t ≡ t
unfolding trim
trim-NoSpace t h = ap (trim_end_by is_space) (trim_start-NoSpace t h) ∙ trim_end-NoSpace t h

all_digits-Digits : (t : Text) → Digits t → all_digits t ≡ true
unfolding all_digits is_digit
all_digits-Digits [] h = refl
all_digits-Digits (c ∷ s) h =
    let a = h.0.0 in let b = h.0.1 in let rest = all_digits-Digits s h.1 in ground arith

is_decimal-Digits : (w : Text) → Digits w → is_decimal w ≡ true
unfolding is_decimal is_digit
is_decimal-Digits [] h = refl
is_decimal-Digits (c ∷ s) h =
    let a = h.0.0 in let b = h.0.1 in let rest = is_decimal-Digits s h.1 in ground arith

is_decimal-point : (w f : Text) → Digits w → Digits f → is_decimal (w ++ (46 ∷ f)) ≡ true
unfolding is_decimal is_digit
is_decimal-point [] f h k = let rest = all_digits-Digits f k in ground arith
is_decimal-point (c ∷ s) f h k =
    let a = h.0.0 in let b = h.0.1 in let rest = is_decimal-point s f h.1 k in ground arith

split_point-Digits : (w : Text) → Digits w → split_point w ≡ (w, [])
unfolding split_point
split_point-Digits [] h = refl
split_point-Digits (c ∷ s) h =
    let a = h.0.0 in
    let no : (c == 46) ≡ false = ground arith in
    rw no (ap (λ r. (c ∷ r.0, r.1)) (split_point-Digits s h.1))

split_point-at : (w f : Text) → Digits w → split_point (w ++ (46 ∷ f)) ≡ (w, f)
unfolding split_point
split_point-at [] f h = refl
split_point-at (c ∷ s) f h =
    let a = h.0.0 in
    let no : (c == 46) ≡ false = ground arith in
    rw no (ap (λ r. (c ∷ r.0, r.1)) (split_point-at s f h.1))

-- A text that begins with a digit is neither empty nor a single point.
parse_trimmed-digit :
    (c : ℕ) (rest : Text) (decimals : ℕ)
    → IsDigit c
    → is_decimal (c ∷ rest) ≡ true
    → parse_trimmed (c ∷ rest) decimals
      ≡ parse_parts (split_point (c ∷ rest)).0 (split_point (c ∷ rest)).1 decimals
unfolding parse_trimmed is_empty
parse_trimmed-digit c rest decimals h k =
    let a = h.0 in let no : (c == 46) ≡ false = ground arith in rw (k, no)

-- Both parts of a shown amount are read back.
parse_trimmed-parts :
    (c : ℕ) (s f : Text) (decimals : ℕ)
    → Digits (c ∷ s)
    → Digits f
    → parse_trimmed (with_fraction (c ∷ s) f) decimals ≡ parse_parts (c ∷ s) f decimals
unfolding with_fraction is_empty
parse_trimmed-parts c s [] decimals h k =
    parse_trimmed-digit c s decimals h.0 (is_decimal-Digits (c ∷ s) h)
    ∙ ap (λ r. parse_parts r.0 r.1 decimals) (split_point-Digits (c ∷ s) h)
parse_trimmed-parts c s (d ∷ f) decimals h k =
    parse_trimmed-digit c (s ++ (46 ∷ d ∷ f)) decimals h.0 (is_decimal-point (c ∷ s) (d ∷ f) h k)
    ∙ ap (λ r. parse_parts r.0 r.1 decimals) (split_point-at (c ∷ s) (d ∷ f) h)

with_fraction-NoSpace : (w f : Text) → Digits w → Digits f → All NoSpace (with_fraction w f)
unfolding with_fraction is_empty is_space
with_fraction-NoSpace w [] h k = All-map IsDigit NoSpace digit-NoSpace w h
with_fraction-NoSpace w (d ∷ f) h k =
    All-append NoSpace w (46 ∷ d ∷ f) (All-map IsDigit NoSpace digit-NoSpace w h)
      (refl, All-map IsDigit NoSpace digit-NoSpace (d ∷ f) k)

parse_parts-value :
    (c : ℕ) (s f : Text) (decimals n : ℕ)
    → length f ≤ decimals
    → digits_value 0 ((c ∷ s) ++ pad_end f decimals) ≡ n
    → n ≤ 2 ^ 64 - 1
    → parse_parts (c ∷ s) f decimals ≡ some n
unfolding parse_parts or_zero is_empty within_u64
parse_parts-value c s f decimals n short value fits =
    let room : ltb decimals (length f) ≡ false = ground arith in
    let small : ltb (2 ^ 64 - 1) n ≡ false = ground arith in rw (room, value, small)

parse_shown :
    (w f : Text) (decimals n : ℕ)
    → Digits w
    → Digits f
    → 0 < length w
    → length f ≤ decimals
    → digits_value 0 (w ++ pad_end f decimals) ≡ n
    → n ≤ 2 ^ 64 - 1
    → parse_amount (with_fraction w f) decimals ≡ some n
unfolding parse_amount
parse_shown [] f decimals n h k some_digit short value fits = absurd (omega arith)
parse_shown (c ∷ s) f decimals n h k some_digit short value fits =
    ap (λ t. parse_trimmed t decimals)
      (trim-NoSpace (with_fraction (c ∷ s) f) (with_fraction-NoSpace (c ∷ s) f h k))
    ∙ parse_trimmed-parts c s f decimals h k
    ∙ parse_parts-value c s f decimals n short value fits

-- Digits, at least one more than the decimals, are shown as a text that reads back as their value.
parse_amount-format_digits :
    (digits : Text) (decimals n : ℕ)
    → Digits digits
    → decimals < length digits
    → digits_value 0 digits ≡ n
    → n ≤ 2 ^ 64 - 1
    → parse_amount (format_digits digits decimals) decimals ≡ some n
unfolding format_digits trim_zeros
parse_amount-format_digits digits decimals n h long value fits =
    let k = length digits - decimals in
    let w = take k digits in
    let all = drop k digits in
    let f = trim_end_by is_zero all in
    let w_digits = All-take IsDigit k digits h in
    let f_digits = trim_end-Digits is_zero all (All-drop IsDigit k digits h) in
    let all_long : length all ≡ decimals = omega (arith, length-drop k digits) in
    let back : f ++ replicate (decimals - length f) 48 ≡ all =
      subst (λ m. f ++ replicate (m - length f) 48 ≡ all) all_long (trim_zeros-pad all) in
    let w_long : 0 < length w = omega (arith, length-take k digits) in
    let short : length f ≤ decimals = omega (arith, trim_end-length is_zero all) in
    let padded : pad_end f decimals ≡ all = unfold pad_end in back in
    let whole : w ++ pad_end f decimals ≡ digits =
      ap (λ x. w ++ x) padded ∙ take-append-drop k digits in
    parse_shown w f decimals n w_digits f_digits w_long short (ap (digits_value 0) whole ∙ value)
      fits

-- An amount from 0 to 2^64 - 1 that `formatAmount` shows reads back as itself by `parseAmount`
-- with the same decimals, which are a natural number.
pub parse_amount-format_amount :
    (n decimals : ℕ)
    → n ≤ 2 ^ 64 - 1
    → parse_amount (format_amount (pos n) decimals) decimals ≡ some n
unfolding format_amount pad_start decimal
parse_amount-format_amount n decimals fits =
    let shown = decimal_digits n n in
    let zeros = replicate (decimals + 1 - length shown) 48 in
    let long : decimals < length (zeros ++ shown) = omega (
      arith,
      length-append zeros shown,
      length-replicate {A = ℕ} (decimals + 1 - length shown) 48,
    ) in
    parse_amount-format_digits (zeros ++ shown) decimals n
      (All-append IsDigit zeros shown (zeros-Digits _) (decimal_digits-Digits n n (omega arith)))
      long
      (zeros-value (decimals + 1 - length shown) shown ∙ decimal_digits-value n n (omega arith))
      fits
