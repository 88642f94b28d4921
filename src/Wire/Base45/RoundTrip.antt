-- ===== src/Wire/Base45/RoundTrip.antt =====
-- What `to_base45` writes, and that `from_base45` accepts exactly that.
use vadum.Base.{
  ℕ, ◌+◌, ◌-◌, ◌*◌, ◌/◌, ◌%◌, ◌<◌, ◌≡◌, refl, subst, ◌∙◌, List, [], ◌∷◌, false, arith, length, map,
  All, ltb, ◌==◌,
}
use vadum.Base.Text.{Text}
use vadum.Core.Errors.{ok, >>=-eq-ok, throw_if, throw_if-eq-ok}
use vadum.Wire.Base45.{char_of, to_base45, read_digits, read_groups, from_base45}
use vadum.Wire.Base45.Digits.{read_digits-map, map-read_digits}

abbrev pub IsByte : ℕ → Type 0
IsByte b = b < 256

abbrev pub IsDigit : ℕ → Type 0
IsDigit d = d < 45

-- The values of the characters that `to_base45` writes.
digits : List ℕ → List ℕ
digits [] = []
digits (b ∷ []) = (b % 45) ∷ (b / 45) ∷ []
digits (a ∷ b ∷ rest) =
    let value = a * 256 + b in value % 45 ∷ (value % 2025 / 45) ∷ (value / 2025) ∷ digits rest

to_base45-map : (bs : List ℕ) → to_base45 bs ≡ map char_of (digits bs)
unfolding to_base45 digits
to_base45-map [] = refl
to_base45-map (b ∷ []) = let e : b - b / 45 * 45 ≡ b % 45 = omega arith in rw e
to_base45-map (a ∷ b ∷ rest) =
    let v = a * 256 + b in
    let low : v - v / 2025 * 2025 ≡ v % 2025 = omega arith in
    let last : v % 2025 - v % 2025 / 45 * 45 ≡ v % 45 = omega arith in
    rw (low, last, to_base45-map rest)

digits-IsDigit : (bs : List ℕ) → All IsByte bs → All IsDigit (digits bs)
unfolding digits
digits-IsDigit [] h = tt
digits-IsDigit (b ∷ []) h = omega arith
digits-IsDigit (a ∷ b ∷ rest) h =
    (omega arith, (omega arith, (omega arith, digits-IsDigit rest h.1.1)))

read_groups-digits : (bs : List ℕ) → All IsByte bs → read_groups (digits bs) ≡ ok bs
unfolding digits read_groups
read_groups-digits [] h = refl
read_groups-digits (b ∷ []) h =
    let e : b % 45 + b / 45 * 45 ≡ b = omega arith in rw e (ground arith)
read_groups-digits (a ∷ b ∷ rest) h =
    let v = a * 256 + b in
    let e : v % 45 + v % 2025 / 45 * 45 + v / 2025 * 2025 ≡ v = omega arith in
    let fits : ltb 0xffff v ≡ false = ground arith in
    let high : v / 256 ≡ a = omega arith in
    let last : v % 256 ≡ b = omega arith in rw (e, fits, read_groups-digits rest h.1.1, high, last)

-- `toBase45` of n bytes has (3n + 1) / 2 characters, rounded down.
pub length-to_base45 : (bs : List ℕ) → length (to_base45 bs) ≡ (3 * length bs + 1) / 2
unfolding to_base45
length-to_base45 [] = omega arith
length-to_base45 (b ∷ []) = omega arith
length-to_base45 (a ∷ b ∷ rest) = omega (arith, length-to_base45 rest)

-- `fromBase45` of `toBase45` of a sequence of bytes succeeds with those bytes.
pub from_base45-to_base45 : (bs : List ℕ) → All IsByte bs → from_base45 (to_base45 bs) ≡ ok bs
unfolding from_base45
from_base45-to_base45 bs h =
    let whole : (length (to_base45 bs) % 3 == 1) ≡ false = ground (arith, length-to_base45 bs) in
    rw (whole, to_base45-map bs, read_digits-map (digits bs) (digits-IsDigit bs h))
      (read_groups-digits bs h)

digits-read_groups :
    (ds bs : List ℕ) → All IsDigit ds → read_groups ds ≡ ok bs → All IsByte bs × (digits bs ≡ ds)
unfolding read_groups digits
digits-read_groups [] [] low h = (tt, refl)
digits-read_groups [] (b ∷ bs) low h = cc
digits-read_groups (x ∷ []) bs low h = cc
digits-read_groups (x ∷ y ∷ []) bs low h =
    let v = x + y * 45 in
    let (u, p, q) = >>=-eq-ok (throw_if (ltb 0xff v) _) _ h in
    let fits = throw_if-eq-ok (ltb 0xff v) _ p in
    let e : v ∷ [] ≡ bs = ground arith in
    let last : v % 45 ≡ x = omega arith in
    let high : v / 45 ≡ y = omega arith in
    subst (λ t. All IsByte t × (digits t ≡ x ∷ y ∷ [])) e ((ground arith, tt), rw (last, high))
digits-read_groups (x ∷ y ∷ z ∷ ds) bs low h =
    let v = x + y * 45 + z * 2025 in
    let (u, p, q) = >>=-eq-ok (throw_if (ltb 0xffff v) _) _ h in
    let fits = throw_if-eq-ok (ltb 0xffff v) _ p in
    let (more, r, t) = >>=-eq-ok (read_groups ds) _ q in
    let (bytes, back) = digits-read_groups ds more low.1.1.1 r in
    let e : v / 256 ∷ v % 256 ∷ more ≡ bs = ground arith in
    let whole : v / 256 * 256 + v % 256 ≡ v = omega arith in
    let last : v % 45 ≡ x = omega arith in
    let middle : v % 2025 / 45 ≡ y = omega arith in
    let high : v / 2025 ≡ z = omega arith in
    subst (λ t. All IsByte t × (digits t ≡ x ∷ y ∷ z ∷ ds)) e
      ((ground arith, (omega arith, bytes)), rw (whole, last, middle, high, back))

-- A text that `fromBase45` accepts decodes to bytes below 256, and `toBase45` of them is that
-- text.
pub to_base45-from_base45 :
    (s : Text) (bs : List ℕ) → from_base45 s ≡ ok bs → All IsByte bs × (to_base45 bs ≡ s)
unfolding from_base45
to_base45-from_base45 s bs h =
    let (u, p, q) = >>=-eq-ok (throw_if (length s % 3 == 1) _) _ h in
    let (ds, r, t) = >>=-eq-ok (read_digits s) _ q in
    let (low, back) = map-read_digits s ds r in
    let (bytes, same) = digits-read_groups ds bs low t in (bytes, to_base45-map bs ∙ rw same back)
