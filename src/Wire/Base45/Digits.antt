-- ===== src/Wire/Base45/Digits.antt =====
-- The alphabet as a bijection between the numbers below 45 and its characters.
use vadum.Base.{
  ℕ, suc, ◌+◌, ◌<◌, ◌≡◌, refl, subst, Bool, true, false, inl, inr, Bool-cases, List, [], ◌∷◌,
  Option, none, some, arith, ◌==◌, length, get_or, map, All, all_below, all_below_sound,
}
use vadum.Base.Text.{Text}
use vadum.Core.Errors.{ok, or_throw, >>=-eq-ok, or_throw-eq-ok}
use vadum.Wire.Base45.{base45_alphabet, char_of, position, value_of, read_digits}

is_value : Option ℕ → ℕ → Bool
is_value none v = false
is_value (some w) v = w == v

is_value→eq : (o : Option ℕ) (v : ℕ) → is_value o v ≡ true → o ≡ some v
unfolding is_value
is_value→eq none v h = cc
is_value→eq (some w) v h = ground arith

table : all_below 45 (λ v. is_value (value_of (char_of v)) v) ≡ true
unfolding all_below is_value value_of char_of
table = refl

-- Each value below 45 has a character of its own.
pub value_of-char_of : (v : ℕ) → v < 45 → value_of (char_of v) ≡ some v
value_of-char_of v h = is_value→eq _ v (all_below_sound 45 _ v h table)

position_sound :
    (xs : Text) (at c v : ℕ)
    → position xs at c ≡ some v
    → (k : ℕ) × (v ≡ at + k) × (k < length xs) × (get_or xs k 0 ≡ c)
unfolding position
position_sound [] at c v h = cc
position_sound (x ∷ xs) at c v h = elim (Bool-cases (x == c)) [
  | inl e ↦ (0, ground arith, omega arith, ground arith)
  | inr e ↦
      let (k, p, q, r) = position_sound xs (suc at) c v (rw e at h) in
      (suc k, omega arith, omega arith, r)
]

-- A character is accepted only as the one of its value.
pub char_of-value_of : (c v : ℕ) → value_of c ≡ some v → (v < 45) × (char_of v ≡ c)
unfolding value_of char_of
char_of-value_of c v h =
    let (k, p, q, r) = position_sound base45_alphabet 0 c v h in
    let e : v ≡ k = omega arith in rw e (q, r)

pub read_digits-map : (ds : List ℕ) → All (λ d. d < 45) ds → read_digits (map char_of ds) ≡ ok ds
unfolding read_digits
read_digits-map [] h = refl
read_digits-map (d ∷ ds) h = rw (value_of-char_of d h.0, read_digits-map ds h.1)

pub map-read_digits :
    (s : Text) (ds : List ℕ) → read_digits s ≡ ok ds → All (λ d. d < 45) ds × (map char_of ds ≡ s)
unfolding read_digits
map-read_digits [] [] h = (tt, refl)
map-read_digits [] (d ∷ ds) h = cc
map-read_digits (c ∷ s) ds h =
    let (v, p, q) = >>=-eq-ok (or_throw (value_of c) _) _ h in
    let (vs, r, t) = >>=-eq-ok (read_digits s) _ q in
    let low = char_of-value_of c v (or_throw-eq-ok (value_of c) _ p) in
    let (lows, back) = map-read_digits s vs r in
    let e : v ∷ vs ≡ ds = ground arith in
    subst (λ xs. All (λ d. d < 45) xs × (map char_of xs ≡ c ∷ s)) e
      ((low.0, lows), rw (low.1, back))
