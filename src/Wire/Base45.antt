-- ===== src/Wire/Base45.antt =====
-- packages/wire/src/base45.ts: RFC 9285 base45. A string is the list of its UTF-16 code units, a
-- `Uint8Array` a list of numbers.
pub mod Digits
pub mod RoundTrip
mod Examples
use vadum.Base.{
  ℕ, suc, ◌+◌, ◌-◌, ◌*◌, ◌/◌, ◌%◌, List, [], ◌∷◌, Option, none, some, ltb, ◌==◌, if◌then◌else◌,
  length, get_or,
}
use vadum.Base.Text.{Text, codes}
use vadum.Core.Errors.{
  Result, ok, err, vadum_error, wire_base45_invalid, or_throw, ◌>>=◌, ◌>>◌, throw_if,
}

abbrev pub base45_alphabet : Text
base45_alphabet = codes "0123456789ABCDEFGHIJKLMNOPQRSTUVWXYZ $%*+-./:"

-- `BASE45_ALPHABET[value]`: the program reads it below 45 only.
unfoldable pub char_of : ℕ → ℕ
char_of value = get_or base45_alphabet value 0

-- `VALUES.get(character)`: the position of a character, counted from `at`.
unfoldable pub position : Text → ℕ → ℕ → Option ℕ
position [] at c = none
position (x ∷ xs) at c = if x == c then some at else position xs (suc at) c

unfoldable pub value_of : ℕ → Option ℕ
unfolding position
value_of c = position base45_alphabet 0 c

-- The loop takes two bytes a round, and the tail after it the odd one.
unfoldable pub to_base45 : List ℕ → Text
unfolding char_of
to_base45 [] = []
to_base45 (b ∷ []) = let d = b / 45 in char_of (b - d * 45) ∷ char_of d ∷ []
to_base45 (a ∷ b ∷ rest) =
    let value = a * 256 + b in
    let c = value / 2025 in
    let low = value - c * 2025 in
    let d = low / 45 in char_of (low - d * 45) ∷ char_of d ∷ char_of c ∷ to_base45 rest

-- The first loop of `fromBase45`: every character is looked up before any arithmetic.
unfoldable pub read_digits : Text → Result (List ℕ)
unfolding value_of
read_digits [] = ok []
read_digits (c ∷ s) = do
  value ← or_throw (value_of c) (vadum_error wire_base45_invalid)
  digits ← read_digits s
  ok (value ∷ digits)

-- The second loop and the tail. One digit is left over only at a length that is refused before.
unfoldable pub read_groups : List ℕ → Result (List ℕ)
read_groups [] = ok []
read_groups (x ∷ []) = err (vadum_error wire_base45_invalid)
read_groups (x ∷ y ∷ []) = do
  let value = x + y * 45
  throw_if (ltb 0xff value) wire_base45_invalid
  ok (value ∷ [])
read_groups (x ∷ y ∷ z ∷ rest) = do
  let more = read_groups rest
  let value = x + y * 45 + z * 2025
  throw_if (ltb 0xffff value) wire_base45_invalid
  bytes ← more
  ok (value / 256 ∷ value % 256 ∷ bytes)

unfoldable pub from_base45 : Text → Result (List ℕ)
unfolding read_digits read_groups
from_base45 s = do
  throw_if (length s % 3 == 1) wire_base45_invalid
  digits ← read_digits s
  read_groups digits
