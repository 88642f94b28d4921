-- ===== src/Shared/Format.antt =====
-- apps/shared/src/format.ts: amounts as the user types and reads them.
pub mod Digits
pub mod RoundTrip
mod Examples
use vadum.Base.{
  ℕ, zero, suc, ◌+◌, ◌-◌, ◌*◌, ◌^◌, ◌≤◌, Bool, true, false, not, ◌&&◌, ◌||◌, Option, none, some,
  List, [], ◌∷◌, ◌++◌, ltb, leb, ◌==◌, if◌then◌else◌, length, take, drop, replicate,
}
use vadum.Base.Int.{ℤ, pos, negsuc}
use vadum.Base.Text.{Text, codes}
use vadum.Core.Derive.{decimal}

-- `text.padStart(n, '0')` and `text.padEnd(n, '0')`.
unfoldable pub pad_start : Text → ℕ → Text
pad_start text n = replicate (n - length text) 48 ++ text

unfoldable pub pad_end : Text → ℕ → Text
pad_end text n = text ++ replicate (n - length text) 48

unfoldable pub is_empty : Text → Bool
is_empty [] = true
is_empty (c ∷ s) = false

-- The text without the characters at its end that pass the test.
unfoldable pub trim_end_by : (ℕ → Bool) → Text → Text
trim_end_by test [] = []
trim_end_by test (c ∷ s) =
    let rest = trim_end_by test s in if is_empty rest && test c then [] else c ∷ rest

unfoldable pub trim_start_by : (ℕ → Bool) → Text → Text
trim_start_by test [] = []
trim_start_by test (c ∷ s) = if test c then trim_start_by test s else c ∷ s

-- The white space and line ends that `trim` takes off.
unfoldable pub is_space : ℕ → Bool
is_space c =
    leb 9 c && leb c 13
    || c == 32
    || c == 0xa0
    || c == 0x1680
    || leb 0x2000 c && leb c 0x200a
    || c == 0x2028
    || c == 0x2029
    || c == 0x202f
    || c == 0x205f
    || c == 0x3000
    || c == 0xfeff

unfoldable pub trim : Text → Text
trim text = trim_end_by is_space (trim_start_by is_space text)

-- `replace(/0+$/, '')`.
unfoldable pub trim_zeros : Text → Text
trim_zeros text = trim_end_by (λ c. c == 48) text

unfoldable pub with_fraction : Text → Text → Text
with_fraction whole fraction = if is_empty fraction then whole else whole ++ (codes "." ++ fraction)

-- The text of an amount without its sign, of the decimal digits of the amount.
unfoldable pub format_digits : Text → ℕ → Text
format_digits digits decimals =
    with_fraction (take (length digits - decimals) digits)
      (trim_zeros (drop (length digits - decimals) digits))

-- A fraction of no decimals is the empty rest of the digits.
unfoldable pub format_amount : ℤ → ℕ → Text
format_amount (pos base) decimals = format_digits (pad_start (decimal base) (decimals + 1)) decimals
format_amount (negsuc n) decimals =
    codes "-" ++ format_digits (pad_start (decimal (suc n)) (decimals + 1)) decimals

unfoldable pub is_digit : ℕ → Bool
is_digit c = leb 48 c && leb c 57

unfoldable pub all_digits : Text → Bool
all_digits [] = true
all_digits (c ∷ s) = is_digit c && all_digits s

-- `/^\d*(\.\d*)?$/`.
unfoldable pub is_decimal : Text → Bool
is_decimal [] = true
is_decimal (c ∷ s) = is_digit c && is_decimal s || c == 46 && all_digits s

-- The first two parts of `split('.')`.
unfoldable pub split_point : Text → Text × Text
split_point [] = ([], [])
split_point (c ∷ s) = let rest = split_point s in if c == 46 then ([], s) else (c ∷ rest.0, rest.1)

-- `BigInt` of digits, behind the value of those before.
unfoldable pub digits_value : ℕ → Text → ℕ
digits_value before [] = before
digits_value before (c ∷ s) = digits_value (before * 10 + (c - 48)) s

unfoldable pub or_zero : Text → Text
or_zero text = if is_empty text then codes "0" else text

unfoldable pub within_u64 : ℕ → Option ℕ
within_u64 base = if ltb (2 ^ 64 - 1) base then none else some base

unfoldable pub parse_parts : Text → Text → ℕ → Option ℕ
parse_parts whole fraction decimals =
    if ltb decimals (length fraction)
    then none
    else within_u64 (digits_value 0 (or_zero whole ++ pad_end fraction decimals))

is_point : Text → Bool
is_point [] = false
is_point (c ∷ s) = c == 46 && is_empty s

unfoldable pub parse_trimmed : Text → ℕ → Option ℕ
unfolding is_point
parse_trimmed trimmed decimals =
    if not (is_decimal trimmed) || is_empty trimmed || is_point trimmed
    then none
    else parse_parts (split_point trimmed).0 (split_point trimmed).1 decimals

unfoldable pub parse_amount : Text → ℕ → Option ℕ
parse_amount text decimals = parse_trimmed (trim text) decimals

-- `formatSol` and `shortAddress`.
unfoldable pub format_sol : ℤ → Text
format_sol lamports = format_amount lamports 9

unfoldable pub short_address : Text → Text
short_address address = take 4 address ++ (0x2026 ∷ drop (length address - 4) address)
