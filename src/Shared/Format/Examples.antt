-- ===== src/Shared/Format/Examples.antt =====
-- Amounts of a mint with six decimals.
use vadum.Base.{◌≡◌, refl, none, some, arith}
use vadum.Base.Int.{pos, negsuc}
use vadum.Base.Text.{codes}
use vadum.Core.Derive.{decimal, decimal_digits}
use vadum.Shared.Format.{
  format_sol, short_address, pad_start, is_empty, trim_end_by, trim_start_by, is_space, trim,
  trim_zeros, with_fraction, format_digits, format_amount, is_digit, all_digits, is_decimal,
  parse_trimmed, parse_parts, split_point, parse_amount,
}
use vadum.Shared.Format.RoundTrip.{parse_amount-format_amount}

shows_a_debt : format_amount (negsuc 1_499_999) 6 ≡ codes "-1.5"
unfolding format_amount format_digits pad_start decimal decimal_digits with_fraction is_empty
    trim_zeros trim_end_by
shows_a_debt = refl

shows_sol : format_sol (pos 1_500_000_000) ≡ codes "1.5"
unfolding format_sol format_amount format_digits pad_start decimal decimal_digits with_fraction
    is_empty trim_zeros trim_end_by
shows_sol = refl

shortens : short_address (codes "abcdefghij") ≡ codes "abcd…ghij"
unfolding short_address
shortens = refl

too_fine : parse_amount (codes " 0.0000001") 6 ≡ none
unfolding parse_amount parse_trimmed is_decimal trim trim_end_by trim_start_by is_space is_empty
    is_digit all_digits parse_parts split_point
too_fine = refl

parse_amount-format_amount_example :
    parse_amount (format_amount (pos 1_500_000) 6) 6 ≡ some 1_500_000
parse_amount-format_amount_example = parse_amount-format_amount 1_500_000 6 (omega arith)
