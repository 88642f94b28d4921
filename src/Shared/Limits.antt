-- ===== src/Shared/Limits.antt =====
-- apps/shared/src/limits.ts: the payer's own limits on offline payments.
use vadum.Base.{ℕ, suc, ◌/◌, Bool, ◌&&◌}
use vadum.Base.Int.{ℤ, pos, pos_part, leb_ℤ, ltb_ℤ}
use vadum.Client.Pool.Chain.{times}

abbrev pub payer_per_payment_cap : ℤ
payer_per_payment_cap = pos 20_000_000

abbrev pub payer_retype_threshold : ℤ
payer_retype_threshold = pos 10_000_000

unfoldable pub within_payer_cap : (amount cap : ℤ) → Bool
within_payer_cap amount cap = ltb_ℤ (pos 0) amount && leb_ℤ amount cap

unfoldable pub needs_retype : (amount threshold : ℤ) → Bool
needs_retype amount threshold = ltb_ℤ threshold amount

-- `limit * BigInt(Math.floor(Math.max(0, heldForMs) / windowMs) + 1)`, in whole milliseconds and for a
-- window above zero.
unfoldable pub theft_exposure : (held_for : ℤ) → (limit : ℤ) → (window : ℕ) → ℤ
theft_exposure held_for limit window = times (suc (pos_part held_for / window)) limit
