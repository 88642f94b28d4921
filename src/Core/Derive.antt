-- ===== src/Core/Derive.antt =====
-- packages/core/src/derive.ts: addresses both sides derive instead of transmitting.
use vadum.Base.{ℕ, zero, suc, ◌+◌, ◌/◌, ◌%◌, not, [], ◌∷◌, ◌++◌, ltb, if◌then◌else◌}
use vadum.Base.Int.{pos}
use vadum.Base.Number.{Number, int, is_u8}
use vadum.Base.Text.{Text, codes}
use vadum.Core.Errors.{Result, ok, ◌>>=◌, ◌>>◌, throw_if, nonce_index_out_of_range}
use vadum.Core.Kit.{Derivation}
use vadum.Core.Types.{TokenProgram, spl_token, token_2022}

-- A natural number in a template literal. There are at most as many digits as the number's value
-- plus one.
unfoldable pub decimal_digits : ℕ → ℕ → Text
decimal_digits zero n = (48 + n) ∷ []
decimal_digits (suc fuel) n =
    let rest = decimal_digits fuel (n / 10) in
    if ltb n 10 then (48 + n) ∷ [] else rest ++ ((48 + n % 10) ∷ [])

unfoldable pub decimal : ℕ → Text
decimal n = decimal_digits n n

-- The range test leaves the integers 0 to 255 alone.
u8_value : Number → ℕ
u8_value (int (pos n)) = n
u8_value _ = 0

unfoldable pub nonce_seed : Number → Result Text
unfolding decimal u8_value
nonce_seed index = do
  throw_if (not (is_u8 index)) nonce_index_out_of_range
  ok (codes "vadum-" ++ decimal (u8_value index))

unfoldable pub derive_nonce_address : Derivation → Text → Number → Result Text
derive_nonce_address d payer index = do
  seed ← nonce_seed index
  ok (d.create_address_with_seed payer d.system_program seed)

unfoldable pub token_program_address : Derivation → TokenProgram → Text
token_program_address d spl_token = d.token_program
token_program_address d token_2022 = d.token_2022_program

unfoldable pub derive_ata : Derivation → Text → Text → TokenProgram → Text
derive_ata d owner mint program =
    d.find_associated_token_pda owner mint (token_program_address d program)
