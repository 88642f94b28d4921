-- ===== src/Reference/Bytes.antt =====
-- packages/fixtures/src/bytes.ts: byte helpers. `Uint8Array.of` keeps a number modulo 256.
use vadum.Base.{ℕ, ◌-◌, ◌%◌, ◌^◌, List, length, ◌==◌, if◌then◌else◌}
use vadum.Base.Int.{ℤ, pos, negsuc}
use vadum.Base.Text.{Text}
use vadum.Core.Errors.{Result, ok, err, foreign, or_throw, ◌>>=◌}
use vadum.Core.Kit.{Kit}
use vadum.Wire.Codec.Bytes.{le_bytes}

-- `setBigUint64(0, value, true)`, which keeps a value modulo 2 ^ 64.
unfoldable pub u64le : ℤ → List ℕ
u64le (pos n) = le_bytes 8 n
u64le (negsuc n) = le_bytes 8 (2 ^ 64 - 1 - n % 2 ^ 64)

unfoldable pub address_bytes : Kit → Text → Result (List ℕ)
address_bytes k address = or_throw (k.address_encode address) foreign

-- A base58 text that decodes to exactly 32 bytes.
unfoldable pub base58_bytes32 : Kit → Text → Result (List ℕ)
base58_bytes32 k value = do
  bytes ← or_throw (k.base58_encode value) foreign
  if length bytes == 32 then ok bytes else err foreign
