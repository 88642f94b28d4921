-- ===== src/Base/Number.antt =====
-- JavaScript's `number`, as far as the program tells its values apart.
use Prim.Native.Nat.{ℕ, zero, suc, ◌-◌, ◌%◌, ◌≤◌}
use mathlib.Core.Bool.{Bool, true, false}
use mathlib.Core.Path.{◌≡◌, refl}
use native.Mathlib.Omega.{arith}
use vadum.Base.Bools.{leb, ◌==◌}
use vadum.Base.Int.{ℤ, pos, negsuc}

-- `between n` is a number strictly between the integers n and n + 1.
pub data Number : Type 0 where
  int : ℤ → Number
  between : ℤ → Number
  nan plus_infinity minus_infinity : Number

abbrev pub from_nat : ℕ → Number
from_nat n = int (pos n)

-- `Number.isInteger(x)`.
unfoldable pub is_integer : Number → Bool
is_integer (int z) = true
is_integer _ = false

-- `Number.isInteger(x) && x >= 0 && x <= 255`.
unfoldable pub is_u8 : Number → Bool
is_u8 (int (pos n)) = leb n 255
is_u8 _ = false

mod_256 : ℤ → ℕ
mod_256 (pos n) = n % 256
mod_256 (negsuc n) = 255 - n % 256

-- What a write into a `Uint8Array` keeps: the number truncated, modulo 256.
unfoldable pub to_uint8 : Number → ℕ
unfolding mod_256
to_uint8 (int z) = mod_256 z
to_uint8 (between (pos n)) = n % 256
to_uint8 (between (negsuc zero)) = 0
to_uint8 (between (negsuc (suc n))) = mod_256 (negsuc n)
to_uint8 _ = 0

-- `x === n` for a natural number n.
unfoldable pub number_is : Number → ℕ → Bool
number_is (int (pos n)) b = n == b
number_is _ b = false

-- `x > 0`.
unfoldable pub is_positive : Number → Bool
is_positive (int (pos zero)) = false
is_positive (int (pos (suc n))) = true
is_positive (between (pos n)) = true
is_positive plus_infinity = true
is_positive _ = false

pub number_is→eq : (x : Number) (n : ℕ) → number_is x n ≡ true → x ≡ from_nat n
unfolding number_is
number_is→eq (int (pos m)) n h = ground arith
number_is→eq (int (negsuc m)) n h = cc
number_is→eq (between z) n h = cc
number_is→eq nan n h = cc
number_is→eq plus_infinity n h = cc
number_is→eq minus_infinity n h = cc

pub number_is-from_nat : (n : ℕ) → number_is (from_nat n) n ≡ true
unfolding number_is
number_is-from_nat n = ground arith

pub to_uint8-from_nat : (n : ℕ) → n ≤ 255 → to_uint8 (from_nat n) ≡ n
unfolding to_uint8
to_uint8-from_nat n h = omega arith

-- A number that passes the range test is a byte.
pub is_u8→nat : (x : Number) → is_u8 x ≡ true → (n : ℕ) × (x ≡ from_nat n) × (n ≤ 255)
unfolding is_u8
is_u8→nat (int (pos n)) h = (n, refl, ground arith)
is_u8→nat (int (negsuc m)) h = cc
is_u8→nat (between z) h = cc
is_u8→nat nan h = cc
is_u8→nat plus_infinity h = cc
is_u8→nat minus_infinity h = cc
