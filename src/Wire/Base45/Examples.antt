-- ===== src/Wire/Base45/Examples.antt =====
-- Concrete runs of base45, and its theorems at concrete inputs.
use vadum.Base.{◌≡◌, refl, [], ◌∷◌, All, arith, length}
use vadum.Base.Text.{codes}
use vadum.Core.Errors.{ok, err, vadum_error, wire_base45_invalid}
use vadum.Wire.Base45.{to_base45, from_base45}
use vadum.Wire.Base45.RoundTrip.{
  IsByte, from_base45-to_base45, to_base45-from_base45, length-to_base45,
}

-- The example of RFC 9285.
encode_ietf : to_base45 (codes "ietf!") ≡ codes "QED8WEX0"
unfolding to_base45
encode_ietf = refl

decode_ietf : from_base45 (codes "QED8WEX0") ≡ ok (codes "ietf!")
unfolding from_base45
decode_ietf = refl

lower_case_refused : from_base45 (codes "qed") ≡ err (vadum_error wire_base45_invalid)
unfolding from_base45
lower_case_refused = refl

too_large_refused : from_base45 (codes ":::") ≡ err (vadum_error wire_base45_invalid)
unfolding from_base45
too_large_refused = refl

from_base45-to_base45_example : from_base45 (to_base45 (1 ∷ 255 ∷ 7 ∷ [])) ≡ ok (1 ∷ 255 ∷ 7 ∷ [])
from_base45-to_base45_example = from_base45-to_base45 (1 ∷ 255 ∷ 7 ∷ []) (omega arith)

to_base45-from_base45_example :
    All IsByte (codes "ietf!") × (to_base45 (codes "ietf!") ≡ codes "QED8WEX0")
to_base45-from_base45_example = to_base45-from_base45 (codes "QED8WEX0") (codes "ietf!") decode_ietf

length-to_base45_example : length (to_base45 (codes "ietf!")) ≡ 8
length-to_base45_example = length-to_base45 (codes "ietf!")
