-- ===== src/Core/Mint/Json.antt =====
-- The `unknown` values that packages/core/src/validate.ts inspects.
use vadum.Base.{Bool, true, false, if◌then◌else◌}
use vadum.Base.Number.{Number, plus_infinity}
use vadum.Base.Text.{Text, codes, text_eq}

mutual
  -- `undefined` is what a field that is not there reads as.
  pub data Json : Type 0 where
    undefined null : Json
    boolean : Bool → Json
    number : Number → Json
    string : Text → Json
    array : Items → Json
    object : Fields → Json

  pub data Items : Type 0 where
    no_items : Items
    item : Json → Items → Items

  pub data Fields : Type 0 where
    no_fields : Fields
    field : Text → Json → Fields → Fields

-- `value[key]`.
unfoldable pub get : Fields → Text → Json
get no_fields key = undefined
get (field name value rest) key = if text_eq name key then value else get rest key

-- `value === null`.
unfoldable pub is_null : Json → Bool
is_null null = true
is_null _ = false

-- `value === true`.
unfoldable pub is_true : Json → Bool
is_true (boolean b) = b
is_true _ = false

-- `value === text`.
unfoldable pub is_text : Text → Json → Bool
is_text t (string s) = text_eq s t
is_text t _ = false

number_or_infinity : Json → Number
number_or_infinity (number x) = x
number_or_infinity _ = plus_infinity

-- `feeBasisPoints`: anything unreadable counts as non-zero.
unfoldable pub fee_basis_points : Json → Number
unfolding number_or_infinity
fee_basis_points (object f) = number_or_infinity (get f (codes "transferFeeBasisPoints"))
fee_basis_points _ = plus_infinity
