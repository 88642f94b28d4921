-- ===== src/Client/Store/Entries.antt =====
-- packages/client/src/store.ts: `createMemoryStore`. A value is cloned on the way in and out, so that a
-- store is a value here: no caller shares a reference with it.
use vadum.Base.{
  Bool, true, false, ◌&&◌, ◌||◌, Option, none, some, List, [], ◌∷◌, ltb, ◌==◌, if◌then◌else◌,
  filter, map,
}
use vadum.Base.Sort.{sort}
use vadum.Base.Text.{Text, text_eq}

module _ {A : Type 0} where
  -- The map in its insertion order.
  unfoldable pub get_value : List (Text × A) → Text → Option A
  get_value [] key = none
  get_value ((k, value) ∷ rest) key = if text_eq k key then some value else get_value rest key

  unfoldable pub set_value : Text → A → List (Text × A) → List (Text × A)
  set_value key value [] = (key, value) ∷ []
  set_value key value ((k, old) ∷ rest) =
      if text_eq k key then (k, value) ∷ rest else (k, old) ∷ set_value key value rest

  unfoldable pub delete_value : Text → List (Text × A) → List (Text × A)
  delete_value key [] = []
  delete_value key ((k, value) ∷ rest) =
      let others = delete_value key rest in if text_eq k key then others else (k, value) ∷ others

-- `key.startsWith(prefix)`.
unfoldable pub starts_with : (prefix key : Text) → Bool
starts_with [] key = true
starts_with (p ∷ ps) [] = false
starts_with (p ∷ ps) (c ∷ cs) = p == c && starts_with ps cs

-- The order of `sort()` on strings: by code units.
unfoldable pub text_not_after : Text → Text → Bool
text_not_after [] t = true
text_not_after (a ∷ s) [] = false
text_not_after (a ∷ s) (b ∷ t) = ltb a b || a == b && text_not_after s t

unfoldable pub keys_with {ℓ} : {A : Type ℓ} → List (Text × A) → Text → List Text
keys_with entries prefix =
    sort text_not_after (filter (starts_with prefix) (map (λ e. e.0) entries))
