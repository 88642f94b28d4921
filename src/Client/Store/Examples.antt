-- ===== src/Client/Store/Examples.antt =====
-- A write to the store that replaces a value.
use vadum.Base.{ℕ, ◌≡◌, refl, some, List, [], ◌∷◌}
use vadum.Base.Text.{Text, codes, text_eq}
use vadum.Client.Store.Entries.{get_value, set_value}

abbrev held : List (Text × ℕ)
held = (codes "pool:a", 1) ∷ (codes "mint:b", 2) ∷ []

keeps_the_rest : get_value (set_value (codes "pool:a") 7 held) (codes "mint:b") ≡ some 2
unfolding get_value set_value text_eq
keeps_the_rest = refl
