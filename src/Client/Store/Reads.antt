-- ===== src/Client/Store/Reads.antt =====
-- What a read of the store gives after a write.
use vadum.Base.{
  ◌≡◌, refl, sym, ap, ◌∙◌, true, some, List, [], ◌∷◌, if◌then◌else◌, Bool-cases, inl, inr,
}
use vadum.Base.Text.{Text, text_eq, text_eq→eq, text_eq_refl}
use vadum.Client.Store.Entries.{get_value, set_value}

module _ {A : Type 0} where
  -- After a write of a value under a key, a read of that key gives the value, and a read of any
  -- other key gives what it gave before.
  pub get_value-set_value :
      (key other : Text) (value : A) (entries : List (Text × A))
      → get_value (set_value key value entries) other
        ≡ (if text_eq key other then some value else get_value entries other)
  unfolding get_value set_value
  get_value-set_value key other value [] = refl
  get_value-set_value key other value ((k, old) ∷ rest) = elim (Bool-cases (text_eq k key)) [
    | inl e ↦
        let same : k ≡ key = text_eq→eq k key e in
        elim (Bool-cases (text_eq key other)) [ inl f ↦ rw (e, same, f) | inr f ↦ rw (e, same, f) ]
    | inr e ↦
        let later = get_value-set_value key other value rest in
        elim (Bool-cases (text_eq k other)) [
          | inl f ↦ elim (Bool-cases (text_eq key other)) [
            | inl g ↦
                let same : k ≡ key = text_eq→eq k other f ∙ sym (text_eq→eq key other g) in
                let equal : text_eq k key ≡ true = ap (text_eq k) (sym same) ∙ text_eq_refl k in
                cc (e, equal)
            | inr g ↦ rw (e, f, g)
          ]
          | inr f ↦ rw (e, f) later
        ]
  ]
