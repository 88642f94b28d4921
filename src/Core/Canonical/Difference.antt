-- ===== src/Core/Canonical/Difference.antt =====
-- packages/core/src/validate.ts: `assertCanonical`, and the error that names a difference.
use vadum.Base.{
  ℕ, Bool, true, false, not, ◌&&◌, ◌||◌, Option, none, some, List, [], ◌∷◌, ◌==◌, ltb,
  if◌then◌else◌, map, any, get_elem?,
}
use vadum.Base.Text.{Text, text_eq}
use vadum.Core.Errors.{
  ErrorCode, Result, ◌>>=◌, throw_if, canon_account_mismatch, canon_instruction_not_allowed,
  canon_instruction_order, canon_destination_mismatch, canon_amount_mismatch,
}
use vadum.Core.Kit.{Derivation}
use vadum.Core.Types.{CanonicalInput}
use vadum.Core.Canonical.Message.{Compiler, build_message}

-- What kit's decoder makes of message bytes; `none` where it throws.
pub record CompiledInstruction : Type 0 where
  pub program_address_index : ℕ
  pub account_indices : List ℕ
  pub bytes : List ℕ

pub record DecodedMessage : Type 0 where
  pub is_version_0 : Bool
  pub static_accounts : List Text
  pub instructions : Option (List CompiledInstruction)
  pub lookups : ℕ

abbrev pub Decoder : Type 0
Decoder = List ℕ → Option DecodedMessage

pub record ResolvedInstruction : Type 0 where
  pub program : Option Text
  pub accounts : List (Option Text)
  pub bytes : List ℕ

pub record ResolvedMessage : Type 0 where
  pub is_version_0 : Bool
  pub lookups : ℕ
  pub instructions : Option (List ResolvedInstruction)

unfoldable pub resolve : List Text → CompiledInstruction → ResolvedInstruction
resolve accounts i = record {
  program = get_elem? accounts i.program_address_index;
  accounts = map (λ index. get_elem? accounts index) i.account_indices;
  bytes = i.bytes;
}

resolved : DecodedMessage → Option (List CompiledInstruction) → ResolvedMessage
resolved m none = record { is_version_0 = m.is_version_0; lookups = 0; instructions = none }
resolved m (some is) = record {
  is_version_0 = m.is_version_0;
  lookups = m.lookups;
  instructions = some (map (resolve m.static_accounts) is);
}

unfoldable pub resolve_message : Option DecodedMessage → Option ResolvedMessage
unfolding resolved
resolve_message none = none
resolve_message (some m) = some (resolved m m.instructions)

-- `===` on addresses that may be missing.
unfoldable pub same_address : Option Text → Option Text → Bool
same_address none none = true
same_address (some a) (some b) = text_eq a b
same_address _ _ = false

same_byte : Option ℕ → Option ℕ → Bool
same_byte none none = true
same_byte (some a) (some b) = a == b
same_byte _ _ = false

nested : Option (Option Text) → Option Text
nested none = none
nested (some o) = o

unfoldable pub account_at : ResolvedInstruction → ℕ → Option Text
unfolding nested
account_at i n = nested (get_elem? i.accounts n)

unfoldable pub same_accounts : List (Option Text) → List (Option Text) → Bool
same_accounts [] [] = true
same_accounts (a ∷ rest) (b ∷ others) = same_address a b && same_accounts rest others
same_accounts _ _ = false

module _ (d : Derivation) where
  unfoldable pub is_system : ResolvedInstruction → Bool
  is_system i = same_address i.program (some d.system_program)

  unfoldable pub is_ata : ResolvedInstruction → Bool
  is_ata i = same_address i.program (some d.associated_token_program)

  unfoldable pub is_advance_nonce : ResolvedInstruction → Bool
  is_advance_nonce i = is_system i && text_eq i.bytes (4 ∷ 0 ∷ 0 ∷ 0 ∷ [])

  -- One place of the two lists, where both have an instruction; `none` where they agree.
  unfoldable pub explain_pair : (got want : ResolvedInstruction) → Option ErrorCode
  unfolding same_byte
  explain_pair g w =
      let is_transfer =
        same_byte (get_elem? w.bytes 0) (some 12) && not (is_system w) && not (is_ata w) in
      if not (same_address g.program w.program)
        || not (same_byte (get_elem? g.bytes 0) (get_elem? w.bytes 0))
        || is_system w && not (is_advance_nonce g)
      then some canon_instruction_not_allowed
      else if is_ata w
          && (not (same_address (account_at g 1) (account_at w 1))
              || not (same_address (account_at g 2) (account_at w 2)))
      then some canon_destination_mismatch
      else if is_transfer && not (text_eq g.bytes w.bytes)
      then some canon_amount_mismatch
      else if is_transfer && not (same_address (account_at g 2) (account_at w 2))
      then some canon_destination_mismatch
      else if not (text_eq g.bytes w.bytes)
      then some canon_instruction_not_allowed
      else if not (same_accounts g.accounts w.accounts)
      then some canon_account_mismatch
      else none

  or_rest : Option ErrorCode → ErrorCode → ErrorCode
  or_rest none rest = rest
  or_rest (some c) rest = c

  unfoldable pub explain_lists : (got want : List ResolvedInstruction) → ErrorCode
  unfolding or_rest
  explain_lists [] [] = canon_account_mismatch
  explain_lists (g ∷ gs) [] = canon_instruction_not_allowed
  explain_lists [] (w ∷ ws) = canon_account_mismatch
  explain_lists (g ∷ gs) (w ∷ ws) = or_rest (explain_pair g w) (explain_lists gs ws)

  -- Whether the first instruction wanted advances a nonce.
  starts_with_advance : List ResolvedInstruction → Bool
  starts_with_advance [] = false
  starts_with_advance (i ∷ is) = is_advance_nonce i

  unfoldable pub explain_instructions : (got want : List ResolvedInstruction) → ErrorCode
  unfolding starts_with_advance
  explain_instructions got want =
      if any (λ g. not (any (λ w. same_address g.program w.program) want)) got
      then canon_instruction_not_allowed
      else if starts_with_advance want && not (starts_with_advance got)
      then canon_instruction_order
      else explain_lists got want

  explain_against : List ResolvedInstruction → Option ResolvedMessage → ErrorCode
  explain_against got none = canon_account_mismatch
  explain_against got (some m) = elim m.instructions [
    | none ↦ canon_account_mismatch
    | some want ↦ explain_instructions got want
  ]

  explain_resolved : Option ResolvedMessage → Option ResolvedMessage → ErrorCode
  explain_resolved none canonical = canon_account_mismatch
  explain_resolved (some m) canonical = elim m.instructions [
    | none ↦ canon_account_mismatch
    | some got ↦
        if not m.is_version_0 || ltb 0 m.lookups
        then canon_account_mismatch
        else explain_against got canonical
  ]

  unfoldable pub explain_difference : Decoder → (actual canonical : List ℕ) → ErrorCode
  unfolding explain_resolved explain_against
  explain_difference decode actual canonical =
      explain_resolved (resolve_message (decode actual)) (resolve_message (decode canonical))

  unfoldable pub assert_canonical : Compiler → Decoder → List ℕ → CanonicalInput → Result (Unit {0})
  assert_canonical compile decode bytes expected = do
    canonical ← build_message d compile expected
    throw_if (not (text_eq bytes canonical)) (explain_difference decode bytes canonical)
