-- ===== src/Core/Mint/Examples.antt =====
-- A mint with a live transfer hook, and what is found of it.
use vadum.Base.{◌≡◌, refl, false, not, some, List, [], ◌∷◌}
use vadum.Base.Number.{from_nat, is_integer}
use vadum.Base.Text.{codes, text_eq}
use vadum.Core.Errors.{ok, throw_if, mint_incompatible}
use vadum.Core.Types.{MintRecord, token_2022, transfer_hook_active}
use vadum.Core.Mint.Json.{
  null, number, string, array, object, no_items, item, Fields, no_fields, field, get, is_null,
}
use vadum.Core.Mint.Evaluate.{
  RawMintData, Extension, transfer_hook, kind_of, program_named, integer_of, extension_of,
  extensions_in, extensions_of, apply_kind, apply_all, same_blocker, same_warning, none_left,
  record_of, evaluate_mint, assert_mint_compatible,
}
use vadum.Core.Mint.Compatible.{all_harmless, assert_mint_compatible-evaluate_mint}

abbrev hook_state : Fields
hook_state =
    field (codes "programId") (string (codes "hook")) (field (codes "authority") null no_fields)

abbrev hooked : RawMintData
hooked = record {
  mint = codes "mint";
  token_program = string (codes "token-2022");
  decimals = number (from_nat 6);
  freeze_authority = null;
  extensions = array (
      item
        (object (
          field (codes "extension") (string (codes "transferHook"))
            (field (codes "state") (object hook_state) no_fields)))
        no_items);
}

abbrev found_hook : MintRecord
found_hook = record {
  mint = codes "mint";
  token_program = token_2022;
  decimals = from_nat 6;
  compatible = false;
  blockers = transfer_hook_active ∷ [];
  warnings = [];
  is_mutable = false;
  checked_at = 7;
}

abbrev hooks : List Extension
hooks = record { kind = transfer_hook; state = hook_state } ∷ []

hooks_read : extensions_of hooked.extensions ≡ some hooks
unfolding extensions_of extensions_in extension_of get text_eq kind_of
hooks_read = refl

hook_found : evaluate_mint hooked 7 ≡ ok found_hook
unfolding evaluate_mint program_named integer_of is_integer extensions_of extensions_in extension_of
    get text_eq kind_of apply_all apply_kind is_null none_left record_of same_blocker same_warning
hook_found = refl

assert_mint_compatible-evaluate_mint_example :
    assert_mint_compatible found_hook ≡ throw_if (not (all_harmless hooks)) mint_incompatible
assert_mint_compatible-evaluate_mint_example =
    assert_mint_compatible-evaluate_mint hooked 7 hooks found_hook hooks_read hook_found
