-- ===== src/Client/MintCache/Examples.antt =====
-- A pausable mint, refreshed and looked at two days later.
use vadum.Base.{◌≡◌, refl, true, some, [], ◌∷◌}
use vadum.Base.Number.{from_nat, is_integer}
use vadum.Base.Text.{codes, text_eq}
use vadum.Core.Errors.{ok}
use vadum.Core.Types.{MintRecord, token_2022, pausable}
use vadum.Core.Mint.Json.{
  null, number, string, array, object, no_items, item, no_fields, field, get, is_null, is_true,
}
use vadum.Core.Mint.Evaluate.{
  RawMintData, kind_of, program_named, integer_of, extension_of, extensions_in, extensions_of,
  apply_kind, apply_all, same_blocker, same_warning, none_left, record_of, evaluate_mint,
}
use vadum.Client.MintCache.Cache.{
  MintCache, stale_mutable, get_record, set_record, keep_record, refresh_mint, staleness,
}
use vadum.Client.MintCache.Staleness.{staleness-refresh_mint}

abbrev pausable_mint : RawMintData
pausable_mint = record {
  mint = codes "mint";
  token_program = string (codes "token-2022");
  decimals = number (from_nat 6);
  freeze_authority = null;
  extensions = array (
      item
        (object (
          field (codes "extension") (string (codes "pausableConfig"))
            (field (codes "state") (object no_fields) no_fields)))
        no_items);
}

abbrev pausable_record : MintRecord
pausable_record = record {
  mint = codes "mint";
  token_program = token_2022;
  decimals = from_nat 6;
  compatible = true;
  blockers = [];
  warnings = pausable ∷ [];
  is_mutable = true;
  checked_at = 7;
}

abbrev empty_cache : MintCache
empty_cache = record { records = []; stored = [] }

abbrev full_cache : MintCache
full_cache = record {
  records = (codes "mint", pausable_record) ∷ [];
  stored = (codes "mint", pausable_record) ∷ [];
}

refreshed :
    refresh_mint true (ok (pausable_mint, 7)) (codes "mint") empty_cache
    ≡ (ok pausable_record, full_cache)
unfolding refresh_mint keep_record set_record evaluate_mint program_named integer_of is_integer
    extensions_of extensions_in extension_of get text_eq kind_of apply_all apply_kind is_null
    is_true none_left record_of same_blocker same_warning
refreshed = refl

staleness-refresh_mint_example :
    (get_record full_cache (codes "mint") ≡ some pausable_record)
    × (staleness full_cache (codes "mint") 200_000_000 ≡ stale_mutable)
staleness-refresh_mint_example =
    staleness-refresh_mint true (ok (pausable_mint, 7)) (codes "mint") 200_000_000 empty_cache
      full_cache pausable_record refreshed
