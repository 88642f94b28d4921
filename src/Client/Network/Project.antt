-- ===== src/Client/Network/Project.antt =====
-- packages/client/src/rpc.ts: `projectMint`, from a parsed account to the data that evaluateMint reads.
use vadum.Base.{Option, none, some, if◌then◌else◌}
use vadum.Base.Text.{Text, codes, text_eq}
use vadum.Core.Errors.{vadum_error, mint_incompatible, Result, ok, err}
use vadum.Core.Mint.Evaluate.{RawMintData}
use vadum.Core.Mint.Json.{
  Json, undefined, null, number, string, array, object, Items, no_items, item, no_fields, field,
  get,
}

-- What `getAccountInfo` answers of an account.
pub record AccountInfo : Type 0 where
  pub owner : Text
  pub account_data : Json

unfoldable pub program_by_owner : Text → Option Text
program_by_owner owner =
    if text_eq owner (codes "TokenkegQfeZyiNwAJbNbGKPFXCWuBvf9Ss623VQ5DA")
    then some (codes "spl-token")
    else if text_eq owner (codes "TokenzQdBNbLqP5VEhdkAS6EPFLC1PHnBqCXEpPxuEb")
    then some (codes "token-2022")
    else none

-- `isRecord(value) ? value[key] : undefined`.
unfoldable pub field_of : Json → Text → Json
field_of (object f) key = get f key
field_of _ key = undefined

-- `?? null`.
unfoldable pub or_null : Json → Json
or_null undefined = null
or_null j = j

unfoldable pub string_or_unknown : Json → Json
string_or_unknown (string s) = string s
string_or_unknown _ = string (codes "unknown")

unfoldable pub record_or_empty : Json → Json
record_or_empty (object f) = object f
record_or_empty _ = object no_fields

unfoldable pub project_extension : Json → Json
project_extension entry = object (
    field (codes "extension") (string_or_unknown (field_of entry (codes "extension")))
      (field (codes "state") (record_or_empty (field_of entry (codes "state"))) no_fields))

unfoldable pub project_items : Items → Items
project_items no_items = no_items
project_items (item j rest) = item (project_extension j) (project_items rest)

-- `Array.isArray(info.extensions) ? … : []`, each entry projected.
unfoldable pub project_extensions : Json → Json
project_extensions (array items) = array (project_items items)
project_extensions _ = array no_items

unfoldable pub project_info : Text → Text → Json → Json → Result RawMintData
project_info mint program info (number decimals) = ok (record {
  mint = mint;
  token_program = string program;
  decimals = number decimals;
  freeze_authority = or_null (field_of info (codes "freezeAuthority"));
  extensions = project_extensions (field_of info (codes "extensions"));
})
project_info mint program info _ = err (vadum_error mint_incompatible)

unfoldable pub project_owned : Option Text → Text → Json → Result RawMintData
project_owned none mint info = err (vadum_error mint_incompatible)
project_owned (some program) mint info =
    project_info mint program info (field_of info (codes "decimals"))

unfoldable pub project_mint : Text → AccountInfo → Result RawMintData
project_mint mint account =
    project_owned (program_by_owner account.owner) mint
      (field_of (field_of account.account_data (codes "parsed")) (codes "info"))
