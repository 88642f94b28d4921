-- ===== src/Core/Mint/Evaluate.antt =====
-- packages/core/src/validate.ts: `evaluateMint` and `assertMintCompatible`.
use vadum.Base.{
  ℕ, Bool, true, false, not, ◌||◌, Option, none, some, List, [], ◌∷◌, if◌then◌else◌, any, filter,
  ◌==◌,
}
use vadum.Base.Number.{Number, is_integer, is_positive}
use vadum.Base.Text.{Text, codes, text_eq}
use vadum.Core.Errors.{Result, ok, vadum_error, ◌>>=◌, or_throw, throw_if, mint_incompatible}
use vadum.Core.Types.{
  TokenProgram, spl_token, token_2022, MintRecord, MintBlocker, transfer_hook_active,
  transfer_fee_nonzero, default_account_state_frozen, non_transferable, paused, MintWarning,
  permanent_delegate, pausable, confidential_transfer, freeze_authority, mint_close_authority,
  unknown_extension,
}
use vadum.Core.Mint.Json.{
  Json, number, string, array, object, Items, no_items, item, Fields, get, is_null, is_true,
  is_text, fee_basis_points,
}

pub record RawMintData : Type 0 where
  pub mint : Text
  pub token_program : Json
  pub decimals : Json
  pub freeze_authority : Json
  pub extensions : Json

-- The cases of the `switch`.
pub data ExtensionKind : Type 0 where
  transfer_hook transfer_fee_config non_transferable_mint default_account_state : ExtensionKind
  permanent_delegate_mint pausable_config confidential_transfer_mint mint_close : ExtensionKind
  without_effect other_extension : ExtensionKind

pub record Extension : Type 0 where
  pub kind : ExtensionKind
  pub state : Fields

names : List (Text × ExtensionKind)
names =
    (codes "transferHook", transfer_hook)
    ∷ (codes "transferFeeConfig", transfer_fee_config)
    ∷ (codes "nonTransferable", non_transferable_mint)
    ∷ (codes "defaultAccountState", default_account_state)
    ∷ (codes "permanentDelegate", permanent_delegate_mint)
    ∷ (codes "pausableConfig", pausable_config)
    ∷ (codes "confidentialTransferMint", confidential_transfer_mint)
    ∷ (codes "confidentialTransferFeeConfig", confidential_transfer_mint)
    ∷ (codes "mintCloseAuthority", mint_close)
    ∷ (codes "metadataPointer", without_effect)
    ∷ (codes "tokenMetadata", without_effect)
    ∷ []

kind_in : List (Text × ExtensionKind) → Text → ExtensionKind
kind_in [] name = other_extension
kind_in ((known, kind) ∷ rest) name = if text_eq known name then kind else kind_in rest name

unfoldable pub kind_of : Text → ExtensionKind
unfolding names kind_in
kind_of name = kind_in names name

-- The well-formedness test, with what it makes readable.
unfoldable pub program_named : Json → Option TokenProgram
program_named (string s) =
    if text_eq s (codes "spl-token")
    then some spl_token
    else if text_eq s (codes "token-2022")
    then some token_2022
    else none
program_named _ = none

unfoldable pub integer_of : Json → Option Number
integer_of (number x) = if is_integer x then some x else none
integer_of _ = none

named_state : Json → Json → Option Extension
named_state (string name) (object state) = some (record { kind = kind_of name; state = state })
named_state _ _ = none

unfoldable pub extension_of : Json → Option Extension
unfolding named_state
extension_of (object f) = named_state (get f (codes "extension")) (get f (codes "state"))
extension_of _ = none

both : Option Extension → Option (List Extension) → Option (List Extension)
both (some e) (some es) = some (e ∷ es)
both _ _ = none

unfoldable pub extensions_in : Items → Option (List Extension)
unfolding both
extensions_in no_items = some []
extensions_in (item j rest) = both (extension_of j) (extensions_in rest)

unfoldable pub extensions_of : Json → Option (List Extension)
extensions_of (array items) = extensions_in items
extensions_of _ = none

-- The two sets, in the order of their insertions, and `mutable`.
pub record Verdict : Type 0 where
  pub blockers : List MintBlocker
  pub warnings : List MintWarning
  pub is_mutable : Bool

abbrev pub blocks : MintBlocker → Bool → Verdict → Verdict
blocks b test v = if test then record v { blockers = b ∷ v.blockers } else v

abbrev pub warns : MintWarning → Bool → Verdict → Verdict
warns w test v = if test then record v { warnings = w ∷ v.warnings } else v

abbrev pub mutates : Bool → Verdict → Verdict
mutates test v = if test then record v { is_mutable = true } else v

unfoldable pub apply_kind : (freeze : Json) → ExtensionKind → Fields → Verdict → Verdict
apply_kind freeze transfer_hook state v =
    mutates (not (is_null (get state (codes "authority"))))
      (blocks transfer_hook_active (not (is_null (get state (codes "programId")))) v)
apply_kind freeze transfer_fee_config state v =
    mutates (not (is_null (get state (codes "transferFeeConfigAuthority")))) (
      blocks transfer_fee_nonzero
        (is_positive (fee_basis_points (get state (codes "olderTransferFee")))
          || is_positive (fee_basis_points (get state (codes "newerTransferFee"))))
        v)
apply_kind freeze non_transferable_mint state v = blocks non_transferable true v
apply_kind freeze default_account_state state v = mutates (not (is_null freeze)) (
    blocks default_account_state_frozen
      (not (is_text (codes "initialized") (get state (codes "accountState")))) v)
apply_kind freeze permanent_delegate_mint state v =
    warns permanent_delegate (not (is_null (get state (codes "delegate")))) v
apply_kind freeze pausable_config state v =
    mutates true (blocks paused (is_true (get state (codes "paused"))) (warns pausable true v))
apply_kind freeze confidential_transfer_mint state v = warns confidential_transfer true v
apply_kind freeze mint_close state v =
    warns mint_close_authority (not (is_null (get state (codes "closeAuthority")))) v
apply_kind freeze without_effect state v = v
apply_kind freeze other_extension state v = warns unknown_extension true v

unfoldable pub apply_all : (freeze : Json) → List Extension → Verdict → Verdict
apply_all freeze [] v = v
apply_all freeze (e ∷ es) v = apply_all freeze es (apply_kind freeze e.kind e.state v)

blocker_code : MintBlocker → ℕ
blocker_code transfer_hook_active = 0
blocker_code transfer_fee_nonzero = 1
blocker_code default_account_state_frozen = 2
blocker_code non_transferable = 3
blocker_code paused = 4

warning_code : MintWarning → ℕ
warning_code permanent_delegate = 0
warning_code pausable = 1
warning_code confidential_transfer = 2
warning_code freeze_authority = 3
warning_code mint_close_authority = 4
warning_code unknown_extension = 5

unfoldable pub same_blocker : MintBlocker → MintBlocker → Bool
unfolding blocker_code
same_blocker a b = blocker_code a == blocker_code b

unfoldable pub same_warning : MintWarning → MintWarning → Bool
unfolding warning_code
same_warning a b = warning_code a == warning_code b

abbrev pub blocker_order : List MintBlocker
blocker_order =
    transfer_hook_active ∷ transfer_fee_nonzero ∷ default_account_state_frozen ∷ non_transferable
    ∷ paused ∷ []

abbrev pub warning_order : List MintWarning
warning_order =
    permanent_delegate ∷ pausable ∷ confidential_transfer ∷ freeze_authority ∷ mint_close_authority
    ∷ unknown_extension ∷ []

unfoldable pub none_left {ℓ} : {A : Type ℓ} → List A → Bool
none_left [] = true
none_left (x ∷ xs) = false

unfoldable pub record_of : RawMintData → TokenProgram → Number → ℕ → Verdict → MintRecord
record_of raw program decimals checked_at v = record {
  mint = raw.mint;
  token_program = program;
  decimals = decimals;
  compatible = none_left v.blockers;
  blockers = filter (λ b. any (same_blocker b) v.blockers) blocker_order;
  warnings = filter (λ w. any (same_warning w) v.warnings) warning_order;
  is_mutable = v.is_mutable;
  checked_at = checked_at;
}

unfoldable pub evaluate_mint : RawMintData → ℕ → Result MintRecord
evaluate_mint raw checked_at = do
  program ← or_throw (program_named raw.token_program) (vadum_error mint_incompatible)
  decimals ← or_throw (integer_of raw.decimals) (vadum_error mint_incompatible)
  extensions ← or_throw (extensions_of raw.extensions) (vadum_error mint_incompatible)
  let v =
      apply_all raw.freeze_authority extensions
        (record { blockers = []; warnings = []; is_mutable = false })
  ok (
      record_of raw program decimals checked_at
        (warns freeze_authority (not (is_null raw.freeze_authority)) v))

unfoldable pub assert_mint_compatible : MintRecord → Result (Unit {0})
assert_mint_compatible r =
    throw_if (not r.compatible || not (none_left r.blockers)) mint_incompatible
