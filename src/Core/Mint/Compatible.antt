-- ===== src/Core/Mint/Compatible.antt =====
-- Which extensions make `assertMintCompatible` refuse what `evaluateMint` found.
use vadum.Base.{
  ℕ, ◌≡◌, refl, ap, sym, ◌∙◌, Bool, true, false, not, ◌&&◌, ◌||◌, some, List, [], ◌∷◌, arith,
  filter, any,
}
use vadum.Base.Number.{Number, is_positive}
use vadum.Base.Text.{codes}
use vadum.Core.Errors.{ok, throw_if, found, mint_incompatible, ok-injective}
use vadum.Core.Types.{TokenProgram, MintRecord, MintWarning, freeze_authority}
use vadum.Core.Mint.Json.{Json, Fields, get, is_null, is_true, is_text, fee_basis_points}
use vadum.Core.Mint.Evaluate.{
  RawMintData, ExtensionKind, transfer_hook, transfer_fee_config, non_transferable_mint,
  default_account_state, permanent_delegate_mint, pausable_config, confidential_transfer_mint,
  mint_close, without_effect, other_extension, Extension, program_named, integer_of, extensions_of,
  Verdict, warns, same_blocker, blocker_order, apply_kind, apply_all, none_left, record_of,
  evaluate_mint, assert_mint_compatible,
}

-- An extension under which transfers go through, without a fee: no hook, no fee now or later,
-- transferable, accounts that start initialized, and not paused.
pub harmless : ExtensionKind → Fields → Bool
harmless transfer_hook s = is_null (get s (codes "programId"))
harmless transfer_fee_config s =
    not (is_positive (fee_basis_points (get s (codes "olderTransferFee"))))
    && not (is_positive (fee_basis_points (get s (codes "newerTransferFee"))))
harmless non_transferable_mint s = false
harmless default_account_state s = is_text (codes "initialized") (get s (codes "accountState"))
harmless pausable_config s = not (is_true (get s (codes "paused")))
harmless permanent_delegate_mint s = true
harmless confidential_transfer_mint s = true
harmless mint_close s = true
harmless without_effect s = true
harmless other_extension s = true

unfoldable pub all_harmless : List Extension → Bool
all_harmless [] = true
all_harmless (e ∷ es) = harmless e.kind e.state && all_harmless es

apply_kind-blockers :
    (freeze : Json) (k : ExtensionKind) (s : Fields) (v : Verdict)
    → none_left (apply_kind freeze k s v).blockers ≡ (harmless k s && none_left v.blockers)
unfolding apply_kind harmless none_left
apply_kind-blockers freeze transfer_hook s v = ground arith
apply_kind-blockers freeze transfer_fee_config s v = ground arith
apply_kind-blockers freeze non_transferable_mint s v = ground arith
apply_kind-blockers freeze default_account_state s v = ground arith
apply_kind-blockers freeze permanent_delegate_mint s v = ground arith
apply_kind-blockers freeze pausable_config s v = ground arith
apply_kind-blockers freeze confidential_transfer_mint s v = ground arith
apply_kind-blockers freeze mint_close s v = ground arith
apply_kind-blockers freeze without_effect s v = ground arith
apply_kind-blockers freeze other_extension s v = ground arith

rearrange : (a b c : Bool) → (a && (b && c)) ≡ ((b && a) && c)
rearrange true b c = ground arith
rearrange false b c = ground arith

apply_all-blockers :
    (freeze : Json) (es : List Extension) (v : Verdict)
    → none_left (apply_all freeze es v).blockers ≡ (all_harmless es && none_left v.blockers)
unfolding apply_all all_harmless
apply_all-blockers freeze [] v = refl
apply_all-blockers freeze (e ∷ es) v =
    apply_all-blockers freeze es (apply_kind freeze e.kind e.state v)
    ∙ ap (λ b. all_harmless es && b) (apply_kind-blockers freeze e.kind e.state v)
    ∙ rearrange (all_harmless es) (harmless e.kind e.state) (none_left v.blockers)

warns-blockers :
    (w : MintWarning) (test : Bool) (v : Verdict) → (warns w test v).blockers ≡ v.blockers
warns-blockers w true v = refl
warns-blockers w false v = refl

assert-record_of :
    (raw : RawMintData) (program : TokenProgram) (decimals : Number) (t : ℕ) (v : Verdict)
    → assert_mint_compatible (record_of raw program decimals t v)
      ≡ throw_if (not (none_left v.blockers)) mint_incompatible
unfolding assert_mint_compatible record_of none_left
assert-record_of raw program decimals t v =
    elim v.blockers
      as (λ bs.
        throw_if
          (not (none_left bs)
            || not (none_left (filter (λ b. any (same_blocker b) bs) blocker_order)))
          mint_incompatible
        ≡ throw_if (not (none_left bs)) mint_incompatible) [ [] ↦ refl | b ∷ bs ↦ refl ]

and_true : (a : Bool) → (a && true) ≡ a
and_true true = refl
and_true false = refl

abbrev start : Verdict
start = record { blockers = []; warnings = []; is_mutable = false }

found_blockers :
    (freeze : Json) (es : List Extension)
    → none_left (warns freeze_authority (not (is_null freeze)) (apply_all freeze es start)).blockers
      ≡ all_harmless es
unfolding none_left
found_blockers freeze es =
    ap (λ bs. none_left bs)
      (warns-blockers freeze_authority (not (is_null freeze)) (apply_all freeze es start))
    ∙ apply_all-blockers freeze es start
    ∙ and_true (all_harmless es)

asserted :
    (raw : RawMintData) (program : TokenProgram) (decimals : Number) (t : ℕ) (es : List Extension)
    (r : MintRecord)
    → ok (
        record_of raw program decimals t (
          warns freeze_authority
            (not (is_null raw.freeze_authority))
            (apply_all raw.freeze_authority es start)))
      ≡ ok r
    → assert_mint_compatible r ≡ throw_if (not (all_harmless es)) mint_incompatible
asserted raw program decimals t es r h =
    ap assert_mint_compatible (sym (ok-injective h))
    ∙ assert-record_of raw program decimals t _
    ∙ ap (λ b. throw_if (not b) mint_incompatible) (found_blockers raw.freeze_authority es)

some-injective : {es es' : List Extension} → some es ≡ some es' → es ≡ es'
some-injective e = cc

-- Where `evaluateMint` answers for data whose extensions read as a list, `assertMintCompatible` of
-- the answer passes if every extension of the list is harmless (no transfer hook program, no older
-- or newer fee above zero, transferable, accounts that start initialized, not paused), and throws
-- MINT_INCOMPATIBLE otherwise.
pub assert_mint_compatible-evaluate_mint :
    (raw : RawMintData) (t : ℕ) (es : List Extension) (r : MintRecord)
    → extensions_of raw.extensions ≡ some es
    → evaluate_mint raw t ≡ ok r
    → assert_mint_compatible r ≡ throw_if (not (all_harmless es)) mint_incompatible
unfolding evaluate_mint
assert_mint_compatible-evaluate_mint raw t es r e h =
    let (program, p, h1) = found (program_named raw.token_program) _ _ h in
    let (decimals, q, h2) = found (integer_of raw.decimals) _ _ h1 in
    let (es', x, h3) = found (extensions_of raw.extensions) _ _ h2 in
    asserted raw program decimals t es' r h3
    ∙ ap (λ l. throw_if (not (all_harmless l)) mint_incompatible) (some-injective (sym x ∙ e))
