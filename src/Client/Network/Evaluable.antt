-- ===== src/Client/Network/Evaluable.antt =====
-- packages/client/src/rpc.ts: what `getMintAccount` answers is what `evaluateMint` reads.
use vadum.Base.{
  some-injective, ℕ, ◌≡◌, refl, subst, if◌then◌else◌, ap, Bool, true, false, ◌⊎◌, inl, inr, Option,
  none, some, List, [], ◌∷◌, Option-cases,
}
use vadum.Base.Number.{Number}
use vadum.Base.Text.{Text, codes, text_eq}
use vadum.Core.Errors.{vadum_error, mint_incompatible, ok, err, ok-injective, >>=-eq-ok}
use vadum.Core.Mint.Evaluate.{
  RawMintData, Extension, program_named, integer_of, kind_of, extension_of, extensions_in,
  extensions_of, evaluate_mint,
}
use vadum.Core.Mint.Json.{
  Json, undefined, null, boolean, number, string, array, object, Items, no_items, item, Fields, get,
}
use vadum.Core.Types.{TokenProgram, spl_token, token_2022, MintRecord}
use vadum.Client.Network.Project.{
  AccountInfo, program_by_owner, field_of, string_or_unknown, record_or_empty, project_owned,
  project_extension, project_items, project_extensions, project_info, project_mint,
}
use vadum.Client.Network.Retry.{result_of, with_retry}
use vadum.Client.Network.Requests.{Requests, fetched_account, get_mint_account}

-- Data that reads as a program, a list of extensions and a number.
pub record Readable (raw : RawMintData) : Type 0 where
  pub program : TokenProgram
  pub program_reads : program_named raw.token_program ≡ some program
  pub extensions : List Extension
  pub extensions_read : extensions_of raw.extensions ≡ some extensions
  pub decimals : Number
  pub decimals_are : raw.decimals ≡ number decimals

named_by_tests :
    (a b : Bool) (name : Text)
    → (if a then some (codes "spl-token") else if b then some (codes "token-2022") else none)
      ≡ some name
    → (p : TokenProgram) × (program_named (string name) ≡ some p)
unfolding program_named text_eq
named_by_tests true b name h =
    (spl_token, subst (λ n. program_named (string n) ≡ some spl_token) (some-injective h) refl)
named_by_tests false true name h =
    (token_2022, subst (λ n. program_named (string n) ≡ some token_2022) (some-injective h) refl)
named_by_tests false false name h = absurd (cc h)

program_by_owner-named :
    (owner name : Text)
    → program_by_owner owner ≡ some name
    → (p : TokenProgram) × (program_named (string name) ≡ some p)
unfolding program_by_owner
program_by_owner-named owner name h = named_by_tests _ _ name h

string_or_unknown-string : (j : Json) → (s : Text) × (string_or_unknown j ≡ string s)
unfolding string_or_unknown
string_or_unknown-string undefined = (_, refl)
string_or_unknown-string null = (_, refl)
string_or_unknown-string (boolean b) = (_, refl)
string_or_unknown-string (number n) = (_, refl)
string_or_unknown-string (string s) = (s, refl)
string_or_unknown-string (array items) = (_, refl)
string_or_unknown-string (object f) = (_, refl)

record_or_empty-object : (j : Json) → (f : Fields) × (record_or_empty j ≡ object f)
unfolding record_or_empty
record_or_empty-object undefined = (_, refl)
record_or_empty-object null = (_, refl)
record_or_empty-object (boolean b) = (_, refl)
record_or_empty-object (number n) = (_, refl)
record_or_empty-object (string s) = (_, refl)
record_or_empty-object (array items) = (_, refl)
record_or_empty-object (object f) = (f, refl)

project_extension-reads :
    (j : Json) → (e : Extension) × (extension_of (project_extension j) ≡ some e)
unfolding project_extension extension_of get text_eq
project_extension-reads j =
    let (s, named) = string_or_unknown-string (field_of j (codes "extension")) in
    let (f, has_state) = record_or_empty-object (field_of j (codes "state")) in
    (record { kind = kind_of s; state = f }, rw (named, has_state))

project_items-read :
    (items : Items) → (es : List Extension) × (extensions_in (project_items items) ≡ some es)
unfolding project_items extensions_in
project_items-read no_items = ([], refl)
project_items-read (item j rest) =
    let (e, first) = project_extension-reads j in
    let (es, others) = project_items-read rest in (e ∷ es, rw (first, others))

project_extensions-read :
    (j : Json) → (es : List Extension) × (extensions_of (project_extensions j) ≡ some es)
unfolding project_extensions extensions_of extensions_in
project_extensions-read undefined = ([], refl)
project_extensions-read null = ([], refl)
project_extensions-read (boolean b) = ([], refl)
project_extensions-read (number n) = ([], refl)
project_extensions-read (string s) = ([], refl)
project_extensions-read (array items) = project_items-read items
project_extensions-read (object f) = ([], refl)

project_info-Readable :
    (mint program : Text) (info decimals : Json) (raw : RawMintData) (p : TokenProgram)
    → program_named (string program) ≡ some p
    → project_info mint program info decimals ≡ ok raw
    → Readable raw
unfolding project_info
project_info-Readable mint program info (number n) raw p named h =
    let (es, read) = project_extensions-read (field_of info (codes "extensions")) in
    subst Readable (ok-injective h) (record {
      program = p;
      program_reads = named;
      extensions = es;
      extensions_read = read;
      decimals = n;
      decimals_are = refl;
    })
project_info-Readable mint program info undefined raw p named h = absurd (cc h)
project_info-Readable mint program info null raw p named h = absurd (cc h)
project_info-Readable mint program info (boolean b) raw p named h = absurd (cc h)
project_info-Readable mint program info (string s) raw p named h = absurd (cc h)
project_info-Readable mint program info (array items) raw p named h = absurd (cc h)
project_info-Readable mint program info (object f) raw p named h = absurd (cc h)

project_owned-Readable :
    (program : Option Text) (mint owner : Text) (info : Json) (raw : RawMintData)
    → program_by_owner owner ≡ program
    → project_owned program mint info ≡ ok raw
    → Readable raw
unfolding project_owned
project_owned-Readable none mint owner info raw e h = absurd (cc h)
project_owned-Readable (some name) mint owner info raw e h =
    let (p, named) = program_by_owner-named owner name e in
    project_info-Readable mint name info _ raw p named h

fetched_account-Readable :
    (account : Option AccountInfo) (mint : Text) (now at : ℕ) (raw : RawMintData)
    → fetched_account account mint now ≡ ok (raw, at)
    → Readable raw
unfolding fetched_account project_mint
fetched_account-Readable none mint now at raw h = absurd (cc h)
fetched_account-Readable (some account) mint now at raw h =
    let (fetched, projected, rest) = >>=-eq-ok (project_mint mint account) _ h in
    subst Readable (ap (λ x. x.0) (ok-injective rest)) (
      project_owned-Readable (program_by_owner account.owner) mint account.owner _ fetched refl
        projected)

-- Readable data that `evaluateMint` refuses has decimals that are no integer.
Readable-evaluates :
    (raw : RawMintData) (checked_at : ℕ)
    → Readable raw
    → ((m : MintRecord) × (evaluate_mint raw checked_at ≡ ok m))
      ⊎ ((integer_of raw.decimals ≡ none)
          × (evaluate_mint raw checked_at ≡ err (vadum_error mint_incompatible)))
unfolding evaluate_mint
Readable-evaluates raw checked_at r = elim (Option-cases (integer_of raw.decimals)) [
  | inl e ↦ inr (e, rw (r.program_reads, e))
  | inr found ↦ inl (rw (r.program_reads, found.1, r.extensions_read) (_, refl))
]

-- Where `getMintAccount` answers, `evaluateMint` of the answer gives a record, unless the decimals
-- are no integer, in which case it throws MINT_INCOMPATIBLE.
pub get_mint_account-evaluates :
    (r : Requests) (mint : Text) (now fetched_at : ℕ) (raw : RawMintData)
    → get_mint_account r now mint ≡ ok (raw, fetched_at)
    → ((m : MintRecord) × (evaluate_mint raw fetched_at ≡ ok m))
      ⊎ ((integer_of raw.decimals ≡ none)
          × (evaluate_mint raw fetched_at ≡ err (vadum_error mint_incompatible)))
unfolding get_mint_account
get_mint_account-evaluates r mint now fetched_at raw h =
    let (account, fetched, rest) = >>=-eq-ok (result_of (with_retry (r.account_info mint))) _ h in
    Readable-evaluates raw fetched_at
      (fetched_account-Readable account mint now fetched_at raw rest)
