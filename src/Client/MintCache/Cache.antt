-- ===== src/Client/MintCache/Cache.antt =====
-- packages/client/src/mint.ts: the records by mint, in the map and in the store.
use vadum.Base.{ℕ, ◌+◌, ◌*◌, Bool, not, Option, none, some, List, [], ◌∷◌, leb, if◌then◌else◌, map}
use vadum.Base.Text.{Text, text_eq}
use vadum.Core.Errors.{Result, ok, err, foreign}
use vadum.Core.Types.{MintRecord}
use vadum.Core.Mint.Evaluate.{RawMintData, evaluate_mint}

abbrev pub mint_cache_ttl_ms : ℕ
mint_cache_ttl_ms = 24 * 60 * 60 * 1000

pub data MintStaleness : Type 0 where
  up_to_date stale_mutable not_cached : MintStaleness

-- `records` in its insertion order, and what the store holds under the keys of mints.
pub record MintCache : Type 0 where
  pub records : List (Text × MintRecord)
  pub stored : List (Text × MintRecord)

unfoldable pub lookup : List (Text × MintRecord) → Text → Option MintRecord
lookup [] mint = none
lookup ((key, r) ∷ rest) mint = if text_eq key mint then some r else lookup rest mint

-- `Map.set`, which keeps the place of a key that is there.
unfoldable pub set_record : Text → MintRecord → List (Text × MintRecord) → List (Text × MintRecord)
set_record mint r [] = (mint, r) ∷ []
set_record mint r ((key, old) ∷ rest) =
    if text_eq key mint then (key, r) ∷ rest else (key, old) ∷ set_record mint r rest

unfoldable pub get_record : MintCache → Text → Option MintRecord
get_record c mint = lookup c.records mint

unfoldable pub keep_record :
    (writable : Bool) → Text → Result MintRecord → MintCache → Result MintRecord × MintCache
keep_record writable mint (err e) c = (err e, c)
keep_record writable mint (ok r) c =
    if writable
    then (
      ok r,
      record { records = set_record mint r c.records; stored = set_record mint r c.stored },
    )
    else (err foreign, record c { records = set_record mint r c.records })

evaluate_fetched : Result (RawMintData × ℕ) → Result MintRecord
evaluate_fetched (err e) = err e
evaluate_fetched (ok (raw, fetched_at)) = evaluate_mint raw fetched_at

-- `fetched` is what `rpc.getMintAccount` answers. The map is set before the store is written, and the
-- write may fail.
unfoldable pub refresh_mint :
    (writable : Bool)
    → (fetched : Result (RawMintData × ℕ)) → Text
    → MintCache
    → Result MintRecord × MintCache
unfolding evaluate_fetched
refresh_mint writable fetched mint c = keep_record writable mint (evaluate_fetched fetched) c

unfoldable pub staleness_of : Option MintRecord → ℕ → MintStaleness
staleness_of none now = not_cached
staleness_of (some r) now =
    if not r.is_mutable
    then up_to_date
    else if leb (r.checked_at + mint_cache_ttl_ms) now
    then stale_mutable
    else up_to_date

unfoldable pub staleness : MintCache → Text → ℕ → MintStaleness
staleness c mint now = staleness_of (get_record c mint) now

unfoldable pub entries : MintCache → List MintRecord
entries c = map (λ e. e.1) c.records

load_all : List (Text × MintRecord) → List (Text × MintRecord) → List (Text × MintRecord)
load_all [] records = records
load_all ((key, r) ∷ rest) records = load_all rest (set_record r.mint r records)

-- `load` puts every stored record under its own mint, in the order in which the store gives its keys.
unfoldable pub load_mints : MintCache → MintCache
unfolding load_all
load_mints c = record c { records = load_all c.stored c.records }
