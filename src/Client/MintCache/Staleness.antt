-- ===== src/Client/MintCache/Staleness.antt =====
-- How long what a refresh cached counts as fresh.
use vadum.Base.{
  ℕ, ◌+◌, ◌≡◌, ap, sym, ◌∙◌, Bool, true, false, ◌&&◌, some, List, [], ◌∷◌, leb, if◌then◌else◌,
  arith, Bool-cases, inl, inr,
}
use vadum.Base.Text.{Text, text_eq, text_eq_refl}
use vadum.Core.Errors.{Result, ok, err, ok-injective}
use vadum.Core.Types.{MintRecord}
use vadum.Core.Mint.Evaluate.{RawMintData}
use vadum.Client.MintCache.Cache.{
  MintCache, up_to_date, stale_mutable, mint_cache_ttl_ms, lookup, set_record, get_record,
  keep_record, refresh_mint, staleness_of, staleness,
}

lookup-set_record :
    (mint : Text) (r : MintRecord) (rs : List (Text × MintRecord))
    → lookup (set_record mint r rs) mint ≡ some r
unfolding lookup set_record
lookup-set_record mint r [] = rw (text_eq_refl mint)
lookup-set_record mint r ((key, old) ∷ rest) =
    let later = lookup-set_record mint r rest in
    elim (Bool-cases (text_eq key mint)) [ inl e ↦ rw (e, e) | inr e ↦ rw e (rw e later) ]

keep_record-get :
    (writable : Bool) (mint : Text) (e : Result MintRecord) (c c' : MintCache) (r : MintRecord)
    → keep_record writable mint e c ≡ (ok r, c')
    → get_record c' mint ≡ some r
unfolding keep_record get_record
keep_record-get writable mint (err x) c c' r h = cc
keep_record-get true mint (ok r') c c' r h =
    ap (λ p. lookup p.1.records mint) (sym h)
    ∙ lookup-set_record mint r' c.records
    ∙ ap some (ok-injective (ap (λ p. p.0) h))
keep_record-get false mint (ok r') c c' r h = cc

cases :
    (r : MintRecord) (now : ℕ)
    → staleness_of (some r) now ≡ (
        if r.is_mutable && leb (r.checked_at + mint_cache_ttl_ms) now
        then stale_mutable
        else up_to_date)
unfolding staleness_of
cases r now = ground arith

-- Where `refresh` answers with a record, the cache holds that record under the mint, and the mint
-- is stale at a time if and only if the record is mutable and its check lies at least the time to
-- live back, and fresh otherwise.
pub staleness-refresh_mint :
    (writable : Bool) (fetched : Result (RawMintData × ℕ)) (mint : Text) (now : ℕ)
    (c c' : MintCache) (r : MintRecord)
    → refresh_mint writable fetched mint c ≡ (ok r, c')
    → (get_record c' mint ≡ some r)
      × (staleness c' mint now ≡ (
          if r.is_mutable && leb (r.checked_at + mint_cache_ttl_ms) now
          then stale_mutable
          else up_to_date))
unfolding refresh_mint staleness
staleness-refresh_mint writable fetched mint now c c' r h =
    let kept = keep_record-get writable mint _ c c' r h in
    (kept, ap (λ o. staleness_of o now) kept ∙ cases r now)
