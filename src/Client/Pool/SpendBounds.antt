-- ===== src/Client/Pool/SpendBounds.antt =====
-- What a spend log bounds: the amounts that were signed, in every window from some time on.
use vadum.Base.{
  ℕ, ◌≤◌, ◌≡◌, subst, ap, ◌∙◌, some, false, List, [], ◌∷◌, ◌++◌, arith, if◌then◌else◌, filter, All,
  All-append, Bool-cases, inl, inr,
}
use vadum.Base.Int.{
  ℤ, pos, ◌+ℤ◌, ◌-ℤ◌, ◌≤ℤ◌, ◌<ℤ◌, leb_ℤ, ltb_ℤ, leb_ℤ-false, ltb_ℤ-false, int_laws, parts_of,
}
use vadum.Client.Pool.State.{
  SpendEntry, PoolState, PoolOptions, counts, counted, or_empty, allowance_of, log_of,
}
use vadum.Client.Pool.SpendSums.{
  IsPositive, spent_in, spent_in-append, spent_in-single, spent_in-nonnegative, filter-append,
  filter-All, filter-counts-later,
}

-- The entries that count at one time.
abbrev pub in_window : PoolOptions → ℕ → List SpendEntry → List SpendEntry
in_window o t = filter (counts t o.spend_window)

abbrev pub entry_of : ℕ → ℤ → SpendEntry
entry_of now amount = record { at = now; amount = amount }

-- The log that a reservation writes.
abbrev pub logged : PoolOptions → ℕ → ℤ → List SpendEntry → List SpendEntry
logged o now amount log = in_window o now log ++ (entry_of now amount ∷ [])

-- The amount is positive, and with what counts now it stays within the limit.
pub record HasRoom (o : PoolOptions) (now : ℕ) (amount : ℤ) (log : List SpendEntry) : Type 0 where
  pub positive : pos 0 <ℤ amount
  pub fits : spent_in (in_window o now log) +ℤ amount ≤ℤ o.spend_limit

-- A log within the limit that covers, in every window from `clock` on, what was signed.
pub record Bounds (o : PoolOptions) (clock : ℕ) (signed log : List SpendEntry) : Type 0 where
  pub positive : All IsPositive log
  pub within : spent_in log ≤ℤ o.spend_limit
  pub covers : (t : ℕ) → clock ≤ t → spent_in (in_window o t signed) ≤ℤ spent_in (in_window o t log)

abbrev remaining : ℤ → ℤ → ℤ
remaining limit spent = if leb_ℤ limit spent then pos 0 else limit -ℤ spent

room_left :
    (limit spent amount : ℤ)
    → leb_ℤ amount (pos 0) ≡ false
    → ltb_ℤ (remaining limit spent) amount ≡ false
    → spent +ℤ amount ≤ℤ limit
room_left limit spent amount p q = elim (Bool-cases (leb_ℤ limit spent)) [
  | inl e ↦
      let r : ltb_ℤ (pos 0) amount ≡ false =
        subst (λ b. ltb_ℤ (if b then pos 0 else limit -ℤ spent) amount ≡ false) e q in
      absurd (omega (arith, ltb_ℤ-false (pos 0) amount r, leb_ℤ-false amount (pos 0) p))
  | inr e ↦
      let r : ltb_ℤ (limit -ℤ spent) amount ≡ false =
        subst (λ b. ltb_ℤ (if b then pos 0 else limit -ℤ spent) amount ≡ false) e q in
      omega (int_laws, ltb_ℤ-false (limit -ℤ spent) amount r)
]

pub remaining-HasRoom :
    (o : PoolOptions) (s : PoolState) (now : ℕ) (amount : ℤ)
    → leb_ℤ amount (pos 0) ≡ false
    → ltb_ℤ (allowance_of o (some s) now).remaining amount ≡ false
    → HasRoom o now amount (or_empty s.spend_log)
unfolding allowance_of counted log_of spent_in
remaining-HasRoom o s now amount p q = record {
  positive = leb_ℤ-false amount (pos 0) p;
  fits = room_left o.spend_limit _ amount p q;
}

module _ (o : PoolOptions) (clock : ℕ) (signed log : List SpendEntry)
    (b : Bounds o clock signed log) where
  pub Bounds-later : (now : ℕ) → clock ≤ now → Bounds o now signed log
  Bounds-later now h = record {
    positive = b.positive;
    within = b.within;
    covers = λ t le. b.covers t (omega arith);
  }

  module _ (now : ℕ) (amount : ℤ) (le : clock ≤ now) (room : HasRoom o now amount log) where
    logged-IsPositive : All IsPositive (logged o now amount log)
    logged-IsPositive = All-append IsPositive _ _ (filter-All _ log b.positive) (room.positive, tt)

    logged-within : spent_in (logged o now amount log) ≤ℤ o.spend_limit
    logged-within = omega (
      int_laws,
      room.fits,
      parts_of (spent_in-append (in_window o now log) (entry_of now amount ∷ [])),
      parts_of (spent_in-single (entry_of now amount)),
    )

    logged-window :
        (t : ℕ)
        → now ≤ t
        → in_window o t (logged o now amount log)
          ≡ in_window o t log ++ in_window o t (entry_of now amount ∷ [])
    logged-window t h =
        filter-append _ (in_window o now log) (entry_of now amount ∷ [])
        ∙ ap (λ xs. xs ++ in_window o t (entry_of now amount ∷ []))
            (filter-counts-later o.spend_window now t log h)

    pub logged-Bounds :
        Bounds o now (signed ++ (entry_of now amount ∷ [])) (logged o now amount log)
    logged-Bounds = record {
      positive = logged-IsPositive;
      within = logged-within;
      covers = λ t h.
          let before = b.covers t (omega arith) in
          omega (
            int_laws,
            before,
            parts_of (
                ap spent_in
                  (filter-append (counts t o.spend_window) signed (entry_of now amount ∷ []))),
            parts_of
                (spent_in-append (in_window o t signed) (in_window o t (entry_of now amount ∷ []))),
            parts_of (ap spent_in (logged-window t h)),
            parts_of
                (spent_in-append (in_window o t log) (in_window o t (entry_of now amount ∷ []))),
          );
    }

    -- A log with one more entry covers what the log did.
    pub unsigned-Bounds : Bounds o now signed (logged o now amount log)
    unsigned-Bounds = record {
      positive = logged-IsPositive;
      within = logged-within;
      covers = λ t h.
          let before = b.covers t (omega arith) in
          omega (
            int_laws,
            before,
            spent_in-nonnegative _ (
                filter-All (counts t o.spend_window) (entry_of now amount ∷ [])
                  (room.positive, tt)),
            parts_of (ap spent_in (logged-window t h)),
            parts_of
                (spent_in-append (in_window o t log) (in_window o t (entry_of now amount ∷ []))),
          );
    }
