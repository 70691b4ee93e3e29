-- ===== src/Ledger/Rates/Index.antt =====
-- What an index of exchange rates holds.
use accounting.Ledger.Model.{ExchangeRate, Time}
use accounting.Ledger.Money.{
  Rat, Rates, contains, convert_by_table, is_positive, mul, quo, rate_for, read_decimal,
  round_rat_to_int64, supported_currencies,
}
use accounting.Ledger.Rates.{
  all_indexed, exchange_rate_index, index_rates, normalize_exchange_rates, stored_or_default,
}
use accounting.Prelude.{
  Bool-cases, Holds, List, Option-cases, [], arith, inl, inr, is_some, refl, some, subst, true, ◌∷◌,
  ◌≡◌,
}
use accounting.Prelude.Dict.{insert, lookup, lookup-insert}
use accounting.Prelude.Result.{Result-cases, ok}
use accounting.Prelude.Text.{Text, text_eq_iff}

-- Every rate of the index is positive.
abbrev Positive : Rates → Type 0
Positive index = (c : Text) → Holds (λ x. is_positive x ≡ true) (lookup c index)

Positive-insert :
    (k : Text) (x : Rat) (index : Rates)
    → Positive index
    → is_positive x ≡ true
    → Positive (insert k x index)
Positive-insert k x index h p c = ground (arith, lookup-insert k c x index, h c)

index_rates-Positive :
    (rs : List ExchangeRate) (index final : Rates)
    → Positive index
    → index_rates rs index ≡ ok final
    → Positive final
unfolding index_rates
index_rates-Positive [] index final h e = subst Positive (ground arith) h
index_rates-Positive (r ∷ rs) index final h e = elim (Option-cases (read_decimal r.units_per_usd)) [
  | inl bad ↦ absurd (ground arith)
  | inr (x, q) ↦ elim (Bool-cases (is_positive x)) [
    | inr bad ↦ absurd (ground arith)
    | inl good ↦
        index_rates-Positive rs (insert r.currency x index) final
          (Positive-insert r.currency x index h good) (ground arith)
  ]
]

all_indexed-lookup :
    (cs : List Text) (index : Rates) (c : Text)
    → all_indexed cs index ≡ true
    → contains c cs ≡ true
    → is_some (lookup c index) ≡ true
unfolding all_indexed contains
all_indexed-lookup [] index c h k = absurd (cc)
all_indexed-lookup (d ∷ cs) index c h k =
    ground (arith, all_indexed-lookup cs index c, text_eq_iff d c)

index-rate :
    (now : Time) (rs : List ExchangeRate) (index : Rates) (c : Text)
    → exchange_rate_index now rs ≡ ok index
    → contains c supported_currencies ≡ true
    → (x : Rat) × (rate_for c index ≡ ok x) × (is_positive x ≡ true) × (lookup c index ≡ some x)
unfolding exchange_rate_index rate_for lookup
index-rate now rs index c e k =
    elim (Result-cases (index_rates (normalize_exchange_rates (stored_or_default now rs)) [])) [
      | inr (x, q) ↦ absurd (ground arith)
      | inl (made, q) ↦
          let same : made ≡ index = ground arith in
          let pos : Positive index =
            subst Positive same (index_rates-Positive _ [] made (λ c. tt) q) in
          elim (Option-cases (lookup c index)) [
            | inl missing ↦ absurd (ground (arith, all_indexed-lookup supported_currencies index c))
            | inr (x, f) ↦ (x, ground (arith, pos c), ground (arith, pos c), f)
          ]
    ]

-- With an index that `exchangeRateIndex` has built, the conversion by the table of rates succeeds
-- for every amount and every two supported currencies, and multiplies by the rate of the target and
-- divides by that of the source.
pub convert_by_table-answers :
    (now : Time) (rs : List ExchangeRate) (index : Rates) (amount : Rat) (source target : Text)
    → exchange_rate_index now rs ≡ ok index
    → contains source supported_currencies ≡ true
    → contains target supported_currencies ≡ true
    → (from : Rat) × (to : Rat) × (lookup source index ≡ some from)
      × (lookup target index ≡ some to)
      × (convert_by_table amount source target index
          ≡ ok (round_rat_to_int64 (quo (mul amount to) from)))
unfolding convert_by_table
convert_by_table-answers now rs index amount source target e ks kt =
    let (from, ef, pf, lf) = index-rate now rs index source e ks in
    let (to, et, pt, lt) = index-rate now rs index target e kt in
    (from, to, lf, lt, rw (ef, et) refl)
