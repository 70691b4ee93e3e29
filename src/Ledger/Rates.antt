-- ===== src/Ledger/Rates.antt =====
-- backend/internal/ledger/rates.go: the table of exchange rates and its index by currency.
-- `big.Rat.SetString` is read for decimals with digits on both sides of an optional point, which is
-- what the program stores (`FloatString(8)`, and the bootstrap rates).
pub mod Index
use accounting.Ledger.Model.{ExchangeRate, Time}
use accounting.Ledger.Money.{
  Rates, contains, is_positive, is_supported_currency, read_decimal, supported_currencies,
  upper_trim,
}
use accounting.Ledger.Store.{by_currency}
use accounting.Prelude.{
  Bool, List, [], false, if◌then◌else◌, is_some, none, not, some, sort_by, true, ◌&&◌, ◌∷◌,
}
use accounting.Prelude.Dict.{insert, lookup}
use accounting.Prelude.Result.{Result, err, fail_if, invalid_input, ok}
use accounting.Prelude.Result.Pure.{◌>>=◌, ◌>>◌}
use accounting.Prelude.Text.{Text, text, trim_space}

normalize_rate : Text → ExchangeRate → ExchangeRate
normalize_rate currency r = record r {
  currency = currency;
  units_per_usd = trim_space r.units_per_usd;
  source = trim_space r.source;
}

-- The loop of `normalizeExchangeRates`, with the currencies seen so far.
unfoldable pub normalize_from : List Text → List ExchangeRate → List ExchangeRate
unfolding normalize_rate
normalize_from seen [] = []
normalize_from seen (r ∷ rs) =
    let currency = upper_trim r.currency in
    let skipped = normalize_from seen rs in
    let rest = normalize_from (currency ∷ seen) rs in
    if not (is_supported_currency currency)
    then skipped
    else if contains currency seen
    then skipped
    else normalize_rate currency r ∷ rest

-- `normalizeExchangeRates`
unfoldable pub normalize_exchange_rates : List ExchangeRate → List ExchangeRate
unfolding normalize_from
normalize_exchange_rates rates = sort_by by_currency (normalize_from [] rates)

abbrev bootstrap : Text → Text → Time → ExchangeRate
bootstrap currency units at = record {
  currency = currency;
  units_per_usd = units;
  source = text "bootstrap";
  updated_at = at;
}

-- `defaultExchangeRates`
unfoldable pub default_exchange_rates : Time → List ExchangeRate
unfolding normalize_exchange_rates
default_exchange_rates at = normalize_exchange_rates (
    bootstrap (text "USD") (text "1") at
    ∷ bootstrap (text "EUR") (text "0.85") at
    ∷ bootstrap (text "CNY") (text "7.20") at
    ∷ bootstrap (text "CAD") (text "1.36") at
    ∷ [])

-- The index is built from the front, so a later rate of the same currency replaces an earlier one.
unfoldable pub index_rates : List ExchangeRate → Rates → Result Rates
index_rates [] index = ok index
index_rates (r ∷ rs) index = elim (read_decimal r.units_per_usd) [
  | none ↦ err invalid_input
  | some x ↦ elim (is_positive x) [
    | true ↦ index_rates rs (insert r.currency x index)
    | false ↦ err invalid_input
  ]
]

unfoldable pub all_indexed : List Text → Rates → Bool
all_indexed [] index = true
all_indexed (c ∷ cs) index = is_some (lookup c index) && all_indexed cs index

pub stored_or_default : Time → List ExchangeRate → List ExchangeRate
stored_or_default now [] = default_exchange_rates now
stored_or_default now (r ∷ rs) = r ∷ rs

-- `exchangeRateIndex`
unfoldable pub exchange_rate_index : Time → List ExchangeRate → Result Rates
unfolding stored_or_default
exchange_rate_index now rates = do
  index ← index_rates (normalize_exchange_rates (stored_or_default now rates)) []
  fail_if (not (all_indexed supported_currencies index)) invalid_input
  ok index
