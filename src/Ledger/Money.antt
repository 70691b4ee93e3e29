-- ===== src/Ledger/Money.antt =====
-- backend/internal/ledger/money.go: conversion of an amount in minor units between currencies.
-- `*big.Rat` is a sign with a numerator and a denominator; lowest terms change neither a quotient
-- nor a comparison, so the fraction is not reduced. The exchange-rate pattern
-- `^([A-Z]{3})/([A-Z]{3})=([0-9]+(?:\.[0-9]+)?)$` is read by `quote`.
pub mod Rounding
pub mod Conversion
use mathlib.Core.Option
use accounting.Prelude.{
  Bool, List, Option, [], false, if◌then◌else◌, leb, ltb, map, none, not, some, true, ℕ, ◌%◌, ◌&&◌,
  ◌*◌, ◌+◌, ◌-◌, ◌/◌, ◌==◌, ◌^◌, ◌||◌, ◌∷◌,
}
use accounting.Prelude.Dict.{Dict, lookup}
use accounting.Prelude.Result.{Result, err, fail_if, from_option, invalid_input, ok}
use accounting.Prelude.Result.Pure.{◌>>=◌, ◌>>◌}
use accounting.Prelude.Text.{Text, is_empty, text, text_eq, to_upper, trim_space}
use accounting.Prelude.Word.{is_negative, magnitude, of_magnitude}

pub record Rat : Type 0 where
  pub negative : Bool
  pub num : ℕ
  pub den : ℕ

abbrev pub is_positive : Rat → Bool
is_positive r = not r.negative && ltb 0 r.num

-- `big.NewRat(amount, 1)`
unfoldable pub of_word : ℕ → Rat
of_word w = record { negative = is_negative w; num = magnitude w; den = 1 }

-- The sign of a product or quotient is negative where the signs differ.
abbrev pub differ : Bool → Bool → Bool
differ true b = not b
differ false b = b

unfoldable pub mul : Rat → Rat → Rat
mul a b = record {
  negative = differ a.negative b.negative;
  num = a.num * b.num;
  den = a.den * b.den;
}

unfoldable pub quo : Rat → Rat → Rat
quo a b = record {
  negative = differ a.negative b.negative;
  num = a.num * b.den;
  den = a.den * b.num;
}

-- The quotient of two magnitudes, rounded as `roundRatToInt64` rounds it.
unfoldable pub round_magnitude : ℕ → ℕ → ℕ
round_magnitude n d = if n % d == 0 then n / d else if leb d (2 * (n % d)) then n / d + 1 else n / d

unfoldable pub round_rat_to_int64 : Rat → ℕ
round_rat_to_int64 r = of_magnitude r.negative (round_magnitude r.num r.den)

abbrev pub supported_currencies : List Text
supported_currencies = text "USD" ∷ text "EUR" ∷ text "CNY" ∷ text "CAD" ∷ []

unfoldable pub contains : Text → List Text → Bool
contains t [] = false
contains t (s ∷ l) = text_eq s t || contains t l

abbrev pub upper_trim : Text → Text
upper_trim s = to_upper (trim_space s)

unfoldable pub is_supported_currency : Text → Bool
is_supported_currency currency = contains (upper_trim currency) supported_currencies

abbrev pub is_digit : ℕ → Bool
is_digit c = leb b'0' c && leb c b'9'

abbrev pub is_capital : ℕ → Bool
is_capital c = leb b'A' c && leb c b'Z'

-- The digits in front of a text: their value behind `v`, how many, and what follows.
unfoldable pub read_digits : Text → ℕ → ℕ → ℕ × ℕ × Text
read_digits [] v n = (v, n, [])
read_digits (c ∷ s) v n =
    let rest = read_digits s (v * 10 + (c - b'0')) (n + 1) in
    if is_digit c then rest else (v, n, c ∷ s)

-- The text behind the whole part: nothing, or a point and one or more digits.
unfoldable pub read_fraction : ℕ → Text → Option Rat
read_fraction v [] = some (record { negative = false; num = v; den = 1 })
read_fraction v (c ∷ s) =
    let (w, n, rest) = read_digits s v 0 in
    if c == b'.' && ltb 0 n && is_empty rest
    then some (record { negative = false; num = w; den = 10 ^ n })
    else none

-- `[0-9]+(\.[0-9]+)?`, and `big.Rat.SetString` of it.
unfoldable pub read_decimal : Text → Option Rat
unfolding read_digits read_fraction
read_decimal s =
    let (v, n, rest) = read_digits s 0 0 in if n == 0 then none else read_fraction v rest

pub record Quote : Type 0 where
  pub from : Text
  pub to : Text
  pub rate : Rat

unfoldable pub quote : Text → Option Quote
quote (a ∷ b ∷ c ∷ slash ∷ d ∷ e ∷ f ∷ equals ∷ rest) =
    if is_capital a
      && is_capital b
      && is_capital c
      && slash == b'/'
      && is_capital d
      && is_capital e
      && is_capital f
      && equals == b'='
    then Option.map (λ r. record { from = a ∷ b ∷ c ∷ []; to = d ∷ e ∷ f ∷ []; rate = r })
        (read_decimal rest)
    else none
quote _ = none

unfoldable pub parse_exchange_rate : Text → Result Quote
parse_exchange_rate exchange_rate_text = do
  q ← from_option invalid_input (quote (upper_trim exchange_rate_text))
  fail_if (not (is_positive q.rate)) invalid_input
  ok q

abbrev pub Rates : Type 0
Rates = Dict Rat

-- A missing rate, and one that is not positive, are refused.
unfoldable pub rate_for : Text → Rates → Result Rat
rate_for currency rates = do
  r ← from_option invalid_input (lookup currency rates)
  fail_if (not (is_positive r)) invalid_input
  ok r

-- The branch with a quoted rate, in either direction.
unfoldable pub convert_by_quote : Rat → Text → Text → Text → Result ℕ
convert_by_quote amount source target exchange_rate_text = do
  q ← parse_exchange_rate exchange_rate_text
  if text_eq q.from source && text_eq q.to target
      then ok (round_rat_to_int64 (mul amount q.rate))
      else if text_eq q.from target && text_eq q.to source
      then ok (round_rat_to_int64 (quo amount q.rate))
      else err invalid_input

-- The branch with the table of units per dollar.
unfoldable pub convert_by_table : Rat → Text → Text → Rates → Result ℕ
convert_by_table amount source target rates = do
  source_rate ← rate_for source rates
  target_rate ← rate_for target rates
  ok (round_rat_to_int64 (quo (mul amount target_rate) source_rate))

unfoldable pub convert_amount_cents : ℕ → Text → Text → Text → Rates → Result ℕ
convert_amount_cents amount_cents source_currency target_currency exchange_rate_text rates = do
  let source = upper_trim source_currency
  let target = upper_trim target_currency
  fail_if (not (is_supported_currency source)) invalid_input
  fail_if (not (is_supported_currency target)) invalid_input
  if text_eq source target
      then ok amount_cents
      else if not (is_empty (trim_space exchange_rate_text))
      then convert_by_quote (of_word amount_cents) source target exchange_rate_text
      else convert_by_table (of_word amount_cents) source target rates
