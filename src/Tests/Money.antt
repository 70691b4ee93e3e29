-- ===== src/Tests/Money.antt =====
-- Conversions of small amounts, and one too large.
use accounting.Ledger.Money.{
  Quote, contains, convert_amount_cents, convert_by_quote, is_supported_currency, mul, of_word,
  parse_exchange_rate, quo, quote, read_decimal, read_digits, read_fraction, round_magnitude,
  round_rat_to_int64, upper_trim,
}
use accounting.Ledger.Money.Conversion.{convert_backward, convert_forward, convert_overflow}
use accounting.Ledger.Money.Rounding.{IsRounded}
use accounting.Prelude.{[], ap, arith, false, refl, sym, true, ℕ, ◌*◌, ◌-◌, ◌<◌, ◌∙◌, ◌≡◌, ◌≢◌, ◌≤◌}
use accounting.Prelude.Result.{ok}
use accounting.Prelude.Text.{Text, text, text_eq, to_upper, trim_left, trim_right, trim_space}
use accounting.Prelude.Word.{is_negative, magnitude, modulus, of_magnitude, sign_bit}

abbrev usd : Text
usd = text "USD"

abbrev cny : Text
cny = text "CNY"

abbrev rate_text : Text
rate_text = text "USD/CNY=7.25"

abbrev usd_cny : Quote
usd_cny = record { from = usd; to = cny; rate = record { negative = false; num = 725; den = 100 } }

rate_parsed : parse_exchange_rate rate_text ≡ ok usd_cny
unfolding parse_exchange_rate quote read_decimal read_digits read_fraction to_upper trim_space
    trim_left trim_right
rate_parsed = refl

known_usd : is_supported_currency (upper_trim usd) ≡ true
unfolding is_supported_currency contains text_eq to_upper trim_space trim_left trim_right
known_usd = refl

known_cny : is_supported_currency (upper_trim cny) ≡ true
unfolding is_supported_currency contains text_eq to_upper trim_space trim_left trim_right
known_cny = refl

usd_upper : usd ≡ upper_trim usd
unfolding to_upper trim_space trim_left trim_right
usd_upper = refl

cny_upper : cny ≡ upper_trim cny
unfolding to_upper trim_space trim_left trim_right
cny_upper = refl

usd-cny-differ : upper_trim usd ≢ upper_trim cny
unfolding text_eq
usd-cny-differ e =
    let f : usd ≡ cny = usd_upper ∙ e ∙ sym cny_upper in
    let g : true ≡ false = ap (text_eq usd) f in absurd (cc)

-- 0.02 USD are 0.15 CNY, the tie of 14.5 going up, and back 0.15 CNY are 0.02 USD.
small_amounts :
    (convert_amount_cents 2 usd cny rate_text [] ≡ ok 15)
    × (convert_amount_cents 15 cny usd rate_text [] ≡ ok 2)
unfolding convert_amount_cents convert_by_quote round_rat_to_int64 round_magnitude mul quo of_word
    parse_exchange_rate quote read_decimal read_digits read_fraction to_upper trim_space trim_left
    trim_right is_supported_currency contains text_eq
small_amounts = (refl, refl)

-- 0.02 USD are refunded.
abbrev refund : ℕ
refund = modulus - 2

convert_forward_example :
    (r : ℕ) × (convert_amount_cents refund usd cny rate_text []
      ≡ ok (of_magnitude (is_negative refund) r))
    × IsRounded (magnitude refund * 725) 100 r
convert_forward_example =
    convert_forward refund usd cny rate_text [] usd_cny known_usd known_cny usd-cny-differ
      rate_parsed usd_upper cny_upper

convert_backward_example :
    (r : ℕ) × (convert_amount_cents 15 cny usd rate_text [] ≡ ok (of_magnitude (is_negative 15) r))
    × IsRounded (magnitude 15 * 100) 725 r
convert_backward_example =
    convert_backward 15 cny usd rate_text [] usd_cny known_cny known_usd
      (λ e. usd-cny-differ (sym e)) rate_parsed usd_upper cny_upper

abbrev fortune : ℕ
fortune = 2_000_000_000_000_000_000

fortune-low : sign_bit ≤ round_magnitude (fortune * 725) 100
unfolding round_magnitude
fortune-low = omega arith

fortune-high : round_magnitude (fortune * 725) 100 < modulus
unfolding round_magnitude
fortune-high = omega arith

convert_overflow_example :
    (w : ℕ) × (convert_amount_cents fortune usd cny rate_text [] ≡ ok w) × (is_negative w ≡ true)
convert_overflow_example =
    convert_overflow fortune usd cny rate_text [] usd_cny known_usd known_cny usd-cny-differ
      rate_parsed (omega arith) usd_upper cny_upper fortune-low fortune-high
