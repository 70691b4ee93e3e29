-- ===== src/Ledger/Money/Conversion.antt =====
-- What `convertAmountCents` returns with a quoted rate, in either direction.
use accounting.Ledger.Money.{
  Quote, Rates, differ, convert_amount_cents, convert_by_quote, is_supported_currency, mul, of_word,
  parse_exchange_rate, quo, quote, read_decimal, read_digits, read_fraction, round_magnitude,
  round_rat_to_int64, upper_trim,
}
use accounting.Ledger.Money.Rounding.{IsRounded, round_magnitude-IsRounded}
use accounting.Prelude.{
  Bool, Holds, [], ap, arith, false, none, refl, suc, sym, true, zero, ℕ, ◌%◌, ◌*◌, ◌<◌, ◌^◌, ◌∙◌,
  ◌∷◌, ◌≡◌, ◌≢◌, ◌≤◌,
}
use accounting.Prelude.Result.{ok}
use accounting.Prelude.Text.{
  Text, is_empty, text_eq-false, text_eq_iff, text_eq_refl, to_upper, trim_space,
}
use accounting.Prelude.Word.{is_negative, magnitude, modulus, of_magnitude, sign_bit}
use native.Mathlib.Nat.{pow-suc}

pow_pos : (n : ℕ) → 0 < 10 ^ n
pow_pos zero = omega arith
pow_pos (suc n) = simp pow-suc (omega (arith, pow_pos n))

read_fraction-den : (v : ℕ) (s : Text) → Holds (λ r. 0 < r.den) (read_fraction v s)
unfolding read_fraction
read_fraction-den v [] = omega arith
read_fraction-den v (c ∷ s) = ground (arith, pow_pos (read_digits s v 0).1)

read_decimal-den : (s : Text) → Holds (λ r. 0 < r.den) (read_decimal s)
unfolding read_decimal
read_decimal-den s = ground (arith, read_fraction-den (read_digits s 0 0).0 (read_digits s 0 0).2)

quote-den : (s : Text) → Holds (λ q. 0 < q.rate.den) (quote s)
unfolding quote
quote-den (a ∷ b ∷ c ∷ slash ∷ d ∷ e ∷ f ∷ equals ∷ rest) = ground (arith, read_decimal-den rest)
quote-den _ = tt

-- A parsed rate is a positive fraction.
parse_exchange_rate_pos :
    (t : Text) {q : Quote}
    → parse_exchange_rate t ≡ ok q
    → (q.rate.negative ≡ false) × (0 < q.rate.num) × (0 < q.rate.den)
unfolding parse_exchange_rate
parse_exchange_rate_pos t {q} e = ground (arith, quote-den (upper_trim t))

blank_quote : (s : Text) → is_empty s ≡ true → quote (to_upper s) ≡ none
unfolding quote to_upper
blank_quote [] h = refl
blank_quote (c ∷ s) h = absurd (cc)

-- A text that parses is not blank.
parse_exchange_rate_blank :
    (t : Text) {q : Quote} → parse_exchange_rate t ≡ ok q → is_empty (trim_space t) ≡ false
unfolding parse_exchange_rate
parse_exchange_rate_blank t {q} e = ground (arith, blank_quote (trim_space t))

plain : {amount : ℕ} → amount < sign_bit → is_negative amount ≡ false
plain small = ground arith

differ-false : (b : Bool) → differ b false ≡ b
differ-false true = refl
differ-false false = refl

overflows : (r : ℕ) → sign_bit ≤ r → r < modulus → is_negative (r % modulus) ≡ true
overflows r low high = ground arith

-- Two different supported currencies, and a quoted rate that parses.
module _ (amount : ℕ) (source target rate_text : Text) (rates : Rates) (q : Quote)
    (known_source : is_supported_currency (upper_trim source) ≡ true)
    (known_target : is_supported_currency (upper_trim target) ≡ true)
    (distinct : upper_trim source ≢ upper_trim target)
    (parsed : parse_exchange_rate rate_text ≡ ok q) where
  to_quote :
      convert_amount_cents amount source target rate_text rates
      ≡ convert_by_quote (of_word amount) (upper_trim source) (upper_trim target) rate_text
  unfolding convert_amount_cents
  to_quote = ground (
    arith,
    known_source,
    known_target,
    text_eq_iff (upper_trim source) (upper_trim target),
    parse_exchange_rate_blank rate_text parsed,
  )

  one : (d : ℕ) → 1 * d ≡ d
  one d = omega arith

  -- The sign of the amount, with a rounded magnitude.
  abbrev pub signed_round : ℕ → ℕ → ℕ
  signed_round n d = of_magnitude (is_negative amount) (round_magnitude n d)

  quoted_forward :
      q.from ≡ upper_trim source
      → q.to ≡ upper_trim target
      → convert_by_quote (of_word amount) (upper_trim source) (upper_trim target) rate_text
        ≡ ok (signed_round (magnitude amount * q.rate.num) q.rate.den)
  unfolding convert_by_quote round_rat_to_int64 mul of_word
  quoted_forward from to =
      let pos = parse_exchange_rate_pos rate_text parsed in
      rw
        (
          parsed,
          from,
          to,
          text_eq_refl (upper_trim source),
          text_eq_refl (upper_trim target),
          pos.0,
          differ-false (is_negative amount),
        )
        (rw (one q.rate.den))

  quoted_backward :
      q.from ≡ upper_trim target
      → q.to ≡ upper_trim source
      → convert_by_quote (of_word amount) (upper_trim source) (upper_trim target) rate_text
        ≡ ok (signed_round (magnitude amount * q.rate.den) q.rate.num)
  unfolding convert_by_quote round_rat_to_int64 quo of_word
  quoted_backward from to =
      let pos = parse_exchange_rate_pos rate_text parsed in
      let n = text_eq-false (upper_trim target) (upper_trim source) (λ e. distinct (sym e)) in
      rw
        (
          parsed,
          from,
          to,
          n,
          text_eq_refl (upper_trim source),
          text_eq_refl (upper_trim target),
          pos.0,
          differ-false (is_negative amount),
        )
        (rw (one q.rate.num))

  -- With two different supported currencies and a rate quoted from the source to the target, any
  -- amount of either sign is multiplied by the rate: the magnitude is rounded to the nearest integer,
  -- half-way to the greater one, and the answer is the low word of it with the sign of the amount.
  pub convert_forward :
      q.from ≡ upper_trim source
      → q.to ≡ upper_trim target
      → (r : ℕ) × (convert_amount_cents amount source target rate_text rates
          ≡ ok (of_magnitude (is_negative amount) r))
        × IsRounded (magnitude amount * q.rate.num) q.rate.den r
  convert_forward from to = (
    _,
    to_quote ∙ quoted_forward from to,
    round_magnitude-IsRounded (magnitude amount * q.rate.num) q.rate.den
        (parse_exchange_rate_pos rate_text parsed).2,
  )

  -- With two different supported currencies and a rate quoted from the target to the source, any
  -- amount of either sign is divided by the rate, and rounded as it is where it is multiplied.
  pub convert_backward :
      q.from ≡ upper_trim target
      → q.to ≡ upper_trim source
      → (r : ℕ) × (convert_amount_cents amount source target rate_text rates
          ≡ ok (of_magnitude (is_negative amount) r))
        × IsRounded (magnitude amount * q.rate.den) q.rate.num r
  convert_backward from to = (
    _,
    to_quote ∙ quoted_backward from to,
    round_magnitude-IsRounded (magnitude amount * q.rate.den) q.rate.num
        (parse_exchange_rate_pos rate_text parsed).1,
  )

  -- With two different supported currencies and a rate quoted from the source to the target, a
  -- positive amount whose product with the rate rounds to a number from 2 ^ 63 to 2 ^ 64 - 1 comes
  -- back as a negative number, without an error.
  pub convert_overflow :
      amount < sign_bit
      → q.from ≡ upper_trim source
      → q.to ≡ upper_trim target
      → sign_bit ≤ round_magnitude (amount * q.rate.num) q.rate.den
      → round_magnitude (amount * q.rate.num) q.rate.den < modulus
      → (w : ℕ) × (convert_amount_cents amount source target rate_text rates ≡ ok w)
        × (is_negative w ≡ true)
  convert_overflow small from to low high =
      let r = round_magnitude (amount * q.rate.num) q.rate.den in
      let plain_round : signed_round (magnitude amount * q.rate.num) q.rate.den ≡ r % modulus =
        rw (plain small) in
      (r % modulus, to_quote ∙ quoted_forward from to ∙ ap ok plain_round, overflows r low high)
