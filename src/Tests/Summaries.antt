-- ===== src/Tests/Summaries.antt =====
-- The summary of the book.
use accounting.Ledger.Model.{cash}
use accounting.Ledger.Money.{
  Rat, Rates, contains, convert_amount_cents, convert_by_table, is_supported_currency, mul, of_word,
  quo, read_decimal, read_digits, read_fraction, round_rat_to_int64, supported_currencies,
}
use accounting.Ledger.Rates.{
  all_indexed, exchange_rate_index, index_rates, normalize_exchange_rates, normalize_from,
}
use accounting.Ledger.Rates.Index.{convert_by_table-answers}
use accounting.Ledger.Service.Summary.{
  Summary, SummaryRequest, book_summary, count_entry, entry_in_range, normalize_date_range,
  sum_entries, visible_accounts,
}
use accounting.Ledger.Service.Summary.Balance.{book_summary-balance}
use accounting.Ledger.Store.Books.{book, member_of}
use accounting.Ledger.Store.Items.{accounts_of, categories_of, entries_of}
use accounting.Prelude.{[], false, insert_by, keep, length, refl, some, sort_by, true, ℕ, ◌∷◌, ◌≡◌}
use accounting.Prelude.Dict.{insert, lookup}
use accounting.Prelude.Result.{ok}
use accounting.Prelude.Text.{text, text_eq, text_leb, to_upper, trim_left, trim_right, trim_space}
use accounting.Prelude.Word.{add, sub}
use accounting.Tests.EntryData.{carol, ledger, rates}

abbrev all_time : SummaryRequest
all_time = record { actor = carol; book_id = text "home"; start_date = 0; end_date = 0 }

abbrev home_summary : Summary
home_summary = record {
  book_id = text "home";
  book_name = text "Home";
  currency = text "USD";
  totals = record {
    balance_cents = 380;
    entry_count = 2;
    income_cents = 500;
    expense_cents = 120;
    refund_cents = 0;
    transfer_count = 0;
  };
  accounts =
      record { id = text "purse"; name = text "Purse"; type = cash; currency = text "USD" } ∷ [];
  categories = [];
}

summed_home : book_summary all_time 9 ledger ≡ ok home_summary
unfolding book_summary book member_of lookup text_eq text_leb exchange_rate_index
    normalize_exchange_rates normalize_from is_supported_currency contains to_upper trim_space
    trim_left trim_right sort_by insert_by index_rates read_decimal read_digits read_fraction insert
    all_indexed normalize_date_range sum_entries entry_in_range convert_amount_cents count_entry
    visible_accounts accounts_of entries_of categories_of
summed_home = refl

book_summary-balance_example :
    (380 ≡ sub (add 500 0) 120)
    × (2 ≡ (
        let (start, stop) = normalize_date_range 0 0 in
        length (keep (λ e. entry_in_range e start stop) (entries_of (text "home") ledger))))
book_summary-balance_example = book_summary-balance all_time 9 ledger home_summary summed_home

-- The index of the ledger's rates.
abbrev decimal : ℕ → ℕ → Rat
decimal n d = record { negative = false; num = n; den = d }

abbrev index : Rates
index =
    (text "CAD", decimal 136 100)
    ∷ (text "CNY", decimal 72 10)
    ∷ (text "EUR", decimal 85 100)
    ∷ (text "USD", decimal 1 1)
    ∷ []

indexed : exchange_rate_index 9 rates ≡ ok index
unfolding exchange_rate_index normalize_exchange_rates normalize_from is_supported_currency contains
    text_eq text_leb to_upper trim_space trim_left trim_right sort_by insert_by index_rates
    read_decimal read_digits read_fraction insert lookup all_indexed
indexed = refl

supported_eur : contains (text "EUR") supported_currencies ≡ true
unfolding contains text_eq
supported_eur = refl

supported_cny : contains (text "CNY") supported_currencies ≡ true
unfolding contains text_eq
supported_cny = refl

convert_by_table-answers_example :
    (from : Rat) × (to : Rat) × (lookup (text "EUR") index ≡ some from)
    × (lookup (text "CNY") index ≡ some to)
    × (convert_by_table (of_word 850) (text "EUR") (text "CNY") index
        ≡ ok (round_rat_to_int64 (quo (mul (of_word 850) to) from)))
convert_by_table-answers_example =
    convert_by_table-answers 9 rates index (of_word 850) (text "EUR") (text "CNY") indexed
      supported_eur supported_cny
