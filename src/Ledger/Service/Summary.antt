-- ===== src/Ledger/Service/Summary.antt =====
-- backend/internal/ledger/service.go: `BookSummary`, the totals of a book over a range of days.
pub mod Balance
use accounting.Ledger.Model.{
  Account, AccountType, Actor, Book, Category, Entry, EntryType, Time, borrow, expense, income,
  lend, other_entry, refund, reimbursement, repayment, transfer,
}
use accounting.Ledger.Money.{Rates, contains, convert_amount_cents}
use accounting.Ledger.Rates.{exchange_rate_index}
use accounting.Ledger.Store.{MemoryStore}
use accounting.Ledger.Store.Books.{book, member_of}
use accounting.Ledger.Store.Items.{accounts_of, categories_of, entries_of}
use accounting.Prelude.{
  Bool, List, [], false, if◌then◌else◌, keep, ltb, map, not, true, ℕ, ◌&&◌, ◌*◌, ◌+◌, ◌/◌, ◌==◌,
  ◌||◌, ◌∷◌,
}
use accounting.Prelude.Result.{Result, access_denied, err, fail_if, failure, ok, or_fail}
use accounting.Prelude.Result.Pure.{◌>>=◌, ◌>>◌}
use accounting.Prelude.Text.{Text, is_empty, text_eq}
use accounting.Prelude.Word.{add, sub}

-- A day in nanoseconds. The zero time is a midnight, and days of `time.UTC` have no leap seconds.
abbrev pub day : ℕ
day = 86_400_000_000_000

-- `normalizeDateRange`: the end is the midnight behind the end date; zero is no bound.
unfoldable pub normalize_date_range : Time → Time → Time × Time
normalize_date_range start_date end_date =
    (start_date, if end_date == 0 then 0 else (end_date / day + 1) * day)

-- `entryInRange`
unfoldable pub entry_in_range : Entry → Time → Time → Bool
entry_in_range e start stop =
    if ltb 0 start && ltb e.occurred_at start
    then false
    else if ltb 0 stop && not (ltb e.occurred_at stop)
    then false
    else true

pub record AccountSummary : Type 0 where
  pub id : Text
  pub name : Text
  pub type : AccountType
  pub currency : Text

-- The counters of the summary; `Summary` has them in a record of their own.
pub record Totals : Type 0 where
  pub balance_cents : ℕ
  pub entry_count : ℕ
  pub income_cents : ℕ
  pub expense_cents : ℕ
  pub refund_cents : ℕ
  pub transfer_count : ℕ

abbrev pub no_totals : Totals
no_totals = record {
  balance_cents = 0;
  entry_count = 0;
  income_cents = 0;
  expense_cents = 0;
  refund_cents = 0;
  transfer_count = 0;
}

abbrev earn : Totals → ℕ → Totals
earn t x = record t { income_cents = add t.income_cents x; balance_cents = add t.balance_cents x }

abbrev spend : Totals → ℕ → Totals
spend t x = record t {
  expense_cents = add t.expense_cents x;
  balance_cents = sub t.balance_cents x;
}

abbrev take_back : Totals → ℕ → Totals
take_back t x = record t {
  refund_cents = add t.refund_cents x;
  balance_cents = add t.balance_cents x;
}

-- The `switch` on the type of an entry.
unfoldable pub count_entry : EntryType → ℕ → Totals → Totals
count_entry income x t = earn t x
count_entry borrow x t = earn t x
count_entry expense x t = spend t x
count_entry lend x t = spend t x
count_entry refund x t = take_back t x
count_entry reimbursement x t = take_back t x
count_entry repayment x t = take_back t x
count_entry transfer x t = record t { transfer_count = t.transfer_count + 1 }
count_entry (other_entry _) x t = t

abbrev pub one_more : Totals → Totals
one_more t = record t { entry_count = t.entry_count + 1 }

-- The loop over the entries of the book.
unfoldable pub sum_entries : Text → Rates → Time → Time → List Entry → Totals → Result Totals
sum_entries currency rates start stop [] t = ok t
sum_entries currency rates start stop (e ∷ es) t = elim (entry_in_range e start stop) [
  | false ↦ sum_entries currency rates start stop es t
  | true ↦
      elim (convert_amount_cents e.amount_cents e.transaction_currency currency e.exchange_rate
        rates) [
          | err x ↦ err x
          | ok x ↦ sum_entries currency rates start stop es (count_entry e.type x (one_more t))
        ]
]

-- `visibleAccounts`
unfoldable pub visible_accounts : Actor → Text → MemoryStore → List AccountSummary
visible_accounts actor book_id s =
    map (λ (a : Account). record { id = a.id; name = a.name; type = a.type; currency = a.currency })
      (keep (λ (a : Account). text_eq a.user_id actor.user_id || contains book_id a.shared_book_ids)
        (accounts_of s))

pub record Summary : Type 0 where
  pub book_id : Text
  pub book_name : Text
  pub currency : Text
  pub totals : Totals
  pub accounts : List AccountSummary
  pub categories : List Category

pub record SummaryRequest : Type 0 where
  pub actor : Actor
  pub book_id : Text
  pub start_date : Time
  pub end_date : Time

-- `BookSummary`
unfoldable pub book_summary : SummaryRequest → Time → MemoryStore → Result Summary
book_summary r now s = do
  fail_if (is_empty r.actor.user_id) failure
  fail_if (is_empty r.book_id) failure
  b ← book r.book_id s
  or_fail access_denied (member_of r.book_id r.actor.user_id s)
  rates ← exchange_rate_index now s.rates
  let (start, stop) = normalize_date_range r.start_date r.end_date
  totals ← sum_entries b.reporting_currency rates start stop (entries_of r.book_id s) no_totals
  ok (record {
    book_id = b.id;
    book_name = b.name;
    currency = b.reporting_currency;
    totals = totals;
    accounts = visible_accounts r.actor r.book_id s;
    categories = categories_of r.book_id s;
  })
