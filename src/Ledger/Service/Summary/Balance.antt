-- ===== src/Ledger/Service/Summary/Balance.antt =====
-- The totals of `BookSummary` agree with each other and with the entries in range.
use accounting.Ledger.Model.{
  Entry, EntryType, Time, borrow, expense, income, lend, other_entry, refund, reimbursement,
  repayment, transfer,
}
use accounting.Ledger.Money.{Rates, convert_amount_cents}
use accounting.Ledger.Rates.{exchange_rate_index}
use accounting.Ledger.Service.Summary.{
  Summary, SummaryRequest, Totals, book_summary, count_entry, entry_in_range, no_totals,
  normalize_date_range, one_more, sum_entries,
}
use accounting.Ledger.Store.{MemoryStore}
use accounting.Ledger.Store.Items.{entries_of}
use accounting.Prelude.{
  List, [], arith, inl, inr, keep, length, refl, zero-add, ℕ, ◌+◌, ◌<◌, ◌∙◌, ◌∷◌, ◌≡◌,
}
use accounting.Prelude.Result.{Result-cases, ok}
use accounting.Prelude.Text.{Text}
use accounting.Prelude.Word.{add, modulus, sub}

abbrev Balanced : Totals → Type 0
Balanced t =
    (t.balance_cents ≡ sub (add t.income_cents t.refund_cents) t.expense_cents)
    × (t.income_cents < modulus)
    × (t.expense_cents < modulus)
    × (t.refund_cents < modulus)

count_entry-Balanced :
    (y : EntryType) (x : ℕ) (t : Totals) → Balanced t → Balanced (count_entry y x t)
unfolding count_entry
count_entry-Balanced income x t h = omega arith
count_entry-Balanced borrow x t h = omega arith
count_entry-Balanced expense x t h = omega arith
count_entry-Balanced lend x t h = omega arith
count_entry-Balanced refund x t h = omega arith
count_entry-Balanced reimbursement x t h = omega arith
count_entry-Balanced repayment x t h = omega arith
count_entry-Balanced transfer x t h = h
count_entry-Balanced (other_entry _) x t h = h

count_entry-count :
    (y : EntryType) (x : ℕ) (t : Totals) → (count_entry y x t).entry_count ≡ t.entry_count
unfolding count_entry
count_entry-count income x t = refl
count_entry-count _ x t = refl

sum_entries-Balanced :
    (currency : Text) (rates : Rates) (start stop : Time) (es : List Entry) (t t' : Totals)
    → Balanced t
    → sum_entries currency rates start stop es t ≡ ok t'
    → Balanced t'
unfolding sum_entries
sum_entries-Balanced currency rates start stop [] t t' h e = ground arith
sum_entries-Balanced currency rates start stop (e ∷ es) t t' h p =
    elim (Result-cases
      (convert_amount_cents e.amount_cents e.transaction_currency currency e.exchange_rate rates)) [
        | inl (y, q) ↦ ground (
          arith,
          sum_entries-Balanced currency rates start stop es t t' h,
          sum_entries-Balanced currency rates start stop es (count_entry e.type y (one_more t)) t'
              (count_entry-Balanced e.type y (one_more t) h),
        )
        | inr (y, q) ↦ ground (arith, sum_entries-Balanced currency rates start stop es t t' h)
      ]

-- One entry more is counted for each entry in range.
sum_entries-count :
    (currency : Text) (rates : Rates) (start stop : Time) (es : List Entry) (t t' : Totals)
    → sum_entries currency rates start stop es t ≡ ok t'
    → t'.entry_count ≡ t.entry_count + length (keep (λ e. entry_in_range e start stop) es)
unfolding sum_entries
sum_entries-count currency rates start stop [] t t' p = ground arith
sum_entries-count currency rates start stop (e ∷ es) t t' p =
    elim (Result-cases
      (convert_amount_cents e.amount_cents e.transaction_currency currency e.exchange_rate rates)) [
        | inl (y, q) ↦ ground (
          arith,
          sum_entries-count currency rates start stop es t t',
          sum_entries-count currency rates start stop es (count_entry e.type y (one_more t)) t',
          count_entry-count e.type y (one_more t),
        )
        | inr (y, q) ↦ ground (arith, sum_entries-count currency rates start stop es t t')
      ]

-- What a summary was made of.
book_summary-sums :
    (r : SummaryRequest) (now : Time) (s : MemoryStore) (x : Summary)
    → book_summary r now s ≡ ok x
    → (rates : Rates) × (sum_entries x.currency rates
          (normalize_date_range r.start_date r.end_date).0
          (normalize_date_range r.start_date r.end_date).1
          (entries_of r.book_id s)
          no_totals
        ≡ ok x.totals)
unfolding book_summary
book_summary-sums r now s x e = elim (Result-cases (exchange_rate_index now s.rates)) [
  | inl (rates, q) ↦ (rates, ground arith)
  | inr (y, q) ↦ absurd (ground arith)
]

-- In every summary that is answered, the balance is the income plus the refunds less the expenses,
-- as 64-bit integers, and the entry count is the number of entries of the book that the range holds.
pub book_summary-balance :
    (r : SummaryRequest) (now : Time) (s : MemoryStore) (x : Summary)
    → book_summary r now s ≡ ok x
    → (x.totals.balance_cents
        ≡ sub (add x.totals.income_cents x.totals.refund_cents) x.totals.expense_cents)
      × (x.totals.entry_count ≡ (
          let (start, stop) = normalize_date_range r.start_date r.end_date in
          length (keep (λ e. entry_in_range e start stop) (entries_of r.book_id s))))
book_summary-balance r now s x e =
    let (rates, p) = book_summary-sums r now s x e in
    (
      (sum_entries-Balanced x.currency rates _ _ (entries_of r.book_id s) no_totals x.totals
          (omega arith) p).0,
      sum_entries-count x.currency rates _ _ (entries_of r.book_id s) no_totals x.totals p
          ∙ zero-add _,
    )
