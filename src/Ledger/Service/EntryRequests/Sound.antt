-- ===== src/Ledger/Service/EntryRequests/Sound.antt =====
-- What every stored entry is like.
use accounting.Ledger.Model.{Account, Book, Category, Entry, Time}
use accounting.Ledger.Money.{is_supported_currency}
use accounting.Ledger.Rates.{exchange_rate_index}
use accounting.Ledger.Service.Entries.{
  CreateEntryRequest, all_short, entry_category, entry_currency, is_supported_entry_type,
  is_transfer, max_merchant_length, max_note_length, max_tags_per_entry, normalize_tags,
  update_entry_account,
}
use accounting.Ledger.Service.Entries.Tags.{normalize_tags-IsClean}
use accounting.Ledger.Service.Entries.Validation.{
  IsAccepted, validate_create_entry_request-IsAccepted,
}
use accounting.Ledger.Service.EntryChanges.{
  EntryContext, UpdateEntryRequest, entry_context, entry_update, new_entry, patch_entry,
  validation_request,
}
use accounting.Ledger.Store.{MemoryStore}
use accounting.Ledger.Store.Books.{book}
use accounting.Ledger.Store.Items.{entry}
use accounting.Prelude.{Option, arith, false, inl, inr, is_some, length, true, ◌&&◌, ◌<◌, ◌≡◌, ◌≤◌}
use accounting.Prelude.Result.{Result-cases, ok}
use accounting.Prelude.Text.{Text, is_empty, trim_space}
use accounting.Prelude.Text.Trim.{trim_space_twice}
use accounting.Prelude.Word.{sign_bit}

-- The product's rules on a stored entry.
pub record IsSound (e : Entry) : Type 0 where
  pub kind : is_supported_entry_type e.type ≡ true
  pub positive : 0 < e.amount_cents
  pub in_range : e.amount_cents < sign_bit
  pub dated : 0 < e.occurred_at
  pub currency : is_supported_currency e.transaction_currency ≡ true
  pub held : is_supported_currency e.account_currency ≡ true
  pub reported : is_supported_currency e.book_reporting_currency ≡ true
  pub note : length (trim_space e.note) ≤ max_note_length
  pub merchant : length (trim_space e.merchant) ≤ max_merchant_length
  pub destination : (is_transfer e.type && is_empty (trim_space e.destination_account_id)) ≡ false
  pub short_tags : all_short (normalize_tags e.tags) ≡ true
  pub few_tags : length (normalize_tags e.tags) ≤ max_tags_per_entry

pub new_entry-IsSound :
    (r : CreateEntryRequest) (c : EntryContext) (category : Option Category) (id : Text)
    (now : Time)
    → IsAccepted r c.account c.book category
    → IsSound (new_entry r c id now)
new_entry-IsSound r c category id now h = record {
  kind = h.kind;
  positive = h.positive;
  in_range = h.in_range;
  dated = h.dated;
  currency = h.currency;
  held = h.held;
  reported = h.reported;
  note = rw (trim_space_twice r.note) h.note;
  merchant = rw (trim_space_twice r.merchant) h.merchant;
  destination = rw (trim_space_twice r.destination_account_id) h.destination;
  short_tags = rw ((normalize_tags-IsClean r.tags).1) h.short_tags;
  few_tags = rw ((normalize_tags-IsClean r.tags).1) h.few_tags;
}

-- The request with which `CreateEntry` and `UpdateEntry` call the validation was accepted.
pub entry_context-IsAccepted :
    (r : CreateEntryRequest) (now : Time) (s : MemoryStore) (c : EntryContext)
    → entry_context r now s ≡ ok c
    → (category : Option Category) × IsAccepted r c.account c.book category
unfolding entry_context
entry_context-IsAccepted r now s c h =
    elim (Result-cases (entry_category r.book_id r.category_id s)) [
      | inr (x, q) ↦ absurd (ground arith)
      | inl (category, q) ↦ elim (Result-cases (exchange_rate_index now s.rates)) [
        | inr (x, p) ↦ absurd (ground arith)
        | inl (rates, p) ↦ (
          category,
          validate_create_entry_request-IsAccepted r c.account c.book category rates (ground arith),
        )
      ]
    ]

-- The entry that `UpdateEntry` stores.
abbrev stored_update : UpdateEntryRequest → Entry → Account → Book → Time → Entry
stored_update r old a b now = record (patch_entry old r) {
  account_currency = a.currency;
  book_reporting_currency = b.reporting_currency;
  transaction_currency = entry_currency (patch_entry old r).transaction_currency a;
  updated_at = now;
}

record UpdateFacts (r : UpdateEntryRequest) (now : Time) (e : Entry) : Type 0 where
  old : Entry
  account : Account
  book : Book
  category : Option Category
  accepted : IsAccepted (validation_request r book (patch_entry old r)) account book category
  made : e ≡ stored_update r old account book now

entry_update-facts :
    (r : UpdateEntryRequest) (now : Time) (s : MemoryStore) (e : Entry)
    → entry_update r now s ≡ ok e
    → UpdateFacts r now e
unfolding entry_update
entry_update-facts r now s e h = elim (Result-cases (book r.book_id s)) [
  | inr (x, p) ↦ absurd (ground arith)
  | inl (b, p) ↦ elim (Result-cases (entry r.book_id r.entry_id s)) [
    | inr (x, q) ↦ absurd (ground arith)
    | inl (old, q) ↦
        elim (Result-cases (
          update_entry_account r.actor r.book_id old.account_id (patch_entry old r).account_id
            (is_some r.account_id) s)) [
              | inr (x, t) ↦ absurd (ground arith)
              | inl (a, t) ↦
                  elim (Result-cases (entry_category r.book_id (patch_entry old r).category_id s)) [
                    | inr (x, u) ↦ absurd (ground arith)
                    | inl (category, u) ↦ elim (Result-cases (exchange_rate_index now s.rates)) [
                      | inr (x, v) ↦ absurd (ground arith)
                      | inl (rates, v) ↦ record {
                        old = old;
                        account = a;
                        book = b;
                        category = category;
                        accepted =
                            validate_create_entry_request-IsAccepted
                              (validation_request r b (patch_entry old r)) a b category rates
                              (ground arith);
                        made = ground arith;
                      }
                    ]
                  ]
            ]
  ]
]

pub entry_update-IsSound :
    (r : UpdateEntryRequest) (now : Time) (s : MemoryStore) (e : Entry)
    → entry_update r now s ≡ ok e
    → IsSound e
entry_update-IsSound r now s e h =
    let f = entry_update-facts r now s e h in
    let k = f.accepted in
    rw f.made (record {
      kind = k.kind;
      positive = k.positive;
      in_range = k.in_range;
      dated = k.dated;
      currency = k.currency;
      held = k.held;
      reported = k.reported;
      note = k.note;
      merchant = k.merchant;
      destination = k.destination;
      short_tags = k.short_tags;
      few_tags = k.few_tags;
    })
