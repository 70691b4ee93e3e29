-- ===== src/Ledger/Service/EntryChanges.antt =====
-- backend/internal/ledger/entries.go: the requests that create, change and delete entries, up to
-- the write.
use accounting.Ledger.Model.{Account, Actor, Book, Entry, EntryType, Time, is_viewer}
use accounting.Ledger.Money.{upper_trim}
use accounting.Ledger.Rates.{exchange_rate_index}
use accounting.Ledger.Service.Entries.{
  CreateEntryRequest, creator_of, entry_category, entry_currency, entry_mutation_policy,
  normalize_tags, update_entry_account, validate_create_entry_request, visible_account,
}
use accounting.Ledger.Store.{MemoryStore}
use accounting.Ledger.Store.Books.{book, member_of}
use accounting.Ledger.Store.Items.{entry}
use accounting.Prelude.{Bool, List, Option, [], if◌then◌else◌, is_some, none, not, some, ℕ, ◌||◌}
use accounting.Prelude.Result.{Result, access_denied, fail_if, invalid_input, ok, or_fail}
use accounting.Prelude.Result.Pure.{◌>>=◌, ◌>>◌}
use accounting.Prelude.Text.{Text, is_empty, trim_space}

-- What `CreateEntry` has read and checked before it makes the entry.
pub record EntryContext : Type 0 where
  pub creator : Text
  pub account : Account
  pub book : Book

destination_visible : CreateEntryRequest → MemoryStore → Result (Unit {0})
destination_visible r s =
    if is_empty (trim_space r.destination_account_id)
    then ok tt
    else do visible_account r.actor r.book_id r.destination_account_id s; ok tt

unfoldable pub entry_context : CreateEntryRequest → Time → MemoryStore → Result EntryContext
unfolding destination_visible
entry_context r now s = do
  fail_if (is_empty r.actor.user_id) invalid_input
  fail_if (is_empty r.book_id) invalid_input
  b ← book r.book_id s
  m ← or_fail access_denied (member_of r.book_id r.actor.user_id s)
  fail_if (is_viewer m.role) access_denied
  creator ← creator_of r m s
  a ← visible_account r.actor r.book_id r.account_id s
  destination_visible r s
  category ← entry_category r.book_id r.category_id s
  rates ← exchange_rate_index now s.rates
  validate_create_entry_request r a b category rates
  ok (record { creator = creator; account = a; book = b })

abbrev pub new_entry : CreateEntryRequest → EntryContext → Text → Time → Entry
new_entry r c id now = record {
  id = id;
  book_id = r.book_id;
  creator_user_id = c.creator;
  type = r.type;
  account_id = trim_space r.account_id;
  destination_account_id = trim_space r.destination_account_id;
  category_id = trim_space r.category_id;
  amount_cents = r.amount_cents;
  transaction_currency = entry_currency r.transaction_currency c.account;
  account_currency = c.account.currency;
  book_reporting_currency = c.book.reporting_currency;
  exchange_rate = trim_space r.exchange_rate;
  occurred_at = r.occurred_at;
  note = trim_space r.note;
  merchant = trim_space r.merchant;
  tags = normalize_tags r.tags;
  raw_source = [];
  created_at = now;
  updated_at = now;
}

pub record UpdateEntryRequest : Type 0 where
  pub actor : Actor
  pub book_id : Text
  pub entry_id : Text
  pub type : Option EntryType
  pub account_id : Option Text
  pub destination_account_id : Option Text
  pub category_id : Option Text
  pub amount_cents : Option ℕ
  pub transaction_currency : Option Text
  pub exchange_rate : Option Text
  pub occurred_at : Option Time
  pub note : Option Text
  pub merchant : Option Text
  pub tags : Option (List Text)

-- `updateEntryRequestHasFields`
unfoldable pub update_entry_request_has_fields : UpdateEntryRequest → Bool
update_entry_request_has_fields r =
    is_some r.type
    || is_some r.account_id
    || is_some r.destination_account_id
    || is_some r.category_id
    || is_some r.amount_cents
    || is_some r.transaction_currency
    || is_some r.exchange_rate
    || is_some r.occurred_at
    || is_some r.note
    || is_some r.merchant
    || is_some r.tags

-- `if request.X != nil { patched.X = f(*request.X) }`
abbrev pub patch : {A : Type 0} → (A → A) → Option A → A → A
patch f none old = old
patch f (some new) old = f new

-- `patchEntry`
unfoldable pub patch_entry : Entry → UpdateEntryRequest → Entry
patch_entry e r = record e {
  type = patch (λ x. x) r.type e.type;
  account_id = patch trim_space r.account_id e.account_id;
  destination_account_id = patch trim_space r.destination_account_id e.destination_account_id;
  category_id = patch trim_space r.category_id e.category_id;
  amount_cents = patch (λ x. x) r.amount_cents e.amount_cents;
  transaction_currency = patch upper_trim r.transaction_currency e.transaction_currency;
  exchange_rate = patch trim_space r.exchange_rate e.exchange_rate;
  occurred_at = patch (λ x. x) r.occurred_at e.occurred_at;
  note = patch trim_space r.note e.note;
  merchant = patch trim_space r.merchant e.merchant;
  tags = patch normalize_tags r.tags e.tags;
}

abbrev pub validation_request : UpdateEntryRequest → Book → Entry → CreateEntryRequest
validation_request r b p = record {
  actor = r.actor;
  book_id = r.book_id;
  creator_user_id = [];
  type = p.type;
  account_id = p.account_id;
  destination_account_id = p.destination_account_id;
  category_id = p.category_id;
  amount_cents = p.amount_cents;
  transaction_currency = p.transaction_currency;
  book_reporting_currency = b.reporting_currency;
  exchange_rate = p.exchange_rate;
  occurred_at = p.occurred_at;
  note = p.note;
  merchant = p.merchant;
  tags = p.tags;
}

destination_still_visible : UpdateEntryRequest → Entry → Entry → MemoryStore → Result (Unit {0})
destination_still_visible r e p s =
    if is_empty (trim_space p.destination_account_id) then ok tt else do
      update_entry_account r.actor r.book_id e.destination_account_id p.destination_account_id
          (is_some r.destination_account_id) s
      ok tt

-- `UpdateEntry` up to the write: the entry to store.
unfoldable pub entry_update : UpdateEntryRequest → Time → MemoryStore → Result Entry
unfolding destination_still_visible
entry_update r now s = do
  fail_if (is_empty r.actor.user_id) invalid_input
  fail_if (is_empty r.book_id) invalid_input
  fail_if (is_empty r.entry_id) invalid_input
  fail_if (not (update_entry_request_has_fields r)) invalid_input
  policy ← entry_mutation_policy r.actor r.book_id r.entry_id s
  fail_if (not policy.can_update) access_denied
  b ← book r.book_id s
  e ← entry r.book_id r.entry_id s
  let p = patch_entry e r
  a ← update_entry_account r.actor r.book_id e.account_id p.account_id (is_some r.account_id) s
  destination_still_visible r e p s
  category ← entry_category r.book_id p.category_id s
  rates ← exchange_rate_index now s.rates
  validate_create_entry_request (validation_request r b p) a b category rates
  ok (record p {
    account_currency = a.currency;
    book_reporting_currency = b.reporting_currency;
    transaction_currency = entry_currency p.transaction_currency a;
    updated_at = now;
  })

-- `DeleteEntry` up to the write.
unfoldable pub may_delete_entry : Actor → Text → Text → MemoryStore → Result (Unit {0})
may_delete_entry actor book_id entry_id s = do
  policy ← entry_mutation_policy actor book_id entry_id s
  fail_if (not policy.can_delete) access_denied
