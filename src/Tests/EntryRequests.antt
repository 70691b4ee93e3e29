-- ===== src/Tests/EntryRequests.antt =====
-- Requests on entries.
use accounting.Auth.Model.{Time}
use accounting.Ledger.Model.{Entry, EntryType, expense, income}
use accounting.Ledger.Money.{
  contains, convert_amount_cents, is_supported_currency, read_decimal, read_digits, read_fraction,
}
use accounting.Ledger.Rates.{
  all_indexed, exchange_rate_index, index_rates, normalize_exchange_rates, normalize_from,
}
use accounting.Ledger.Service.Entries.{
  CreateEntryRequest, MutationPolicy, account_by_id, all_short, entry_category, entry_currency,
  entry_mutation_policy, is_supported_entry_type, is_transfer, normalize_tags, unique_trimmed,
  update_entry_account, validate_create_entry_request, validate_entry_category,
}
use accounting.Ledger.Service.EntryChanges.{
  UpdateEntryRequest, entry_update, may_delete_entry, patch_entry, update_entry_request_has_fields,
}
use accounting.Ledger.Service.EntryRequests.{delete_entry_request, update_entry_request}
use accounting.Ledger.Service.EntryRequests.Policy.{MayChange, delete_entry_request-MayChange}
use accounting.Ledger.Service.EntryRequests.Deletion.{delete_entry_request_lem}
use accounting.Ledger.Service.EntryRequests.Sound.{IsSound}
use accounting.Ledger.Service.EntryRequests.Stored.{
  AllSound, EntryRequest, entries_sound, serve_entries,
}
use accounting.Ledger.Service.EntryRequests.Update.{SameEntry, update_entry_request_lem}
use accounting.Ledger.Store.{MemoryStore}
use accounting.Ledger.Store.Books.{book, member_of}
use accounting.Ledger.Store.Entries.{UniqueIds, view}
use accounting.Ledger.Store.Entries.View.{OnlyEntries}
use accounting.Ledger.Store.Items.{accounts_of, delete_entry, entries_of, entry, update_entry}
use accounting.Prelude.{
  List, [], arith, false, find, if◌then◌else◌, insert_by, none, refl, some, sort_by, true, ℕ, ◌&&◌,
  ◌<◌, ◌∷◌, ◌≡◌, ◌↔◌,
}
use accounting.Prelude.Dict.{insert, lookup}
use accounting.Prelude.Result.{ok}
use accounting.Prelude.Text.{
  Text, text, text_eq, text_leb, to_upper, trim_left, trim_right, trim_space,
}
use accounting.Prelude.Word.{sign_bit}
use accounting.Tests.AuthData.{plain}
use accounting.Tests.EntryData.{carol, entry_with, home, ledger, plain_ids, purse, tagged, wage}

normalized_tags : normalize_tags tagged ≡ text "food" ∷ text "out" ∷ []
unfolding normalize_tags unique_trimmed trim_space trim_left trim_right contains text_eq
normalized_tags = refl

abbrev lunch_request : CreateEntryRequest
lunch_request = record {
  actor = carol;
  book_id = text "home";
  creator_user_id = [];
  type = expense;
  account_id = text "purse";
  destination_account_id = [];
  category_id = [];
  amount_cents = 120;
  transaction_currency = text "usd";
  book_reporting_currency = [];
  exchange_rate = [];
  occurred_at = 5;
  note = text "noodles";
  merchant = [];
  tags = tagged;
}

lunch_passes : validate_create_entry_request lunch_request purse home none [] ≡ ok tt
unfolding validate_create_entry_request is_supported_entry_type is_supported_currency contains
    text_eq entry_currency to_upper trim_space trim_left trim_right convert_amount_cents
    validate_entry_category normalize_tags unique_trimmed all_short
lunch_passes = refl

abbrev requests : List (EntryRequest × Time)
requests =
    (EntryRequest.create_one lunch_request (text "e9"), 7)
    ∷ (EntryRequest.delete_one carol (text "home") (text "e2"), 8)
    ∷ []

income_or_expense-IsSound :
    (id creator : Text) (type : EntryType) (n : ℕ)
    → is_supported_entry_type type ≡ true
    → is_transfer type ≡ false
    → 0 < n
    → n < sign_bit
    → IsSound (entry_with id type n creator)
unfolding is_supported_currency contains text_eq to_upper trim_space trim_left trim_right
    normalize_tags unique_trimmed all_short
income_or_expense-IsSound id creator type n known plain pos small = record {
  kind = known;
  positive = pos;
  in_range = small;
  dated = omega arith;
  currency = refl;
  held = refl;
  reported = refl;
  note = omega arith;
  merchant = omega arith;
  destination = rw plain refl;
  short_tags = refl;
  few_tags = omega arith;
}

ledger-AllSound : AllSound ledger
unfolding is_supported_entry_type
ledger-AllSound = (
  income_or_expense-IsSound (text "e1") (text "carol") income 500 refl refl (omega arith)
      (omega arith),
  (
    income_or_expense-IsSound (text "e2") (text "alice") expense 120 refl refl (omega arith)
        (omega arith),
    tt,
  ),
)

entries_sound_example : AllSound (serve_entries plain_ids requests ledger)
entries_sound_example = entries_sound plain_ids requests ledger ledger-AllSound

abbrev change_wage : UpdateEntryRequest
change_wage = record {
  actor = carol;
  book_id = text "home";
  entry_id = text "e1";
  type = none;
  account_id = none;
  destination_account_id = none;
  category_id = none;
  amount_cents = some 900;
  transaction_currency = none;
  exchange_rate = none;
  occurred_at = none;
  note = none;
  merchant = none;
  tags = none;
}

abbrev changed_wage : Entry
changed_wage = record wage { amount_cents = 900; updated_at = 9 }

wage_changed : (update_entry_request change_wage 9 ledger).0 ≡ ok changed_wage
unfolding update_entry_request entry_update update_entry_request_has_fields entry_mutation_policy
    book entry patch_entry update_entry_account account_by_id entry_category update_entry find
    member_of lookup text_eq text_leb exchange_rate_index normalize_exchange_rates normalize_from
    is_supported_currency contains to_upper trim_space trim_left trim_right sort_by insert_by
    index_rates read_decimal read_digits read_fraction insert all_indexed convert_amount_cents
    accounts_of entries_of validate_create_entry_request is_supported_entry_type entry_currency
    validate_entry_category normalize_tags unique_trimmed all_short
wage_changed = refl

update_entry_request_lem_example :
    ((p : MutationPolicy) × (entry_mutation_policy carol (text "home") (text "e1") ledger ≡ ok p)
      × (p.can_update ≡ true))
    × ((old : Entry) × (view ledger (text "home") (text "e1") ≡ some old)
        × SameEntry old changed_wage)
    × (view (update_entry_request change_wage 9 ledger).1 (text "home") (text "e1")
        ≡ some changed_wage)
    × OnlyEntries ledger (update_entry_request change_wage 9 ledger).1
update_entry_request_lem_example =
    update_entry_request_lem change_wage 9 ledger changed_wage wage_changed

-- A store with a book and a member, and one entry that the member has created.
abbrev own_entry : MemoryStore
own_entry = record ledger { entries = wage ∷ [] }

own_entry-UniqueIds : UniqueIds own_entry
unfolding find
own_entry-UniqueIds = record { once = λ id. (λ _. refl, tt) }

wage_deleted : (delete_entry_request carol (text "home") (text "e1") own_entry).0 ≡ ok tt
unfolding delete_entry_request may_delete_entry entry_mutation_policy member_of lookup text_eq find
    entries_of sort_by insert_by delete_entry
wage_deleted = refl

delete_entry_request_lem_example :
    ((p : MutationPolicy) × (entry_mutation_policy carol (text "home") (text "e1") own_entry ≡ ok p)
      × (p.can_delete ≡ true))
    × (view
          (delete_entry_request carol (text "home") (text "e1") own_entry).1
          (text "home")
          (text "e1")
        ≡ (if text_eq (text "home") (text "home") && text_eq (text "e1") (text "e1")
            then none
            else view own_entry (text "home") (text "e1")))
    × OnlyEntries own_entry (delete_entry_request carol (text "home") (text "e1") own_entry).1
delete_entry_request_lem_example =
    delete_entry_request_lem carol (text "home") (text "e1") (text "home") (text "e1") own_entry
      own_entry-UniqueIds wage_deleted

delete_entry_request-MayChange_example :
    ((delete_entry_request carol (text "home") (text "e1") own_entry).0 ≡ ok tt)
    ↔ MayChange carol (text "home") (text "e1") own_entry
delete_entry_request-MayChange_example =
    delete_entry_request-MayChange carol (text "home") (text "e1") own_entry own_entry-UniqueIds
