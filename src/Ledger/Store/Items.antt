-- ===== src/Ledger/Store/Items.antt =====
-- The methods of `MemoryStore` on entries, categories, account groups, accounts and rates. Those
-- lists change in three ways: append, replace the first match (`s.xs[slices.IndexFunc(…)] = x`),
-- delete it (`slices.Delete`).
use accounting.Ledger.Model.{Account, AccountGroup, Category, Entry, ExchangeRate}
use accounting.Ledger.Store.{M, MemoryStore, by_currency}
use accounting.Prelude.{
  Bool, List, Option, [], find, if◌then◌else◌, is_some, keep, leb, sort_by, ℕ, ◌&&◌, ◌++◌, ◌==◌,
  ◌∷◌,
}
use accounting.Prelude.Result.{
  Result, err, fail_if, failure, from_option, invalid_input, not_found, ok,
}
use accounting.Prelude.Result.Pure.{◌>>=◌, ◌>>◌}
use accounting.Prelude.Text.{Text, is_empty, text_eq, text_leb, trim_space}
use accounting.Prelude.Word.{is_negative, sub}

module _ {A : Type 0} where
  unfoldable pub replace_first : (A → Bool) → A → List A → List A
  replace_first p a [] = []
  replace_first p a (x ∷ xs) = if p x then a ∷ xs else x ∷ replace_first p a xs

  unfoldable pub delete_first : (A → Bool) → List A → List A
  delete_first p [] = []
  delete_first p (x ∷ xs) = if p x then xs else x ∷ delete_first p xs

-- `existing.BookID == bookID && existing.ID == entryID`
abbrev pub is_entry : Text → Text → Entry → Bool
is_entry book_id entry_id e = text_eq e.book_id book_id && text_eq e.id entry_id

-- `Entry`
unfoldable pub entry : Text → Text → MemoryStore → Result Entry
entry book_id entry_id s = from_option not_found (find (is_entry book_id entry_id) s.entries)

abbrev pub by_occurred_at : Entry → Entry → Bool
by_occurred_at a b = leb a.occurred_at b.occurred_at

-- `Entries`
unfoldable pub entries_of : Text → MemoryStore → List Entry
entries_of book_id s = sort_by by_occurred_at (keep (λ e. text_eq e.book_id book_id) s.entries)

-- What `github.com/google/uuid` makes of a text: `uuid.Parse`, then `String`, and whether the
-- parsed value is `uuid.Nil`.
pub record Uuid : Type 0 where
  pub parse : Text → Option Text
  pub is_nil : Text → Bool

-- `normalizeEntryID`
unfoldable pub normalize_entry_id : Uuid → Text → Result Text
normalize_entry_id u entry_id = do
  fail_if (is_empty (trim_space entry_id)) invalid_input
  parsed ← from_option invalid_input (u.parse (trim_space entry_id))
  fail_if (u.is_nil parsed) invalid_input
  ok parsed

unfoldable pub add_entry : Entry → M Entry
add_entry e s =
    if is_some (find (λ x. text_eq x.id e.id) s.entries)
    then (err failure, s)
    else (ok e, record s { entries = s.entries ++ e ∷ [] })

-- `CreateEntry`
unfoldable pub create_entry : Uuid → Entry → M Entry
create_entry u e s = elim (normalize_entry_id u e.id) [
  | err x ↦ (err x, s)
  | ok id ↦ add_entry (record e { id = id }) s
]

-- `UpdateEntry`
unfoldable pub update_entry : Entry → M Entry
update_entry e s =
    if is_some (find (is_entry e.book_id e.id) s.entries)
    then (ok e, record s { entries = replace_first (is_entry e.book_id e.id) e s.entries })
    else (err not_found, s)

-- `DeleteEntry`
unfoldable pub delete_entry : Text → Text → M (Unit {0})
delete_entry book_id entry_id s =
    if is_some (find (is_entry book_id entry_id) s.entries)
    then (ok tt, record s { entries = delete_first (is_entry book_id entry_id) s.entries })
    else (err not_found, s)

-- `left.SortOrder - right.SortOrder < 0`, and the ids where the sort orders are equal.
abbrev order_then_id : ℕ → Text → ℕ → Text → Bool
order_then_id m i n j = if m == n then text_leb i j else is_negative (sub m n)

abbrev pub by_sort_order : Category → Category → Bool
by_sort_order a b = order_then_id a.sort_order a.id b.sort_order b.id

-- `Categories`
unfoldable pub categories_of : Text → MemoryStore → List Category
categories_of book_id s = sort_by by_sort_order (keep (λ c. text_eq c.book_id book_id) s.categories)

-- `CreateCategory`
unfoldable pub create_category : Category → M Category
create_category c s =
    if is_some (find (λ x. text_eq x.id c.id) s.categories)
    then (err failure, s)
    else (ok c, record s { categories = s.categories ++ c ∷ [] })

abbrev pub is_category : Text → Text → Category → Bool
is_category book_id id c = text_eq c.book_id book_id && text_eq c.id id

-- `UpdateCategory`
unfoldable pub update_category : Category → M Category
update_category c s =
    if is_some (find (is_category c.book_id c.id) s.categories)
    then (ok c, record s { categories = replace_first (is_category c.book_id c.id) c s.categories })
    else (err not_found, s)

abbrev by_group_order : AccountGroup → AccountGroup → Bool
by_group_order a b = order_then_id a.sort_order a.id b.sort_order b.id

-- `AccountGroups`
unfoldable pub account_groups : MemoryStore → List AccountGroup
account_groups s = sort_by by_group_order s.groups

-- `CreateAccountGroup`
unfoldable pub create_account_group : AccountGroup → M AccountGroup
create_account_group g s =
    if is_some (find (λ x. text_eq x.id g.id) s.groups)
    then (err failure, s)
    else (ok g, record s { groups = s.groups ++ g ∷ [] })

-- `UpdateAccountGroup`
unfoldable pub update_account_group : AccountGroup → M AccountGroup
update_account_group g s =
    if is_some (find (λ x. text_eq x.id g.id) s.groups)
    then (ok g, record s { groups = replace_first (λ x. text_eq x.id g.id) g s.groups })
    else (err not_found, s)

abbrev by_account_id : Account → Account → Bool
by_account_id a b = text_leb a.id b.id

-- `Accounts`
unfoldable pub accounts_of : MemoryStore → List Account
accounts_of s = sort_by by_account_id s.accounts

-- `CreateAccount`
unfoldable pub create_account : Account → M Account
create_account a s =
    if is_some (find (λ x. text_eq x.id a.id) s.accounts)
    then (err failure, s)
    else (ok a, record s { accounts = s.accounts ++ a ∷ [] })

-- `UpdateAccount`
unfoldable pub update_account : Account → M Account
update_account a s =
    if is_some (find (λ x. text_eq x.id a.id) s.accounts)
    then (ok a, record s { accounts = replace_first (λ x. text_eq x.id a.id) a s.accounts })
    else (err not_found, s)

-- `ReplaceExchangeRates`
unfoldable pub replace_exchange_rates : List ExchangeRate → M (Unit {0})
replace_exchange_rates rates s = (ok tt, record s { rates = sort_by by_currency rates })
