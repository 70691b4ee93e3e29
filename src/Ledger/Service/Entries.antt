-- ===== src/Ledger/Service/Entries.antt =====
-- backend/internal/ledger/entries.go and service.go: what a request on entries reads and checks.
pub mod Tags
pub mod Validation
use accounting.Ledger.Model.{
  Account, Actor, Book, BookMember, Category, CategoryDirection, EntryType, Time, expense,
  expense_side, income, income_side, is_manager, is_member_role, other_entry, transfer,
}
use accounting.Ledger.Money.{
  Rates, contains, convert_amount_cents, is_supported_currency, upper_trim,
}
use accounting.Ledger.Store.{MemoryStore}
use accounting.Ledger.Store.Books.{member_of}
use accounting.Ledger.Store.Items.{accounts_of, categories_of, entries_of}
use accounting.Prelude.{
  Bool, List, Option, [], false, find, if◌then◌else◌, leb, length, ltb, none, not, some, true, ℕ,
  ◌&&◌, ◌==◌, ◌||◌, ◌∷◌,
}
use accounting.Prelude.Result.{
  Result, access_denied, fail_if, failure, from_option, invalid_input, not_found, ok, or_fail,
}
use accounting.Prelude.Result.Pure.{◌>>=◌, ◌>>◌}
use accounting.Prelude.Text.{Text, is_empty, text_eq, trim_space}
use accounting.Prelude.Word.{is_negative}

abbrev pub max_note_length : ℕ
max_note_length = 500

abbrev pub max_merchant_length : ℕ
max_merchant_length = 120

abbrev pub max_tag_length : ℕ
max_tag_length = 64

abbrev pub max_tags_per_entry : ℕ
max_tags_per_entry = 20

pub record MutationPolicy : Type 0 where
  pub can_update : Bool
  pub can_delete : Bool

-- `EntryMutationPolicy`
unfoldable pub entry_mutation_policy : Actor → Text → Text → MemoryStore → Result MutationPolicy
entry_mutation_policy actor book_id entry_id s = do
  fail_if (is_empty actor.user_id) failure
  fail_if (is_empty book_id) failure
  fail_if (is_empty entry_id) failure
  m ← or_fail access_denied (member_of book_id actor.user_id s)
  e ← from_option not_found (find (λ x. text_eq x.id entry_id) (entries_of book_id s))
  let allowed =
      is_manager m.role || (is_member_role m.role && text_eq e.creator_user_id actor.user_id)
  ok (record { can_update = allowed; can_delete = allowed })

-- The loops of `normalizeTags` and `normalizeIDs`, which are the same: trimmed, not empty, the first
-- of equal ones.
unfoldable pub unique_trimmed : List Text → List Text → List Text
unique_trimmed seen [] = []
unique_trimmed seen (t ∷ ts) =
    let skipped = unique_trimmed seen ts in
    let rest = unique_trimmed (trim_space t ∷ seen) ts in
    if is_empty (trim_space t)
    then skipped
    else if contains (trim_space t) seen
    then skipped
    else trim_space t ∷ rest

unfoldable pub normalize_tags : List Text → List Text
normalize_tags tags = unique_trimmed [] tags

unfoldable pub is_supported_entry_type : EntryType → Bool
is_supported_entry_type (other_entry _) = false
is_supported_entry_type _ = true

abbrev pub is_transfer : EntryType → Bool
is_transfer transfer = true
is_transfer _ = false

abbrev pub is_expense_side : CategoryDirection → Bool
is_expense_side expense_side = true
is_expense_side _ = false

abbrev pub is_income_side : CategoryDirection → Bool
is_income_side income_side = true
is_income_side _ = false

-- `validateEntryCategory`
unfoldable pub validate_entry_category : EntryType → Option Category → Result (Unit {0})
validate_entry_category expense (some c) = fail_if (not (is_expense_side c.direction)) invalid_input
validate_entry_category income (some c) = fail_if (not (is_income_side c.direction)) invalid_input
validate_entry_category _ _ = ok tt

-- The fields of `CreateEntryRequest`.
pub record CreateEntryRequest : Type 0 where
  pub actor : Actor
  pub book_id : Text
  pub creator_user_id : Text
  pub type : EntryType
  pub account_id : Text
  pub destination_account_id : Text
  pub category_id : Text
  pub amount_cents : ℕ
  pub transaction_currency : Text
  pub book_reporting_currency : Text
  pub exchange_rate : Text
  pub occurred_at : Time
  pub note : Text
  pub merchant : Text
  pub tags : List Text

-- `request.AmountCents <= 0`
abbrev pub not_positive : ℕ → Bool
not_positive w = w == 0 || is_negative w

unfoldable pub all_short : List Text → Bool
all_short [] = true
all_short (t ∷ ts) = leb (length t) max_tag_length && all_short ts

-- The currency of an entry: the request's, or the account's where that is blank.
unfoldable pub entry_currency : Text → Account → Text
entry_currency requested a =
    if is_empty (upper_trim requested) then a.currency else upper_trim requested

-- `validateCreateEntryRequest`
unfoldable pub validate_create_entry_request :
    CreateEntryRequest → Account → Book → Option Category → Rates → Result (Unit {0})
validate_create_entry_request r a b category rates = do
  fail_if (not (is_supported_entry_type r.type)) invalid_input
  fail_if (not_positive r.amount_cents) invalid_input
  fail_if (r.occurred_at == 0) invalid_input
  let currency = entry_currency r.transaction_currency a
  fail_if (not (is_supported_currency currency)) invalid_input
  fail_if
      (not (is_supported_currency a.currency) || not (is_supported_currency b.reporting_currency))
      invalid_input
  convert_amount_cents r.amount_cents currency b.reporting_currency r.exchange_rate rates
  convert_amount_cents r.amount_cents currency a.currency r.exchange_rate rates
  validate_entry_category r.type category
  fail_if (ltb max_note_length (length (trim_space r.note))) invalid_input
  fail_if (ltb max_merchant_length (length (trim_space r.merchant))) invalid_input
  fail_if (is_transfer r.type && is_empty (trim_space r.destination_account_id)) invalid_input
  fail_if (not (all_short (normalize_tags r.tags))) invalid_input
  fail_if (ltb max_tags_per_entry (length (normalize_tags r.tags))) invalid_input
  ok tt

-- `entryCategory`
unfoldable pub entry_category : Text → Text → MemoryStore → Result (Option Category)
entry_category book_id category_id s = if is_empty (trim_space category_id) then ok none else do
  c ←
      from_option not_found
        (find (λ x. text_eq x.id (trim_space category_id)) (categories_of book_id s))
  fail_if c.archived invalid_input
  ok (some c)

abbrev pub account_with_id : Text → MemoryStore → Option Account
account_with_id id s = find (λ x. text_eq x.id id) (accounts_of s)

-- `accountByID`
unfoldable pub account_by_id : Text → MemoryStore → Result Account
account_by_id account_id s = do
  fail_if (is_empty (trim_space account_id)) invalid_input
  from_option not_found (account_with_id (trim_space account_id) s)

-- `visibleAccount`
unfoldable pub visible_account : Actor → Text → Text → MemoryStore → Result Account
visible_account actor book_id account_id s = do
  fail_if (is_empty (trim_space account_id)) invalid_input
  a ← from_option not_found (account_with_id (trim_space account_id) s)
  fail_if (not (text_eq a.user_id actor.user_id || contains book_id a.shared_book_ids))
      access_denied
  ok a

-- `updateEntryAccount`
unfoldable pub update_entry_account :
    Actor → Text → Text → Text → Bool → MemoryStore → Result Account
update_entry_account actor book_id current next changed s =
    if changed || not (text_eq (trim_space current) (trim_space next))
    then visible_account actor book_id next s
    else account_by_id next s

-- `createEntryCreatorUserID`
unfoldable pub creator_of : CreateEntryRequest → BookMember → MemoryStore → Result Text
creator_of r m s =
    let requested = trim_space r.creator_user_id in
    if is_empty requested || text_eq requested r.actor.user_id then ok r.actor.user_id else do
      fail_if (not (is_manager m.role)) access_denied
      or_fail access_denied (member_of r.book_id requested s)
      ok requested
