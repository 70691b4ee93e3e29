-- ===== src/Ledger/Service/Entries/Validation.antt =====
-- What a request that passes `validateCreateEntryRequest` is like.
use accounting.Ledger.Model.{Account, Book, Category, EntryType, expense, income}
use accounting.Ledger.Money.{Rates, is_supported_currency}
use accounting.Ledger.Service.Entries.{
  CreateEntryRequest, all_short, entry_currency, is_expense_side, is_income_side,
  is_supported_entry_type, is_transfer, max_merchant_length, max_note_length, max_tags_per_entry,
  normalize_tags, validate_create_entry_request, validate_entry_category,
}
use accounting.Prelude.{Bool, Option, arith, false, length, refl, some, true, ◌&&◌, ◌<◌, ◌≡◌, ◌≤◌}
use accounting.Prelude.Result.{ok}
use accounting.Prelude.Text.{is_empty, trim_space}
use accounting.Prelude.Word.{sign_bit}

-- The side of a category that a type of entry asks for.
abbrev side_fits : EntryType → Option Category → Bool
side_fits expense (some c) = is_expense_side c.direction
side_fits income (some c) = is_income_side c.direction
side_fits _ _ = true

pub record IsAccepted (r : CreateEntryRequest) (a : Account) (b : Book) (category : Option Category)
    : Type 0 where
  pub kind : is_supported_entry_type r.type ≡ true
  pub positive : 0 < r.amount_cents
  pub in_range : r.amount_cents < sign_bit
  pub dated : 0 < r.occurred_at
  pub currency : is_supported_currency (entry_currency r.transaction_currency a) ≡ true
  pub held : is_supported_currency a.currency ≡ true
  pub reported : is_supported_currency b.reporting_currency ≡ true
  pub side : side_fits r.type category ≡ true
  pub note : length (trim_space r.note) ≤ max_note_length
  pub merchant : length (trim_space r.merchant) ≤ max_merchant_length
  pub destination : (is_transfer r.type && is_empty (trim_space r.destination_account_id)) ≡ false
  pub short_tags : all_short (normalize_tags r.tags) ≡ true
  pub few_tags : length (normalize_tags r.tags) ≤ max_tags_per_entry

side-fits :
    (y : EntryType) (c : Option Category)
    → validate_entry_category y c ≡ ok tt
    → side_fits y c ≡ true
unfolding validate_entry_category
side-fits expense (some c) h = ground arith
side-fits income (some c) h = ground arith
side-fits _ _ h = refl

-- A request that passes has all the properties that the checks are for.
pub validate_create_entry_request-IsAccepted :
    (r : CreateEntryRequest) (a : Account) (b : Book) (category : Option Category) (rates : Rates)
    → validate_create_entry_request r a b category rates ≡ ok tt
    → IsAccepted r a b category
unfolding validate_create_entry_request
validate_create_entry_request-IsAccepted r a b category rates h =
    ground (arith, side-fits r.type category)
