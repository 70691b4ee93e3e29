-- ===== src/Ledger/Model.antt =====
-- backend/internal/ledger/model.go: the records that the store keeps. A `time.Time` is the number
-- of nanoseconds since the zero time (`UTC()` changes no instant), an `int64` or `int` is a word,
-- and a string type with constants is a data type with a constructor for every other string.

use accounting.Prelude.{Bool, List, false, true, ℕ}
use accounting.Prelude.Text.{Text}

abbrev pub Time : Type 0
Time = ℕ

pub data Role : Type 0 where
  owner administrator member viewer : Role
  other_role : Text → Role

pub data EntryType : Type 0 where
  expense income transfer refund reimbursement borrow lend repayment : EntryType
  other_entry : Text → EntryType

pub data CategoryDirection : Type 0 where
  expense_side income_side : CategoryDirection
  other_side : Text → CategoryDirection

pub data AccountType : Type 0 where
  cash savings credit_card loan investment payment_platform : AccountType
  other_account : Text → AccountType

pub record Actor : Type 0 where
  pub user_id : Text

pub record Book : Type 0 where
  pub id : Text
  pub owner_user_id : Text
  pub name : Text
  pub reporting_currency : Text
  pub created_at : Time
  pub updated_at : Time

pub record BookMember : Type 0 where
  pub book_id : Text
  pub user_id : Text
  pub role : Role
  pub display_name : Text
  pub created_at : Time
  pub updated_at : Time

pub record Category : Type 0 where
  pub id : Text
  pub book_id : Text
  pub parent_id : Text
  pub name : Text
  pub direction : CategoryDirection
  pub sort_order : ℕ
  pub archived : Bool
  pub raw_source_name : Text
  pub created_at : Time
  pub updated_at : Time

pub record AccountGroup : Type 0 where
  pub id : Text
  pub user_id : Text
  pub name : Text
  pub sort_order : ℕ
  pub created_at : Time
  pub updated_at : Time

pub record Account : Type 0 where
  pub id : Text
  pub user_id : Text
  pub group_id : Text
  pub name : Text
  pub type : AccountType
  pub currency : Text
  pub shared_book_ids : List Text
  pub opening_balance : ℕ
  pub created_at : Time
  pub updated_at : Time

pub record ExchangeRate : Type 0 where
  pub currency : Text
  pub units_per_usd : Text
  pub source : Text
  pub updated_at : Time

pub record Entry : Type 0 where
  pub id : Text
  pub book_id : Text
  pub creator_user_id : Text
  pub type : EntryType
  pub account_id : Text
  pub destination_account_id : Text
  pub category_id : Text
  pub amount_cents : ℕ
  pub transaction_currency : Text
  pub account_currency : Text
  pub book_reporting_currency : Text
  pub exchange_rate : Text
  pub occurred_at : Time
  pub note : Text
  pub merchant : Text
  pub tags : List Text
  pub raw_source : Text
  pub created_at : Time
  pub updated_at : Time

-- The comparisons of a role with `RoleOwner`, and with `RoleOwner` and `RoleAdministrator`.
abbrev pub is_owner : Role → Bool
is_owner owner = true
is_owner _ = false

abbrev pub is_manager : Role → Bool
is_manager owner = true
is_manager administrator = true
is_manager _ = false

abbrev pub is_viewer : Role → Bool
is_viewer viewer = true
is_viewer _ = false

abbrev pub is_member_role : Role → Bool
is_member_role member = true
is_member_role _ = false
