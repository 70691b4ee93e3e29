-- ===== src/Tests/EntryData.antt =====
-- A book with an owner and a member, their account and two entries.
use accounting.Ledger.Model.{
  Account, Actor, Book, BookMember, Entry, EntryType, ExchangeRate, Role, cash, expense, income,
  member, owner,
}
use accounting.Ledger.Store.{MemoryStore}
use accounting.Ledger.Store.Items.{Uuid}
use accounting.Prelude.{List, [], some, ℕ, ◌∷◌}
use accounting.Prelude.Text.{Text, is_empty, text}

abbrev pub carol : Actor
carol = record { user_id = text "carol" }

abbrev pub home : Book
home = record {
  id = text "home";
  owner_user_id = text "alice";
  name = text "Home";
  reporting_currency = text "USD";
  created_at = 1;
  updated_at = 1;
}

abbrev pub membership : Text → Role → BookMember
membership user_id role = record {
  book_id = text "home";
  user_id = user_id;
  role = role;
  display_name = user_id;
  created_at = 1;
  updated_at = 1;
}

abbrev pub purse : Account
purse = record {
  id = text "purse";
  user_id = text "carol";
  group_id = [];
  name = text "Purse";
  type = cash;
  currency = text "USD";
  shared_book_ids = [];
  opening_balance = 0;
  created_at = 1;
  updated_at = 1;
}

abbrev pub entry_with : Text → EntryType → ℕ → Text → Entry
entry_with id type amount creator = record {
  id = id;
  book_id = text "home";
  creator_user_id = creator;
  type = type;
  account_id = text "purse";
  destination_account_id = [];
  category_id = [];
  amount_cents = amount;
  transaction_currency = text "USD";
  account_currency = text "USD";
  book_reporting_currency = text "USD";
  exchange_rate = [];
  occurred_at = 5;
  note = [];
  merchant = [];
  tags = [];
  raw_source = [];
  created_at = 5;
  updated_at = 5;
}

abbrev pub wage : Entry
wage = entry_with (text "e1") income 500 (text "carol")

abbrev pub lunch : Entry
lunch = entry_with (text "e2") expense 120 (text "alice")

abbrev pub rates : List ExchangeRate
rates =
    record { currency = text "CAD"; units_per_usd = text "1.36"; source = []; updated_at = 1 }
    ∷ record { currency = text "CNY"; units_per_usd = text "7.2"; source = []; updated_at = 1 }
    ∷ record { currency = text "EUR"; units_per_usd = text "0.85"; source = []; updated_at = 1 }
    ∷ record { currency = text "USD"; units_per_usd = text "1"; source = []; updated_at = 1 }
    ∷ []

abbrev pub ledger : MemoryStore
ledger = record {
  books = (text "home", home) ∷ [];
  members =
      (
        text "home",
        (text "alice", membership (text "alice") owner)
            ∷ (text "carol", membership (text "carol") member)
            ∷ [],
      )
      ∷ [];
  entries = wage ∷ lunch ∷ [];
  categories = [];
  groups = [];
  accounts = purse ∷ [];
  rates = rates;
}

-- Ids that are read as they stand.
abbrev pub plain_ids : Uuid
plain_ids = record { parse = some; is_nil = is_empty }

abbrev pub tagged : List Text
tagged = text " food " ∷ text "food" ∷ text "  " ∷ text "out" ∷ []
