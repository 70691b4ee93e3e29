-- ===== src/Tests/Sharing.antt =====
-- An account that carol shares with a book, and unshares.
use accounting.Ledger.Model.{Account, AccountGroup, Book, BookMember, credit_card}
use accounting.Ledger.Money.{contains, is_supported_currency}
use accounting.Ledger.Service.{authorize_book_member, authorize_manager}
use accounting.Ledger.Service.Accounts.{
  CreateAccountRequest, UnshareAccountRequest, account_group_by_id, account_to_unshare, all_shared,
  create_account_request, is_supported_account_type, may_create_account, normalize_ids, remove_id,
  unshare_account, validate_account_group, validate_create_account_request, validate_shared_books,
}
use accounting.Ledger.Service.Accounts.Sharing.{create_account_request_lem, unshare_account_lem}
use accounting.Ledger.Service.Entries.{account_by_id, unique_trimmed}
use accounting.Ledger.Store.{MemoryStore}
use accounting.Ledger.Store.Books.{book, member_of}
use accounting.Ledger.Store.Items.{accounts_of, create_account, update_account}
use accounting.Prelude.{
  All, [], false, find, insert_by, refl, some, sort_by, true, ◌++◌, ◌∷◌, ◌≡◌, ◌⊎◌,
}
use accounting.Prelude.Dict.{lookup}
use accounting.Prelude.Result.{ok}
use accounting.Prelude.Text.{
  Text, is_empty, text, text_eq, to_upper, trim_left, trim_right, trim_space,
}
use accounting.Tests.EntryData.{carol, ledger}

abbrev new_card : CreateAccountRequest
new_card = record {
  actor = carol;
  group_id = [];
  name = text "Card";
  type = credit_card;
  currency = text "usd";
  shared_book_ids = text "home" ∷ [];
  opening_balance = 0;
}

abbrev card : Account
card = record {
  id = text "card";
  user_id = text "carol";
  group_id = [];
  name = text "Card";
  type = credit_card;
  currency = text "USD";
  shared_book_ids = text "home" ∷ [];
  opening_balance = 0;
  created_at = 8;
  updated_at = 8;
}

card_made : (create_account_request new_card (text "card") 8 ledger).0 ≡ ok card
unfolding create_account_request may_create_account validate_create_account_request
    is_supported_account_type is_supported_currency contains normalize_ids unique_trimmed
    validate_account_group validate_shared_books all_shared member_of lookup text_eq trim_space
    trim_left trim_right create_account find to_upper
card_made = refl

create_account_request_lem_example :
    ((create_account_request new_card (text "card") 8 ledger).1.accounts
      ≡ ledger.accounts ++ card ∷ [])
    × (card.user_id ≡ text "carol")
    × All (λ b. (m : BookMember) × (member_of b (text "carol") ledger ≡ ok m)) card.shared_book_ids
    × ((is_empty card.group_id ≡ true)
        ⊎ ((g : AccountGroup) × (account_group_by_id card.group_id ledger ≡ ok g)
            × (g.user_id ≡ text "carol")))
create_account_request_lem_example =
    create_account_request_lem new_card (text "card") 8 card ledger card_made

abbrev shared_ledger : MemoryStore
shared_ledger = record ledger { accounts = card ∷ [] }

abbrev hide_card : UnshareAccountRequest
hide_card = record {
  actor = record { user_id = text "alice" };
  account_id = text "card";
  book_id = text "home";
}

abbrev hidden_card : Account
hidden_card = record card { shared_book_ids = []; updated_at = 9 }

card_hidden : (unshare_account hide_card 9 shared_ledger).0 ≡ ok hidden_card
unfolding unshare_account account_to_unshare authorize_manager authorize_book_member member_of book
    lookup text_eq trim_space trim_left trim_right account_by_id find contains remove_id
    update_account accounts_of sort_by insert_by
card_hidden = refl

unshare_account_lem_example :
    ((m : BookMember × Book) × (authorize_manager hide_card.actor hide_card.book_id shared_ledger
        ≡ ok m))
    × (contains hide_card.book_id hidden_card.shared_book_ids ≡ false)
    × ((old : Account) × (account_by_id (trim_space hide_card.account_id) shared_ledger ≡ ok old)
        × (contains hide_card.book_id old.shared_book_ids ≡ true)
        × ((b : Text)
            → text_eq b hide_card.book_id ≡ false
            → contains b hidden_card.shared_book_ids ≡ contains b old.shared_book_ids))
    × (find
          (λ x. text_eq x.id hidden_card.id)
          (unshare_account hide_card 9 shared_ledger).1.accounts
        ≡ some hidden_card)
unshare_account_lem_example = unshare_account_lem hide_card 9 hidden_card shared_ledger card_hidden
