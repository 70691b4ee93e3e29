-- ===== src/Ledger/Service/Accounts.antt =====
-- backend/internal/ledger/accounts_categories.go: personal accounts and their groups. `now` is the
-- clock, and a new id is an argument; the outer `Option` of a list is the panic of `paginate`.
pub mod Sharing
use mathlib.Core.Option
use accounting.Ledger.Model.{Account, AccountGroup, AccountType, Actor, Time, other_account}
use accounting.Ledger.Money.{contains, is_supported_currency, upper_trim}
use accounting.Ledger.Page.{Page, paginate}
use accounting.Ledger.Service.{authorize_manager}
use accounting.Ledger.Service.Entries.{account_by_id, unique_trimmed}
use accounting.Ledger.Store.{M, MemoryStore}
use accounting.Ledger.Store.Books.{member_of}
use accounting.Ledger.Store.Items.{
  account_groups, accounts_of, create_account, create_account_group, update_account,
  update_account_group,
}
use accounting.Prelude.{
  Bool, List, Option, [], false, find, if◌then◌else◌, is_some, keep, length, ltb, map, none, not,
  or_default, some, true, ℕ, ◌&&◌, ◌∷◌,
}
use accounting.Prelude.Result.{
  Result, access_denied, and_then, err, fail_if, from_option, invalid_input, not_found, ok, or_fail,
}
use accounting.Prelude.Result.Pure.{◌>>=◌, ◌>>◌}
use accounting.Prelude.Text.{Text, is_empty, text_eq, trim_space}

pub record CreateAccountGroupRequest : Type 0 where
  pub actor : Actor
  pub name : Text
  pub sort_order : ℕ

pub record UpdateAccountGroupRequest : Type 0 where
  pub actor : Actor
  pub group_id : Text
  pub name : Option Text
  pub sort_order : Option ℕ

pub record CreateAccountRequest : Type 0 where
  pub actor : Actor
  pub group_id : Text
  pub name : Text
  pub type : AccountType
  pub currency : Text
  pub shared_book_ids : List Text
  pub opening_balance : ℕ

pub record UnshareAccountRequest : Type 0 where
  pub actor : Actor
  pub account_id : Text
  pub book_id : Text

abbrev pub max_account_name_length : ℕ
max_account_name_length = 120

abbrev pub max_account_group_name_length : ℕ
max_account_group_name_length = 120

abbrev pub max_shared_books_per_account : ℕ
max_shared_books_per_account = 50

-- `isSupportedAccountType`
unfoldable pub is_supported_account_type : AccountType → Bool
is_supported_account_type (other_account _) = false
is_supported_account_type _ = true

-- `normalizeIDs`
unfoldable pub normalize_ids : List Text → List Text
normalize_ids ids = unique_trimmed [] ids

-- `removeID`
unfoldable pub remove_id : List Text → Text → List Text
remove_id [] removed = []
remove_id (id ∷ ids) removed =
    let rest = remove_id ids removed in if text_eq id removed then rest else id ∷ rest

-- `validateCreateAccountRequest`
unfoldable pub validate_create_account_request : CreateAccountRequest → Result (Unit {0})
validate_create_account_request r = do
  fail_if (is_empty (trim_space r.name)) invalid_input
  fail_if (ltb max_account_name_length (length (trim_space r.name))) invalid_input
  fail_if (not (is_supported_account_type r.type)) invalid_input
  fail_if (not (is_supported_currency r.currency)) invalid_input
  fail_if (ltb max_shared_books_per_account (length (normalize_ids r.shared_book_ids)))
      invalid_input

-- `validateAccountGroupFields`
unfoldable pub validate_account_group_fields : Text → Result (Unit {0})
validate_account_group_fields name = do
  fail_if (is_empty (trim_space name)) invalid_input
  fail_if (ltb max_account_group_name_length (length (trim_space name))) invalid_input

-- `accountGroupByID`
unfoldable pub account_group_by_id : Text → MemoryStore → Result AccountGroup
account_group_by_id group_id s =
    from_option not_found (find (λ g. text_eq g.id group_id) (account_groups s))

-- A group that the actor owns.
unfoldable pub own_group : Actor → Text → MemoryStore → Result AccountGroup
own_group actor group_id s = do
  g ← account_group_by_id group_id s
  fail_if (not (text_eq g.user_id actor.user_id)) access_denied
  ok g

-- `validateAccountGroup`
unfoldable pub validate_account_group : Actor → Text → MemoryStore → Result (Unit {0})
validate_account_group actor group_id s =
    if is_empty group_id then ok tt else (do own_group actor group_id s; ok tt)

-- The loop of `validateSharedBooks`.
unfoldable pub all_shared : Actor → List Text → MemoryStore → Result (Unit {0})
all_shared actor [] s = ok tt
all_shared actor (book_id ∷ ids) s = do
  or_fail access_denied (member_of book_id actor.user_id s)
  all_shared actor ids s

-- `validateSharedBooks`
unfoldable pub validate_shared_books : Actor → List Text → MemoryStore → Result (Unit {0})
validate_shared_books actor book_ids s = all_shared actor (normalize_ids book_ids) s

abbrev pub new_group : CreateAccountGroupRequest → Text → Time → AccountGroup
new_group r id now = record {
  id = id;
  user_id = r.actor.user_id;
  name = trim_space r.name;
  sort_order = r.sort_order;
  created_at = now;
  updated_at = now;
}

-- The checks of `CreateAccountGroup`.
unfoldable pub may_create_group : CreateAccountGroupRequest → Result (Unit {0})
may_create_group r = do
  fail_if (is_empty r.actor.user_id) invalid_input
  validate_account_group_fields r.name

-- `CreateAccountGroup`
unfoldable pub create_account_group_request :
    CreateAccountGroupRequest → Text → Time → M AccountGroup
create_account_group_request r id now =
    and_then (may_create_group r) (λ _. create_account_group (new_group r id now))

check_group_name : Option Text → Result (Unit {0})
check_group_name none = ok tt
check_group_name (some name) = validate_account_group_fields name

abbrev trimmed_or : Option Text → Text → Text
trimmed_or none t = t
trimmed_or (some u) t = trim_space u

-- The reads and checks of `UpdateAccountGroup`, and the group with its changes.
unfoldable pub group_to_update :
    UpdateAccountGroupRequest → Time → MemoryStore → Result AccountGroup
unfolding check_group_name
group_to_update r now s = do
  fail_if (is_empty r.actor.user_id) invalid_input
  fail_if (is_empty r.group_id) invalid_input
  fail_if (not (is_some r.name) && not (is_some r.sort_order)) invalid_input
  g ← own_group r.actor r.group_id s
  check_group_name r.name
  ok (record g {
    name = trimmed_or r.name g.name;
    sort_order = or_default r.sort_order g.sort_order;
    updated_at = now;
  })

-- `UpdateAccountGroup`
unfoldable pub update_account_group_request : UpdateAccountGroupRequest → Time → M AccountGroup
update_account_group_request r now s = and_then (group_to_update r now s) update_account_group s

abbrev pub new_account : CreateAccountRequest → Text → Time → Account
new_account r id now = record {
  id = id;
  user_id = r.actor.user_id;
  group_id = trim_space r.group_id;
  name = trim_space r.name;
  type = r.type;
  currency = upper_trim r.currency;
  shared_book_ids = normalize_ids r.shared_book_ids;
  opening_balance = r.opening_balance;
  created_at = now;
  updated_at = now;
}

-- The checks of `CreateAccount`.
unfoldable pub may_create_account : CreateAccountRequest → MemoryStore → Result (Unit {0})
may_create_account r s = do
  fail_if (is_empty r.actor.user_id) invalid_input
  validate_create_account_request r
  validate_account_group r.actor (trim_space r.group_id) s
  validate_shared_books r.actor r.shared_book_ids s

-- `CreateAccount`
unfoldable pub create_account_request : CreateAccountRequest → Text → Time → M Account
create_account_request r id now s =
    and_then (may_create_account r s) (λ _. create_account (new_account r id now)) s

-- The reads and checks of `UnshareAccount`, and the account without the book.
unfoldable pub account_to_unshare : UnshareAccountRequest → Time → MemoryStore → Result Account
account_to_unshare r now s = do
  authorize_manager r.actor r.book_id s
  fail_if (is_empty (trim_space r.account_id)) invalid_input
  a ← account_by_id (trim_space r.account_id) s
  fail_if (not (contains r.book_id a.shared_book_ids)) not_found
  ok (record a { shared_book_ids = remove_id a.shared_book_ids r.book_id; updated_at = now })

-- `UnshareAccount`
unfoldable pub unshare_account : UnshareAccountRequest → Time → M Account
unshare_account r now s = and_then (account_to_unshare r now s) update_account s

-- `ListAccounts`
unfoldable pub list_accounts : Actor → ℕ → ℕ → MemoryStore → Option (Result (Page Account))
list_accounts actor page size s =
    if is_empty actor.user_id
    then some (err invalid_input)
    else Option.map (λ p. ok p)
        (paginate (keep (λ a. text_eq a.user_id actor.user_id) (accounts_of s)) page size)

-- `ListAccountGroups`
unfoldable pub list_account_groups :
    Actor → ℕ → ℕ → MemoryStore → Option (Result (Page AccountGroup))
list_account_groups actor page size s =
    if is_empty actor.user_id
    then some (err invalid_input)
    else Option.map (λ p. ok p)
        (paginate (keep (λ g. text_eq g.user_id actor.user_id) (account_groups s)) page size)
