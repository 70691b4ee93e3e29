-- ===== src/Ledger/Service/Books.antt =====
-- backend/internal/ledger/books.go: books and their members.
use accounting.Ledger.Model.{
  Actor, Book, BookMember, Role, administrator, is_owner, member, other_role, viewer,
}
use accounting.Ledger.Money.{is_supported_currency}
use accounting.Ledger.Service.{authorize_manager}
use accounting.Ledger.Store.{MemoryStore}
use accounting.Ledger.Store.Books.{book_members}
use accounting.Prelude.{
  Bool, List, Option, count, false, find, if◌then◌else◌, is_some, leb, length, ltb, none, not, some,
  true, ℕ, ◌&&◌,
}
use accounting.Prelude.Result.{Result, err, fail_if, from_option, invalid_input, not_found, ok}
use accounting.Prelude.Result.Pure.{◌>>=◌, ◌>>◌}
use accounting.Prelude.Text.{Text, is_empty, text_eq, trim_space}

abbrev pub max_book_name_length : ℕ
max_book_name_length = 120

unfoldable pub is_supported_member_role : Role → Bool
is_supported_member_role (other_role _) = false
is_supported_member_role _ = true

unfoldable pub is_assignable_new_member_role : Role → Bool
is_assignable_new_member_role administrator = true
is_assignable_new_member_role member = true
is_assignable_new_member_role viewer = true
is_assignable_new_member_role _ = false

-- `findBookMember`
abbrev pub find_book_member : Text → List BookMember → Option BookMember
find_book_member user_id members = find (λ m. text_eq m.user_id user_id) members

unfoldable pub owner_count : List BookMember → ℕ
owner_count members = count (λ m. is_owner m.role) members

abbrev pub is_other_owner : Text → BookMember → Bool
is_other_owner excluded m = not (text_eq m.user_id excluded) && is_owner m.role

unfoldable pub first_other_owner : List BookMember → Text → Option BookMember
first_other_owner members excluded = find (is_other_owner excluded) members

pub record UpdateBookMemberRoleRequest : Type 0 where
  pub actor : Actor
  pub book_id : Text
  pub user_id : Text
  pub role : Role

pub record Target : Type 0 where
  pub book : Book
  pub members : List BookMember
  pub target : BookMember

-- The reads and checks of `UpdateBookMemberRole`.
unfoldable pub role_target : UpdateBookMemberRoleRequest → MemoryStore → Result Target
role_target r s = do
  a ← authorize_manager r.actor r.book_id s
  fail_if (is_empty (trim_space r.user_id)) invalid_input
  fail_if (not (is_supported_member_role r.role)) invalid_input
  members ← book_members r.book_id s
  target ← from_option not_found (find_book_member (trim_space r.user_id) members)
  fail_if (is_owner target.role && not (is_owner r.role) && leb (owner_count members) 1)
      invalid_input
  ok (record { book = a.1; members = members; target = target })

-- `reconcilePrimaryOwner` up to the write: the new primary owner, if there is one.
unfoldable pub next_primary_owner : Target → BookMember → Result (Option Text)
next_primary_owner t updated =
    if is_owner updated.role && not (text_eq t.book.owner_user_id updated.user_id)
    then ok (some updated.user_id)
    else if is_owner t.target.role
        && not (is_owner updated.role)
        && text_eq t.book.owner_user_id t.target.user_id
    then elim (first_other_owner t.members t.target.user_id) [
      | none ↦ err invalid_input
      | some m ↦ ok (some m.user_id)
    ]
    else ok none

-- `validateCreateBookRequest`
unfoldable pub check_book_fields : Text → Text → Result (Unit {0})
check_book_fields name reporting_currency = do
  fail_if (is_empty (trim_space name)) invalid_input
  fail_if (ltb max_book_name_length (length (trim_space name))) invalid_input
  fail_if (not (is_supported_currency reporting_currency)) invalid_input

pub record CreateBookRequest : Type 0 where
  pub actor : Actor
  pub name : Text
  pub reporting_currency : Text

pub record UpdateBookRequest : Type 0 where
  pub actor : Actor
  pub book_id : Text
  pub name : Option Text
  pub reporting_currency : Option Text

check_new_name : Option Text → Result (Unit {0})
check_new_name none = ok tt
check_new_name (some n) = do
  fail_if (is_empty (trim_space n)) invalid_input
  fail_if (ltb max_book_name_length (length (trim_space n))) invalid_input

check_new_currency : Option Text → Result (Unit {0})
check_new_currency none = ok tt
check_new_currency (some c) = fail_if (not (is_supported_currency c)) invalid_input

-- `validateUpdateBookRequest`
unfoldable pub check_book_update : UpdateBookRequest → Result (Unit {0})
unfolding check_new_name check_new_currency
check_book_update r = do
  fail_if (not (is_some r.name) && not (is_some r.reporting_currency)) invalid_input
  check_new_name r.name
  check_new_currency r.reporting_currency

-- The reads and checks of `UpdateBook`.
unfoldable pub book_to_update : UpdateBookRequest → MemoryStore → Result (BookMember × Book)
book_to_update r s = do a ← authorize_manager r.actor r.book_id s; check_book_update r; ok a

pub record AddBookMemberRequest : Type 0 where
  pub actor : Actor
  pub book_id : Text
  pub user_id : Text
  pub role : Role
  pub display_name : Text

-- The checks of `AddBookMember`.
unfoldable pub may_add_member : AddBookMemberRequest → MemoryStore → Result (Unit {0})
may_add_member r s = do
  authorize_manager r.actor r.book_id s
  fail_if (is_empty (trim_space r.user_id)) invalid_input
  fail_if (not (is_assignable_new_member_role r.role)) invalid_input

pub record RemoveBookMemberRequest : Type 0 where
  pub actor : Actor
  pub book_id : Text
  pub user_id : Text

-- The reads and checks of `RemoveBookMember`.
unfoldable pub removal_target : RemoveBookMemberRequest → MemoryStore → Result Target
removal_target r s = do
  a ← authorize_manager r.actor r.book_id s
  fail_if (is_empty (trim_space r.user_id)) invalid_input
  members ← book_members r.book_id s
  target ← from_option not_found (find_book_member (trim_space r.user_id) members)
  fail_if (is_owner target.role && leb (owner_count members) 1) invalid_input
  ok (record { book = a.1; members = members; target = target })
