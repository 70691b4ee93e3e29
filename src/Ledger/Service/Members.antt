-- ===== src/Ledger/Service/Members.antt =====
-- backend/internal/ledger/books.go: the requests that change a book or its members. `now` is the
-- clock, and a new id is an argument.
pub mod Roles
pub mod Change
pub mod Removal
pub mod Creation
pub mod Settings
pub mod History
pub mod Access
use accounting.Ledger.Model.{
  Book, BookMember, Category, CategoryDirection, Role, Time, is_owner, owner,
}
use accounting.Ledger.Money.{upper_trim}
use accounting.Ledger.Seed.{default_book_categories}
use accounting.Ledger.Service.Books.{
  AddBookMemberRequest, CreateBookRequest, RemoveBookMemberRequest, Target,
  UpdateBookMemberRoleRequest, UpdateBookRequest, book_to_update, check_book_fields,
  first_other_owner, may_add_member, next_primary_owner, removal_target, role_target,
}
use accounting.Ledger.Service.Members.Roles.{updated}
use accounting.Ledger.Store.{M}
use accounting.Ledger.Store.Books.{
  book, create_book, create_book_member, delete_book_member, member_of, update_book,
  update_book_member,
}
use accounting.Prelude.{List, Option, [], false, if◌then◌else◌, map, none, some, ℕ, ◌&&◌, ◌∷◌}
use accounting.Prelude.Result.{
  Result, check, err, invalid_input, lift, ok, pure, raise, reads, ◌>>=◌, ◌>>◌,
}
use accounting.Prelude.Text.{Text, is_empty, text_eq, trim_space}

pub record BookListItem : Type 0 where
  pub book : Book
  pub role : Role

-- The book with the role that its member has.
abbrev pub book_list_item : Book → Role → BookListItem
book_list_item b role = record { book = b; role = role }

abbrev pub new_book : CreateBookRequest → Text → Time → Book
new_book r id now = record {
  id = id;
  owner_user_id = r.actor.user_id;
  name = trim_space r.name;
  reporting_currency = upper_trim r.reporting_currency;
  created_at = now;
  updated_at = now;
}

abbrev pub new_owner : CreateBookRequest → Text → Time → BookMember
new_owner r id now = record {
  book_id = id;
  user_id = r.actor.user_id;
  role = owner;
  display_name = r.actor.user_id;
  created_at = now;
  updated_at = now;
}

-- `CreateBook`, with the id of the book and the ids of its default categories.
unfoldable pub create_book_request :
    CreateBookRequest → Text → (Text → Text) → Time → M BookListItem
create_book_request r id id_for now = do
  check (is_empty r.actor.user_id) invalid_input
  lift (check_book_fields r.name r.reporting_currency)
  created ←
      create_book (new_book r id now) (new_owner r id now) (default_book_categories id now id_for)
  pure (book_list_item created.0 created.1.role)

abbrev pub patched_book : UpdateBookRequest → Time → Book → Book
patched_book r now b = record b {
  name = elim r.name [ none ↦ b.name | some n ↦ trim_space n ];
  reporting_currency = elim r.reporting_currency [
    | none ↦ b.reporting_currency
    | some c ↦ upper_trim c
  ];
  updated_at = now;
}

-- `UpdateBook`
unfoldable pub update_book_request : UpdateBookRequest → Time → M BookListItem
update_book_request r now = do
  a ← reads (book_to_update r)
  updated ← update_book (patched_book r now a.1)
  pure (book_list_item updated a.0.role)

abbrev pub new_member : AddBookMemberRequest → Time → BookMember
new_member r now = record {
  book_id = r.book_id;
  user_id = trim_space r.user_id;
  role = r.role;
  display_name =
      if is_empty (trim_space r.display_name)
      then trim_space r.user_id
      else trim_space r.display_name;
  created_at = now;
  updated_at = now;
}

-- A member of that id is answered as it is; any error of `Member` means that there is none.
unfoldable pub add_or_answer : AddBookMemberRequest → Time → Result BookMember → M BookMember
add_or_answer r now (ok existing) = pure existing
add_or_answer r now (err _) = create_book_member (new_member r now)

-- `AddBookMember`
unfoldable pub add_book_member : AddBookMemberRequest → Time → M BookMember
unfolding add_or_answer
add_book_member r now = do
  reads (may_add_member r)
  found ← reads (λ s. ok (member_of r.book_id (trim_space r.user_id) s))
  add_or_answer r now found

-- The write of `reconcilePrimaryOwner`.
unfoldable pub put_primary_owner : Book → Option Text → Time → M (Unit {0})
put_primary_owner b none now = pure tt
put_primary_owner b (some user_id) now = do
  update_book (record b { owner_user_id = user_id; updated_at = now })
  pure tt

unfoldable pub reconcile_primary_owner : Target → BookMember → Time → M (Unit {0})
reconcile_primary_owner t updated now = do
  next ← lift (next_primary_owner t updated)
  put_primary_owner t.book next now

-- The writes of `UpdateBookMemberRole`.
unfoldable pub change_role : Target → Role → Time → M BookMember
change_role t role now = do
  updated ← update_book_member (record t.target { role = role; updated_at = now })
  reconcile_primary_owner t updated now
  pure updated

-- `UpdateBookMemberRole`
unfoldable pub update_book_member_role : UpdateBookMemberRoleRequest → Time → M BookMember
update_book_member_role r now = do t ← reads (role_target r); change_role t r.role now

-- The replacement that `RemoveBookMember` looks for after it has deleted the member.
unfoldable pub replace_owner : Target → Time → M (Unit {0})
replace_owner t now =
    if is_owner t.target.role && text_eq t.book.owner_user_id t.target.user_id
    then elim (first_other_owner t.members t.target.user_id) [
      | none ↦ raise invalid_input
      | some m ↦ put_primary_owner t.book (some m.user_id) now
    ]
    else pure tt

-- The writes of `RemoveBookMember`.
unfoldable pub remove_target : Text → Target → Time → M (Unit {0})
remove_target book_id t now = do delete_book_member book_id t.target.user_id; replace_owner t now

-- `RemoveBookMember`
unfoldable pub remove_book_member : RemoveBookMemberRequest → Time → M (Unit {0})
remove_book_member r now = do t ← reads (removal_target r); remove_target r.book_id t now
