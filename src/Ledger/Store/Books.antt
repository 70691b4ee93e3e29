-- ===== src/Ledger/Store/Books.antt =====
-- The methods of `MemoryStore` on books and memberships.
use accounting.Ledger.Model.{Book, BookMember, Category}
use accounting.Ledger.Money.{contains}
use accounting.Ledger.Store.{M, MemoryStore, book_members_of, put_member}
use accounting.Prelude.{
  Bool, List, [], find, if◌then◌else◌, is_some, none, not, some, sort_by, ◌++◌, ◌∷◌,
}
use accounting.Prelude.Dict.{Dict, erase, insert, lookup, values}
use accounting.Prelude.Result.{Result, err, failure, from_option, not_found, ok}
use accounting.Prelude.Text.{Text, text_eq, text_leb}

-- `Book`; the error is not `ErrNotFound` here.
unfoldable pub book : Text → MemoryStore → Result Book
book book_id s = from_option failure (lookup book_id s.books)

abbrev by_id : Book → Book → Bool
by_id a b = text_leb a.id b.id

unfoldable pub all_books : MemoryStore → List Book
all_books s = sort_by by_id (values s.books)

abbrev by_book_id : BookMember → BookMember → Bool
by_book_id a b = text_leb a.book_id b.book_id

memberships_in : Text → List (Dict BookMember) → List BookMember
memberships_in user_id [] = []
memberships_in user_id (d ∷ ds) = elim (lookup user_id d) [
  | none ↦ memberships_in user_id ds
  | some m ↦ m ∷ memberships_in user_id ds
]

-- `BookMemberships`
unfoldable pub book_memberships : Text → MemoryStore → List BookMember
unfolding memberships_in
book_memberships user_id s = sort_by by_book_id (memberships_in user_id (values s.members))

abbrev pub by_user_id : BookMember → BookMember → Bool
by_user_id a b = text_leb a.user_id b.user_id

-- `BookMembers`
unfoldable pub book_members : Text → MemoryStore → Result (List BookMember)
book_members book_id s = elim (lookup book_id s.members) [
  | none ↦ err failure
  | some d ↦ ok (sort_by by_user_id (values d))
]

-- `Member`
unfoldable pub member_of : Text → Text → MemoryStore → Result BookMember
member_of book_id user_id s = elim (lookup book_id s.members) [
  | none ↦ err failure
  | some d ↦ from_option failure (lookup user_id d)
]

-- The checks that `CreateBook` makes of the default categories, in their order.
unfoldable pub check_categories :
    Text → List Text → List Category → List Category → Result (Unit {0})
check_categories book_id seen existing [] = ok tt
check_categories book_id seen existing (c ∷ cs) =
    let rest = check_categories book_id (c.id ∷ seen) existing cs in
    if not (text_eq c.book_id book_id)
    then err failure
    else if contains c.id seen
    then err failure
    else if is_some (find (λ e. text_eq e.id c.id) existing)
    then err failure
    else rest

abbrev pub with_book : Book → BookMember → List Category → MemoryStore → MemoryStore
with_book b holder cs s = record s {
  books = insert b.id b s.books;
  members = put_member holder s.members;
  categories = s.categories ++ cs;
}

-- `CreateBook`
unfoldable pub create_book : Book → BookMember → List Category → M (Book × BookMember)
create_book b holder cs s =
    if is_some (lookup b.id s.books)
    then (err failure, s)
    else if not (text_eq b.id holder.book_id)
    then (err failure, s)
    else if is_some (lookup holder.user_id (book_members_of b.id s.members))
    then (err failure, s)
    else elim (check_categories b.id [] s.categories cs) [
      | err e ↦ (err e, s)
      | ok _ ↦ (ok (b, holder), with_book b holder cs s)
    ]

-- `UpdateBook`
unfoldable pub update_book : Book → M Book
update_book b s =
    if is_some (lookup b.id s.books)
    then (ok b, record s { books = insert b.id b s.books })
    else (err not_found, s)

-- `CreateBookMember`. Where the inner map had to be made, it holds no duplicate.
unfoldable pub create_book_member : BookMember → M BookMember
create_book_member m s =
    if not (is_some (lookup m.book_id s.books))
    then (err not_found, s)
    else if is_some (lookup m.user_id (book_members_of m.book_id s.members))
    then (err failure, s)
    else (ok m, record s { members = put_member m s.members })

-- `UpdateBookMember`
unfoldable pub update_book_member : BookMember → M BookMember
update_book_member m s =
    if not (is_some (lookup m.book_id s.books))
    then (err not_found, s)
    else elim (lookup m.book_id s.members) [
      | none ↦ (err not_found, s)
      | some d ↦
          if is_some (lookup m.user_id d)
          then (ok m, record s { members = insert m.book_id (insert m.user_id m d) s.members })
          else (err not_found, s)
    ]

-- `DeleteBookMember`
unfoldable pub delete_book_member : Text → Text → M (Unit {0})
delete_book_member book_id user_id s = elim (lookup book_id s.members) [
  | none ↦ (err not_found, s)
  | some d ↦
      if is_some (lookup user_id d)
      then (ok tt, record s { members = insert book_id (erase user_id d) s.members })
      else (err not_found, s)
]
