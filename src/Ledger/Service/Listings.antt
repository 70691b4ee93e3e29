-- ===== src/Ledger/Service/Listings.antt =====
-- backend/internal/ledger/books.go and entries.go: what an actor can read. The outer `Option` of a
-- list is the panic of a slice out of range.
use mathlib.Core.Option
use accounting.Ledger.Model.{Actor, BookMember, Entry}
use accounting.Ledger.Page.{Page, paginate}
use accounting.Ledger.Service.{authorize_book_member}
use accounting.Ledger.Service.Members.{BookListItem, book_list_item}
use accounting.Ledger.Store.{MemoryStore}
use accounting.Ledger.Store.Books.{book, book_members, book_memberships, member_of}
use accounting.Ledger.Store.Items.{entries_of}
use accounting.Prelude.{List, Option, [], if◌then◌else◌, some, ℕ, ◌∷◌}
use accounting.Prelude.Result.{Result, access_denied, err, invalid_input, ok}
use accounting.Prelude.Result.Pure.{◌>>=◌}
use accounting.Prelude.Text.{Text, is_empty}

-- `GetBook`
unfoldable pub get_book : Actor → Text → MemoryStore → Result BookListItem
get_book actor book_id s = elim (authorize_book_member actor book_id s) [
  | err e ↦ err e
  | ok (m, b) ↦ ok (book_list_item b m.role)
]

abbrev pub paged : {A : Type 0} → ℕ → ℕ → Result (List A) → Option (Result (Page A))
paged page size (err e) = some (err e)
paged page size (ok xs) = Option.map (λ p. ok p) (paginate xs page size)

-- The loop of `ListBooks`: the book of each membership.
unfoldable pub books_of : List BookMember → MemoryStore → Result (List BookListItem)
books_of [] s = ok []
books_of (m ∷ ms) s = do
  b ← book m.book_id s
  rest ← books_of ms s
  ok (book_list_item b m.role ∷ rest)

-- `ListBooks`
unfoldable pub list_books : Actor → ℕ → ℕ → MemoryStore → Option (Result (Page BookListItem))
list_books actor page size s =
    if is_empty actor.user_id
    then some (err invalid_input)
    else paged page size (books_of (book_memberships actor.user_id s) s)

-- `ListBookMembers`
unfoldable pub list_book_members :
    Actor → Text → ℕ → ℕ → MemoryStore → Option (Result (Page BookMember))
list_book_members actor book_id page size s = elim (authorize_book_member actor book_id s) [
  | err e ↦ some (err e)
  | ok _ ↦ paged page size (book_members book_id s)
]

-- `normalizeEntryPage` has the bounds of `normalizePage`, and `ListEntries` cuts its page as
-- `paginate` does.
unfoldable pub list_entries : Actor → Text → ℕ → ℕ → MemoryStore → Option (Result (Page Entry))
list_entries actor book_id page size s =
    if is_empty actor.user_id
    then some (err invalid_input)
    else if is_empty book_id
    then some (err invalid_input)
    else elim (member_of book_id actor.user_id s) [
      | err _ ↦ some (err access_denied)
      | ok _ ↦ paged page size (ok (entries_of book_id s))
    ]
