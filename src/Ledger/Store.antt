-- ===== src/Ledger/Store.antt =====
-- backend/internal/ledger/store.go: `MemoryStore`. Every method holds the mutex for its whole body,
-- so it is one step from a state to a state. A read is a function of the state; a `clone` copies
-- backing arrays and is the identity on values.
pub mod Books
pub mod Items
pub mod Updates
pub mod Entries
pub mod Keys
pub mod Invariant
use accounting.Ledger.Model.{Account, AccountGroup, Book, BookMember, Category, Entry, ExchangeRate}
use accounting.Prelude.{Bool, List, [], or_default, sort_by, ◌∷◌}
use accounting.Prelude.Dict.{Dict, insert, lookup}
use accounting.Prelude.Result.{Action}
use accounting.Prelude.Text.{Text, text_leb}

pub record SeedData : Type 0 where
  pub books : List Book
  pub members : List BookMember
  pub categories : List Category
  pub groups : List AccountGroup
  pub accounts : List Account
  pub entries : List Entry
  pub rates : List ExchangeRate

-- `members` maps a book id to the map from user ids to memberships.
pub record MemoryStore : Type 0 where
  pub books : Dict Book
  pub members : Dict (Dict BookMember)
  pub entries : List Entry
  pub categories : List Category
  pub groups : List AccountGroup
  pub accounts : List Account
  pub rates : List ExchangeRate

-- `s.members[bookID]`, where a missing book gives a nil map.
abbrev pub book_members_of : Text → Dict (Dict BookMember) → Dict BookMember
book_members_of book_id d = or_default (lookup book_id d) []

-- `s.members[member.BookID][member.UserID] = member`, with the inner map made when it is nil.
unfoldable pub put_member : BookMember → Dict (Dict BookMember) → Dict (Dict BookMember)
put_member m d = insert m.book_id (insert m.user_id m (book_members_of m.book_id d)) d

add_books : List Book → Dict Book → Dict Book
add_books [] d = d
add_books (b ∷ bs) d = add_books bs (insert b.id b d)

add_members : List BookMember → Dict (Dict BookMember) → Dict (Dict BookMember)
add_members [] d = d
add_members (m ∷ ms) d = add_members ms (put_member m d)

abbrev pub by_currency : ExchangeRate → ExchangeRate → Bool
by_currency a b = text_leb a.currency b.currency

unfoldable pub new_memory_store : SeedData → MemoryStore
unfolding add_books add_members
new_memory_store seed = record {
  books = add_books seed.books [];
  members = add_members seed.members [];
  entries = seed.entries;
  categories = seed.categories;
  groups = seed.groups;
  accounts = seed.accounts;
  rates = sort_by by_currency seed.rates;
}

abbrev pub M : Type 0 → Type 0
M = Action MemoryStore
