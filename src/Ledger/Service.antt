-- ===== src/Ledger/Service.antt =====
-- The use cases of `ledger.Service` over the in-memory store. A request that changes the store is
-- written as the reads and checks before the first write, which are a function of the store, and
-- then the writes. The clock, new ids and the context are arguments.
pub mod Books
pub mod Members
pub mod Entries
pub mod EntryChanges
pub mod EntryRequests
pub mod Summary
pub mod Categories
pub mod Accounts
pub mod Listings
use accounting.Ledger.Model.{Actor, Book, BookMember, is_manager}
use accounting.Ledger.Store.{MemoryStore}
use accounting.Ledger.Store.Books.{book, member_of}
use accounting.Prelude.{not}
use accounting.Prelude.Result.{Result, access_denied, fail_if, invalid_input, ok, or_fail}
use accounting.Prelude.Result.Pure.{◌>>=◌, ◌>>◌}
use accounting.Prelude.Text.{Text, is_empty}

-- `authorizeBookMember`
unfoldable pub authorize_book_member : Actor → Text → MemoryStore → Result (BookMember × Book)
authorize_book_member actor book_id s = do
  fail_if (is_empty actor.user_id) invalid_input
  fail_if (is_empty book_id) invalid_input
  m ← or_fail access_denied (member_of book_id actor.user_id s)
  b ← book book_id s
  ok (m, b)

-- The same with the test for `RoleOwner` or `RoleAdministrator` that many requests make next.
unfoldable pub authorize_manager : Actor → Text → MemoryStore → Result (BookMember × Book)
authorize_manager actor book_id s = do
  a ← authorize_book_member actor book_id s
  fail_if (not (is_manager a.0.role)) access_denied
  ok a
