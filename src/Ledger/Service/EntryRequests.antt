-- ===== src/Ledger/Service/EntryRequests.antt =====
-- backend/internal/ledger/entries.go: the requests on entries as steps of the store.
pub mod Policy
pub mod Update
pub mod Sound
pub mod Stored
pub mod Deletion
use accounting.Ledger.Model.{Actor, Entry, Time}
use accounting.Ledger.Service.Entries.{CreateEntryRequest}
use accounting.Ledger.Service.EntryChanges.{
  UpdateEntryRequest, entry_context, entry_update, may_delete_entry, new_entry,
}
use accounting.Ledger.Store.{M}
use accounting.Ledger.Store.Items.{Uuid, create_entry, delete_entry, update_entry}
use accounting.Prelude.Result.{reads, ◌>>=◌, ◌>>◌}
use accounting.Prelude.Text.{Text}

-- `CreateEntry`. `new_id` is what `NewEntryID` returns, and `u` the library that checks ids.
unfoldable pub create_entry_request : Uuid → CreateEntryRequest → Text → Time → M Entry
create_entry_request u r new_id now = do
  c ← reads (entry_context r now)
  create_entry u (new_entry r c new_id now)

-- `UpdateEntry`
unfoldable pub update_entry_request : UpdateEntryRequest → Time → M Entry
update_entry_request r now = do e ← reads (entry_update r now); update_entry e

-- `DeleteEntry`
unfoldable pub delete_entry_request : Actor → Text → Text → M (Unit {0})
delete_entry_request actor book_id entry_id = do
  reads (may_delete_entry actor book_id entry_id)
  delete_entry book_id entry_id
