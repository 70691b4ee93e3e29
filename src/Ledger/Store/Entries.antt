-- ===== src/Ledger/Store/Entries.antt =====
-- The entries of the store as a map from book id and entry id: what each write does to the view.
pub mod View
use accounting.Ledger.Model.{Entry}
use accounting.Ledger.Store.{MemoryStore}
use accounting.Ledger.Store.Items.{is_entry}
use accounting.Prelude.{AtMostOnce, Bool, Option, find}
use accounting.Prelude.Text.{Text, text_eq}

abbrev pub has_id : Text → Entry → Bool
has_id id e = text_eq e.id id

-- No two entries have one id.
pub record UniqueIds (s : MemoryStore) : Type 0 where
  pub once : (id : Text) → AtMostOnce (has_id id) s.entries

-- The entry that a request finds under a book and an id.
unfoldable pub view : MemoryStore → Text → Text → Option Entry
view s book_id id = find (is_entry book_id id) s.entries
