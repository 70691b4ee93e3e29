-- ===== src/Imports/Store.antt =====
-- backend/internal/imports/store.go: the in-memory store of batches. Every method holds the mutex for
-- its whole body, and a `clone` is the identity on values.
use accounting.Imports.Model.{Batch, other_batch}
use accounting.Prelude.{Bool, [], false, if◌then◌else◌, none, or_default, some, true, ◌++◌, ◌∷◌}
use accounting.Prelude.Result.{Action, Result, err, not_found, ok}
use accounting.Prelude.Table.{Table, no_rows, put}
use accounting.Prelude.Text.{Text, text_eq}

pub record ImportStore : Type 0 where
  pub batches : Table Batch
  pub by_hash : Table Text

-- `NewMemoryStore`
abbrev pub empty_imports : ImportStore
empty_imports = record { batches = no_rows; by_hash = no_rows }

-- `batchHashKey`
unfoldable pub batch_hash_key : Text → Text → Text → Text
batch_hash_key user_id source source_hash = user_id ++ (0 ∷ (source ++ (0 ∷ source_hash)))

abbrev pub hash_key : Batch → Text
hash_key b = batch_hash_key b.user_id b.source b.source_hash

-- `SaveBatch`
unfoldable pub save_batch : Batch → Action ImportStore Batch
save_batch b s =
    (ok b, record s { batches = put b.id b s.batches; by_hash = put (hash_key b) b.id s.by_hash })

abbrev pub no_batch : Batch
no_batch = record {
  id = [];
  user_id = [];
  source = [];
  filename = [];
  content_type = [];
  source_hash = [];
  parser_version = [];
  status = other_batch [];
  detected_schema = record { columns = []; missing = [] };
  rows = [];
  detected = record {
    books = [];
    accounts = [];
    categories = [];
    currencies = [];
    members = [];
    merchants = [];
    tags = [];
  };
  error_count = 0;
  warning_count = 0;
  applied_book_id = [];
  applied_entry_ids = [];
  applied_skipped_rows = [];
  applied_at = none;
  created_at = 0;
  updated_at = 0;
}

-- `SaveBatchIfAbsent`: the batch under the hash, and whether it is the new one.
unfoldable pub save_batch_if_absent : Batch → Action ImportStore (Batch × Bool)
save_batch_if_absent b s = elim (s.by_hash (hash_key b)) [
  | some id ↦ (ok (or_default (s.batches id) no_batch, false), s)
  | none ↦ (
    ok (b, true),
    record s { batches = put b.id b s.batches; by_hash = put (hash_key b) b.id s.by_hash },
  )
]

-- `Batch`
unfoldable pub batch_of : Text → Text → ImportStore → Result Batch
batch_of user_id batch_id s = elim (s.batches batch_id) [
  | none ↦ err not_found
  | some b ↦ if text_eq b.user_id user_id then ok b else err not_found
]

-- `BatchByHash`
unfoldable pub batch_by_hash : Text → Text → Text → ImportStore → Result Batch
batch_by_hash user_id source source_hash s =
    elim (s.by_hash (batch_hash_key user_id source source_hash)) [
      | none ↦ err not_found
      | some id ↦ ok (or_default (s.batches id) no_batch)
    ]
