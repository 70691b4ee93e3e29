-- ===== src/Imports/Service.antt =====
-- backend/internal/imports/service.go: loading a batch, and marking it as applied.
use accounting.Imports.Model.{Batch, MarkAppliedRequest, applied, is_applied}
use accounting.Imports.Store.{ImportStore, batch_of, save_batch}
use accounting.Ledger.Money.{contains}
use accounting.Prelude.{
  Bool, List, [], false, if◌then◌else◌, not, some, true, ℕ, ◌&&◌, ◌++◌, ◌||◌, ◌∷◌,
}
use accounting.Prelude.Result.{
  Action, Result, check, err, invalid_input, pure, raise, reads, ◌>>=◌, ◌>>◌,
}
use accounting.Prelude.Text.{Text, is_empty, text_eq, trim_space}

-- `normalizeAppliedEntryIDs`
unfoldable pub normalize_applied_entry_ids : List Text → List Text → List Text
normalize_applied_entry_ids normalized [] = normalized
normalize_applied_entry_ids normalized (id ∷ ids) =
    normalize_applied_entry_ids
      (if is_empty (trim_space id) || contains (trim_space id) normalized
        then normalized
        else normalized ++ trim_space id ∷ [])
      ids

-- `Batch` of the service
unfoldable pub load_batch : Text → Text → ImportStore → Result Batch
load_batch user_id batch_id s =
    if is_empty user_id
    then err invalid_input
    else if is_empty (trim_space batch_id)
    then err invalid_input
    else batch_of user_id (trim_space batch_id) s

abbrev pub marked_batch : MarkAppliedRequest → ℕ → Batch → Batch
marked_batch q now b = record b {
  status = applied;
  applied_book_id = trim_space q.book_id;
  applied_entry_ids = normalize_applied_entry_ids [] q.entry_ids;
  applied_skipped_rows = q.skipped_rows;
  applied_at = some now;
  updated_at = now;
}

-- A batch that has been applied is answered as it is, but not to another book.
unfoldable pub apply_batch : MarkAppliedRequest → ℕ → Batch → Action ImportStore Batch
apply_batch q now b =
    if is_applied b.status
    then (if not (text_eq b.applied_book_id (trim_space q.book_id))
        then raise invalid_input
        else pure b)
    else save_batch (marked_batch q now b)

abbrev no_ids : List Text → Bool
no_ids [] = true
no_ids (_ ∷ _) = false

-- The checks of `MarkApplied` that read no batch.
unfoldable pub may_mark : MarkAppliedRequest → Bool
may_mark q =
    not (is_empty q.user_id)
    && not (is_empty (trim_space q.batch_id))
    && not (is_empty (trim_space q.book_id))
    && not (no_ids (normalize_applied_entry_ids [] q.entry_ids))

-- `MarkApplied`
unfoldable pub mark_applied : MarkAppliedRequest → ℕ → Action ImportStore Batch
mark_applied q now = do
  check (not (may_mark q)) invalid_input
  b ← reads (batch_of q.user_id (trim_space q.batch_id))
  apply_batch q now b
