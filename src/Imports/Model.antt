-- ===== src/Imports/Model.antt =====
-- backend/internal/imports/model.go: batches of parsed rows. A map is an association list, nil and
-- empty lists are one value.
use accounting.Prelude.{Bool, List, Option, false, true, ℕ}
use accounting.Prelude.Dict.{Dict}
use accounting.Prelude.Text.{Text}

pub data BatchStatus : Type 0 where
  preview applied : BatchStatus
  other_batch : Text → BatchStatus

pub record AppliedSkippedRow : Type 0 where
  pub row_number : ℕ
  pub reason : Text

pub record DetectedSchema : Type 0 where
  pub columns : Dict Text
  pub missing : List Text

pub record PreviewRow : Type 0 where
  pub row_number : ℕ
  pub raw : Dict Text
  pub type : Text
  pub source_type : Text
  pub occurred_at : Text
  pub amount : Text
  pub currency : Text
  pub account : Text
  pub destination_account : Text
  pub category : Text
  pub book : Text
  pub member : Text
  pub participants : List Text
  pub merchant : Text
  pub attribute : Text
  pub note : Text
  pub tags : List Text
  pub warnings : List Text
  pub errors : List Text

pub record DetectedValues : Type 0 where
  pub books : List Text
  pub accounts : List Text
  pub categories : List Text
  pub currencies : List Text
  pub members : List Text
  pub merchants : List Text
  pub tags : List Text

pub record Batch : Type 0 where
  pub id : Text
  pub user_id : Text
  pub source : Text
  pub filename : Text
  pub content_type : Text
  pub source_hash : Text
  pub parser_version : Text
  pub status : BatchStatus
  pub detected_schema : DetectedSchema
  pub rows : List PreviewRow
  pub detected : DetectedValues
  pub error_count : ℕ
  pub warning_count : ℕ
  pub applied_book_id : Text
  pub applied_entry_ids : List Text
  pub applied_skipped_rows : List AppliedSkippedRow
  pub applied_at : Option ℕ
  pub created_at : ℕ
  pub updated_at : ℕ

pub record MarkAppliedRequest : Type 0 where
  pub user_id : Text
  pub batch_id : Text
  pub book_id : Text
  pub entry_ids : List Text
  pub skipped_rows : List AppliedSkippedRow

abbrev pub is_applied : BatchStatus → Bool
is_applied applied = true
is_applied _ = false
