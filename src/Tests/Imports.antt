-- ===== src/Tests/Imports.antt =====
-- A staged batch, applied to a book.
use accounting.Imports.Applied.{IsKeyed, again, mark_applied_final}
use accounting.Imports.Model.{Batch, MarkAppliedRequest, applied, preview}
use accounting.Imports.Service.{apply_batch, mark_applied, may_mark, normalize_applied_entry_ids}
use accounting.Imports.Store.{ImportStore, batch_of, no_batch, save_batch}
use accounting.Ledger.Money.{contains}
use accounting.Prelude.{Bool-cases, [], inl, inr, refl, some, true, ◌∷◌, ◌≡◌}
use accounting.Prelude.Result.{ok}
use accounting.Prelude.Table.{no_rows, put}
use accounting.Prelude.Text.{text, text_eq, text_eq_iff, trim_left, trim_right, trim_space}

abbrev staged_batch : Batch
staged_batch = record no_batch { id = text "b1"; user_id = text "ann"; status = preview }

abbrev staged : ImportStore
staged = record { batches = put (text "b1") staged_batch no_rows; by_hash = no_rows }

staged-IsKeyed : IsKeyed staged
staged-IsKeyed id = elim (Bool-cases (text_eq (text "b1") id)) [
  | inl here ↦ rw here ((text_eq_iff (text "b1") id).0 here)
  | inr away ↦ rw away tt
]

abbrev apply_home : MarkAppliedRequest
apply_home = record {
  user_id = text "ann";
  batch_id = text " b1 ";
  book_id = text "home";
  entry_ids = text "e1" ∷ text " e1" ∷ [];
  skipped_rows = [];
}

abbrev apply_flat : MarkAppliedRequest
apply_flat = record apply_home { book_id = text "flat"; entry_ids = text "e9" ∷ [] }

abbrev applied_batch : Batch
applied_batch = record staged_batch {
  status = applied;
  applied_book_id = text "home";
  applied_entry_ids = text "e1" ∷ [];
  applied_at = some 5;
  updated_at = 5;
}

home_applied : (mark_applied apply_home 5 staged).0 ≡ ok applied_batch
unfolding mark_applied may_mark apply_batch batch_of save_batch normalize_applied_entry_ids contains
    text_eq trim_space trim_left trim_right
home_applied = refl

flat-allowed : may_mark apply_flat ≡ true
unfolding may_mark normalize_applied_entry_ids contains text_eq trim_space trim_left trim_right
flat-allowed = refl

mark_applied_final_example :
    (applied_batch.status ≡ applied)
    × (applied_batch.applied_book_id ≡ trim_space apply_home.book_id)
    × (mark_applied apply_flat 6 (mark_applied apply_home 5 staged).1
        ≡ again apply_home apply_flat 5 6 applied_batch (mark_applied apply_home 5 staged).1)
mark_applied_final_example =
    mark_applied_final apply_home apply_flat 5 6 applied_batch staged staged-IsKeyed home_applied
      refl refl flat-allowed
