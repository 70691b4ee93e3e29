-- ===== src/Tests/Entries.antt =====
-- The policy on entries, and the entries of the store.
use accounting.Ledger.Model.{Entry, expense}
use accounting.Ledger.Store.Entries.{view}
use accounting.Ledger.Store.Entries.View.{OnlyEntries, create_entry-view, update_entry-view}
use accounting.Ledger.Store.Items.{
  add_entry, create_entry, is_entry, normalize_entry_id, update_entry,
}
use accounting.Prelude.{find, if◌then◌else◌, refl, some, ◌&&◌, ◌≡◌}
use accounting.Prelude.Result.{ok}
use accounting.Prelude.Text.{Text, text, text_eq, trim_left, trim_right, trim_space}
use accounting.Tests.EntryData.{entry_with, ledger, lunch, plain_ids}

abbrev dinner : Entry
dinner = entry_with (text "e3") expense 80 (text "carol")

created_dinner : (create_entry plain_ids dinner ledger).0 ≡ ok dinner
unfolding create_entry add_entry normalize_entry_id trim_space trim_left trim_right find text_eq
created_dinner = refl

create_entry-view_example :
    (i : Text) × (normalize_entry_id plain_ids dinner.id ≡ ok i)
    × (dinner ≡ record dinner { id = i })
    × (view (create_entry plain_ids dinner ledger).1 (text "home") (text "e3") ≡ (
        if text_eq dinner.book_id (text "home") && text_eq i (text "e3")
        then some dinner
        else view ledger (text "home") (text "e3")))
    × OnlyEntries ledger (create_entry plain_ids dinner ledger).1
create_entry-view_example =
    create_entry-view plain_ids dinner ledger dinner (text "home") (text "e3") created_dinner

abbrev bigger_lunch : Entry
bigger_lunch = record lunch { amount_cents = 150 }

updated_lunch : (update_entry bigger_lunch ledger).0 ≡ ok bigger_lunch
unfolding update_entry find text_eq
updated_lunch = refl

update_entry-view_example :
    (bigger_lunch ≡ bigger_lunch)
    × (view (update_entry bigger_lunch ledger).1 (text "home") (text "e2") ≡ (
        if is_entry (text "home") (text "e2") bigger_lunch
        then some bigger_lunch
        else view ledger (text "home") (text "e2")))
    × OnlyEntries ledger (update_entry bigger_lunch ledger).1
update_entry-view_example =
    update_entry-view bigger_lunch bigger_lunch ledger (text "home") (text "e2") updated_lunch
