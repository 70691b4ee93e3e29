-- ===== src/Ledger/Service/EntryRequests/Update.antt =====
-- What a change of an entry does to the stored entry.
use accounting.Ledger.Model.{Entry, Time}
use accounting.Ledger.Service.Entries.{MutationPolicy, entry_mutation_policy}
use accounting.Ledger.Service.EntryChanges.{UpdateEntryRequest, entry_update, patch_entry}
use accounting.Ledger.Service.EntryRequests.{update_entry_request}
use accounting.Ledger.Store.{MemoryStore}
use accounting.Ledger.Store.Entries.{view}
use accounting.Ledger.Store.Entries.View.{OnlyEntries, update_entry-view}
use accounting.Ledger.Store.Items.{entry, is_entry, update_entry}
use accounting.Prelude.{
  Bool-cases, Option-cases, ap, arith, find, find_passes, inl, inr, is_some, some, sym, true, ◌∙◌,
  ◌≡◌,
}
use accounting.Prelude.Result.{Result, Result-cases, and_then, err, ok}
use accounting.Prelude.Text.{Text}

-- The parts of an entry that a change may not touch.
pub record SameEntry (old new : Entry) : Type 0 where
  pub id : new.id ≡ old.id
  pub book : new.book_id ≡ old.book_id
  pub creator : new.creator_user_id ≡ old.creator_user_id
  pub created : new.created_at ≡ old.created_at
  pub source : new.raw_source ≡ old.raw_source

entry_update-old :
    (r : UpdateEntryRequest) (now : Time) (s : MemoryStore) (e : Entry)
    → entry_update r now s ≡ ok e
    → (old : Entry) × (view s r.book_id r.entry_id ≡ some old) × SameEntry old e
unfolding entry_update entry view patch_entry
entry_update-old r now s e h =
    elim (Option-cases (find (is_entry r.book_id r.entry_id) s.entries)) [
      | inl missing ↦ absurd (ground arith)
      | inr (old, q) ↦ (
        old,
        q,
        record {
          id = ground arith;
          book = ground arith;
          creator = ground arith;
          created = ground arith;
          source = ground arith;
        },
      )
    ]

entry_update-allowed :
    (r : UpdateEntryRequest) (now : Time) (s : MemoryStore) (e : Entry)
    → entry_update r now s ≡ ok e
    → (p : MutationPolicy) × (entry_mutation_policy r.actor r.book_id r.entry_id s ≡ ok p)
      × (p.can_update ≡ true)
unfolding entry_update
entry_update-allowed r now s e h =
    elim (Result-cases (entry_mutation_policy r.actor r.book_id r.entry_id s)) [
      | inl (p, q) ↦ (p, q, ground arith)
      | inr (x, q) ↦ absurd (ground arith)
    ]

-- A write that answers what it was given.
answered :
    (x : Result Entry) (s : MemoryStore) (e : Entry)
    → (and_then x update_entry s).0 ≡ ok e
    → (x ≡ ok e) × (and_then x update_entry s ≡ update_entry e s)
unfolding update_entry
answered (ok a) s e h = elim (Bool-cases (is_some (find (is_entry a.book_id a.id) s.entries))) [
  | inr missing ↦ absurd (ground arith)
  | inl there ↦
      let same : a ≡ e = ground arith in (ap ok same, ap (λ (x : Entry). update_entry x s) same)
]
answered (err x) s e h = absurd (ground arith)

found_id : (s : MemoryStore) (b i : Text) (e : Entry) → view s b i ≡ some e → is_entry b i e ≡ true
unfolding view
found_id s b i e h = find_passes (is_entry b i) s.entries e h

-- A change that succeeds was allowed by the policy, keeps the entry's id, book, creator, creation
-- time and source; the entry answered is the one found afterwards, and nothing of the store but the
-- entries is changed.
pub update_entry_request_lem :
    (r : UpdateEntryRequest) (now : Time) (s : MemoryStore) (e : Entry)
    → (update_entry_request r now s).0 ≡ ok e
    → ((p : MutationPolicy) × (entry_mutation_policy r.actor r.book_id r.entry_id s ≡ ok p)
        × (p.can_update ≡ true))
      × ((old : Entry) × (view s r.book_id r.entry_id ≡ some old) × SameEntry old e)
      × (view (update_entry_request r now s).1 r.book_id r.entry_id ≡ some e)
      × OnlyEntries s (update_entry_request r now s).1
unfolding update_entry_request
update_entry_request_lem r now s e h =
    let (made, step) = answered (entry_update r now s) s e h in
    let done : (update_entry e s).0 ≡ ok e = ap (λ x. x.0) (sym step) ∙ h in
    let (old, there, same) = entry_update-old r now s e made in
    let hit = found_id s r.book_id r.entry_id old there in
    (
      entry_update-allowed r now s e made,
      (old, there, same),
      rw step (
          (update_entry-view e e s r.book_id r.entry_id done).1
          ∙ ground (arith, hit, same.id, same.book)),
      rw step (update_entry-view e e s r.book_id r.entry_id done).2,
    )
