-- ===== src/Ledger/Service/EntryRequests/Deletion.antt =====
-- What a deletion does.
use accounting.Ledger.Model.{Actor}
use accounting.Ledger.Service.Entries.{MutationPolicy, entry_mutation_policy}
use accounting.Ledger.Service.EntryChanges.{may_delete_entry}
use accounting.Ledger.Service.EntryRequests.{delete_entry_request}
use accounting.Ledger.Store.{MemoryStore}
use accounting.Ledger.Store.Entries.{UniqueIds, view}
use accounting.Ledger.Store.Entries.View.{OnlyEntries, delete_entry-view}
use accounting.Ledger.Store.Items.{delete_entry}
use accounting.Prelude.{ap, arith, if◌then◌else◌, inl, inr, none, refl, sym, true, ◌&&◌, ◌∙◌, ◌≡◌}
use accounting.Prelude.Result.{Result, Result-cases, and_then, err, ok}
use accounting.Prelude.Text.{Text, text_eq}

may_delete_entry-allowed :
    (actor : Actor) (b i : Text) (s : MemoryStore)
    → may_delete_entry actor b i s ≡ ok tt
    → (p : MutationPolicy) × (entry_mutation_policy actor b i s ≡ ok p) × (p.can_delete ≡ true)
unfolding may_delete_entry
may_delete_entry-allowed actor b i s h = elim (Result-cases (entry_mutation_policy actor b i s)) [
  | inl (p, q) ↦ (p, q, ground arith)
  | inr (x, q) ↦ absurd (ground arith)
]

deleted :
    (x : Result (Unit {0})) (b i : Text) (s : MemoryStore)
    → (and_then x (λ _. delete_entry b i) s).0 ≡ ok tt
    → (x ≡ ok tt) × (and_then x (λ _. delete_entry b i) s ≡ delete_entry b i s)
deleted (ok tt) b i s h = (refl, refl)
deleted (err x) b i s h = absurd (ground arith)

-- Where ids are unique, a deletion that succeeds was allowed by the policy, removes the entry, leaves
-- what is found under every other pair of a book and an id, and changes nothing of the store but the
-- entries.
pub delete_entry_request_lem :
    (actor : Actor) (b i book_id id : Text) (s : MemoryStore)
    → UniqueIds s
    → (delete_entry_request actor b i s).0 ≡ ok tt
    → ((p : MutationPolicy) × (entry_mutation_policy actor b i s ≡ ok p) × (p.can_delete ≡ true))
      × (view (delete_entry_request actor b i s).1 book_id id
          ≡ (if text_eq b book_id && text_eq i id then none else view s book_id id))
      × OnlyEntries s (delete_entry_request actor b i s).1
unfolding delete_entry_request
delete_entry_request_lem actor b i book_id id s unique h =
    let (checked, step) = deleted (may_delete_entry actor b i s) b i s h in
    (
      may_delete_entry-allowed actor b i s checked,
      rw step (delete_entry-view s b i book_id id unique (ap (λ x. x.0) (sym step) ∙ h)).0,
      rw step (delete_entry-view s b i book_id id unique (ap (λ x. x.0) (sym step) ∙ h)).1,
    )
