-- ===== src/Ledger/Service/EntryRequests/Stored.antt =====
-- Any sequence of requests on entries, served one after another.
use accounting.Ledger.Model.{Actor, Category, Entry, Time}
use accounting.Ledger.Service.Entries.{CreateEntryRequest}
use accounting.Ledger.Service.Entries.Validation.{IsAccepted}
use accounting.Ledger.Service.EntryChanges.{
  UpdateEntryRequest, entry_context, entry_update, may_delete_entry, new_entry,
}
use accounting.Ledger.Service.EntryRequests.{
  create_entry_request, delete_entry_request, update_entry_request,
}
use accounting.Ledger.Service.EntryRequests.Sound.{
  IsSound, entry_context-IsAccepted, entry_update-IsSound, new_entry-IsSound,
}
use accounting.Ledger.Store.{MemoryStore}
use accounting.Ledger.Store.Items.{
  Uuid, add_entry, create_entry, delete_entry, delete_first, is_entry, normalize_entry_id,
  replace_first, update_entry,
}
use accounting.Prelude.{
  All, Bool, Bool-cases, List, Option, [], find, inl, inr, is_some, refl, ◌++◌, ◌∷◌, ◌≡◌,
}
use accounting.Prelude.Result.{Action, Result, Result-cases, and_then, err, ok}
use accounting.Prelude.Text.{Text, text_eq}

pub data EntryRequest : Type 0 where
  create_one : CreateEntryRequest → Text → EntryRequest
  update_one : UpdateEntryRequest → EntryRequest
  delete_one : Actor → Text → Text → EntryRequest

-- The store after a request at a time, whether it succeeded or not.
unfoldable pub serve_entry : Uuid → EntryRequest → Time → MemoryStore → MemoryStore
serve_entry u (EntryRequest.create_one r id) now s = (create_entry_request u r id now s).1
serve_entry u (EntryRequest.update_one r) now s = (update_entry_request r now s).1
serve_entry u (EntryRequest.delete_one actor b i) now s = (delete_entry_request actor b i s).1

unfoldable pub serve_entries : Uuid → List (EntryRequest × Time) → MemoryStore → MemoryStore
unfolding serve_entry
serve_entries u [] s = s
serve_entries u ((r, now) ∷ rs) s = serve_entries u rs (serve_entry u r now s)

abbrev pub AllSound : MemoryStore → Type 0
AllSound s = All IsSound s.entries

module _ (P : Entry → Type 0) where
  All-snoc : (xs : List Entry) (e : Entry) → All P xs → P e → All P (xs ++ e ∷ [])
  All-snoc [] e h p = (p, tt)
  All-snoc (x ∷ xs) e h p = (h.0, All-snoc xs e h.1 p)

  All-replace :
      (q : Entry → Bool) (e : Entry) (xs : List Entry)
      → All P xs
      → P e
      → All P (replace_first q e xs)
  unfolding replace_first
  All-replace q e [] h p = tt
  All-replace q e (x ∷ xs) h p = elim (Bool-cases (q x)) [
    | inl here ↦ rw here (p, h.1)
    | inr later ↦ rw later (h.0, All-replace q e xs h.1 p)
  ]

  All-delete : (q : Entry → Bool) (xs : List Entry) → All P xs → All P (delete_first q xs)
  unfolding delete_first
  All-delete q [] h = tt
  All-delete q (x ∷ xs) h = elim (Bool-cases (q x)) [
    | inl here ↦ rw here h.1
    | inr later ↦ rw later (h.0, All-delete q xs h.1)
  ]

create_entry-AllSound :
    (u : Uuid) (e : Entry) (s : MemoryStore)
    → AllSound s
    → IsSound e
    → AllSound (create_entry u e s).1
unfolding create_entry add_entry
create_entry-AllSound u e s h k = elim (Result-cases (normalize_entry_id u e.id)) [
  | inr (x, q) ↦ rw (q, create_entry) h
  | inl (i, q) ↦ elim (Bool-cases (is_some (find (λ x. text_eq x.id i) s.entries))) [
    | inl taken ↦ rw (q, create_entry, taken) h
    | inr free ↦
        rw (q, create_entry, free)
          (All-snoc IsSound s.entries (record e { id = i }) h (renamed e i k))
  ]
]
  where
    renamed : (e : Entry) (i : Text) → IsSound e → IsSound (record e { id = i })
    renamed e i k = record {
      kind = k.kind;
      positive = k.positive;
      in_range = k.in_range;
      dated = k.dated;
      currency = k.currency;
      held = k.held;
      reported = k.reported;
      note = k.note;
      merchant = k.merchant;
      destination = k.destination;
      short_tags = k.short_tags;
      few_tags = k.few_tags;
    }

update_entry-AllSound :
    (e : Entry) (s : MemoryStore) → AllSound s → IsSound e → AllSound (update_entry e s).1
unfolding update_entry
update_entry-AllSound e s h k =
    elim (Bool-cases (is_some (find (is_entry e.book_id e.id) s.entries))) [
      | inr missing ↦ rw missing h
      | inl there ↦ rw there (All-replace IsSound (is_entry e.book_id e.id) e s.entries h k)
    ]

delete_entry-AllSound :
    (b i : Text) (s : MemoryStore) → AllSound s → AllSound (delete_entry b i s).1
unfolding delete_entry
delete_entry-AllSound b i s h = elim (Bool-cases (is_some (find (is_entry b i) s.entries))) [
  | inr missing ↦ rw missing h
  | inl there ↦ rw there (All-delete IsSound (is_entry b i) s.entries h)
]

-- A write after checks that establish what it needs.
AllSound-after :
    {A B : Type 0} (P : A → Type 0) (x : Result A) (write : A → Action MemoryStore B)
    (s : MemoryStore)
    → AllSound s
    → ((a : A) → x ≡ ok a → P a)
    → ((a : A) → P a → AllSound (write a s).1)
    → AllSound (and_then x write s).1
AllSound-after P (ok a) write s h facts k = k a (facts a refl)
AllSound-after P (err e) write s h facts k = h

serve_entry-AllSound :
    (u : Uuid) (r : EntryRequest) (now : Time) (s : MemoryStore)
    → AllSound s
    → AllSound (serve_entry u r now s)
unfolding serve_entry create_entry_request update_entry_request delete_entry_request
serve_entry-AllSound u (EntryRequest.create_one r id) now s h =
    AllSound-after (λ c. (category : Option Category) × IsAccepted r c.account c.book category)
      (entry_context r now s) (λ c. create_entry u (new_entry r c id now)) s h
      (entry_context-IsAccepted r now s)
      (λ c k.
        create_entry-AllSound u (new_entry r c id now) s h (new_entry-IsSound r c k.0 id now k.1))
serve_entry-AllSound u (EntryRequest.update_one r) now s h =
    AllSound-after IsSound (entry_update r now s) update_entry s h (entry_update-IsSound r now s)
      (λ e k. update_entry-AllSound e s h k)
serve_entry-AllSound u (EntryRequest.delete_one actor b i) now s h =
    AllSound-after (λ _. Unit {0}) (may_delete_entry actor b i s) (λ _. delete_entry b i) s h
      (λ _ _. tt) (λ _ _. delete_entry-AllSound b i s h)

-- After any sequence of requests that create, change and delete entries, served on a store whose
-- entries follow the product's rules, every entry follows them: a known type, a positive amount
-- below 2 ^ 63, a date, supported currencies, short texts and tags, and a transfer's destination.
pub entries_sound :
    (u : Uuid) (rs : List (EntryRequest × Time)) (s : MemoryStore)
    → AllSound s
    → AllSound (serve_entries u rs s)
unfolding serve_entries
entries_sound u [] s h = h
entries_sound u ((r, now) ∷ rs) s h = entries_sound u rs _ (serve_entry-AllSound u r now s h)
