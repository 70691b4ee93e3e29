-- ===== src/Ledger/Store/Entries/View.antt =====
-- What creating, changing and deleting an entry does to the view of the entries and to their ids.
use accounting.Ledger.Model.{Entry}
use accounting.Ledger.Store.{MemoryStore}
use accounting.Ledger.Store.Entries.{UniqueIds, has_id, view}
use accounting.Ledger.Store.Updates.{
  AtMostOnce-delete, AtMostOnce-replace, AtMostOnce-snoc, find-delete_ne, find-delete_self,
  find-replace_ne, find-replace_self, find-snoc,
}
use accounting.Ledger.Store.Items.{
  Uuid, add_entry, create_entry, delete_entry, delete_first, is_entry, normalize_entry_id,
  replace_first, update_entry,
}
use accounting.Prelude.{
  AtMostOnce, Bool, Bool-cases, List, Option-cases, [], ap, arith, find, if◌then◌else◌, inl, inr,
  is_some, none, refl, some, subst, true, ◌&&◌, ◌∷◌, ◌≡◌,
}
use accounting.Prelude.Result.{Result-cases, ok}
use accounting.Prelude.Text.{Text, text_eq, text_eq_iff, text_eq_refl}

none_of_weaker :
    (p q : Entry → Bool) (xs : List Entry)
    → ((x : Entry) → p x ≡ true → q x ≡ true)
    → find q xs ≡ none
    → find p xs ≡ none
unfolding find
none_of_weaker p q [] h e = refl
none_of_weaker p q (x ∷ xs) h e = ground (arith, h x, none_of_weaker p q xs h)

AtMostOnce-weaker :
    (p q : Entry → Bool) (xs : List Entry)
    → ((x : Entry) → p x ≡ true → q x ≡ true)
    → AtMostOnce q xs
    → AtMostOnce p xs
AtMostOnce-weaker p q [] h o = tt
AtMostOnce-weaker p q (x ∷ xs) h o =
    (λ t. none_of_weaker p q xs h (o.0 (h x t)), AtMostOnce-weaker p q xs h o.1)

both_true : (a b : Bool) → (a && b) ≡ true → b ≡ true
both_true a b h = ground arith

-- An id that is not taken is not taken in any book.
fresh_in_book :
    (book_id id : Text) (e : Entry) (xs : List Entry)
    → find (has_id e.id) xs ≡ none
    → is_entry book_id id e ≡ true
    → find (is_entry book_id id) xs ≡ none
fresh_in_book book_id id e xs free h =
    none_of_weaker (is_entry book_id id) (has_id e.id) xs
      (λ x t. ground (arith, text_eq_iff e.id id, text_eq_iff x.id id, text_eq_iff x.id e.id)) free

add_entry-view :
    (e made : Entry) (s : MemoryStore) (book_id id : Text)
    → (add_entry e s).0 ≡ ok made
    → view (add_entry e s).1 book_id id
      ≡ (if is_entry book_id id made then some made else view s book_id id)
unfolding add_entry view
add_entry-view e made s book_id id h = elim (Option-cases (find (has_id e.id) s.entries)) [
  | inr (old, there) ↦ ground arith
  | inl free ↦
      let same : e ≡ made = ground arith in
      rw (← same, free)
        (find-snoc (is_entry book_id id) s.entries e (fresh_in_book book_id id e s.entries free))
]

-- What a write changes of the store besides the entries: nothing.
abbrev pub OnlyEntries : MemoryStore → MemoryStore → Type 0
OnlyEntries s after = after ≡ record s { entries = after.entries }

add_entry-OnlyEntries : (e : Entry) (s : MemoryStore) → OnlyEntries s (add_entry e s).1
unfolding add_entry
add_entry-OnlyEntries e s = elim (Bool-cases (is_some (find (has_id e.id) s.entries))) [
  | inl there ↦ rw there refl
  | inr free ↦ rw free refl
]

-- The created entry is the given one under its normalised id. It is found under its book and that
-- id; every other pair of a book and an id finds what it found before, and nothing else of the store
-- changes.
pub create_entry-view :
    (u : Uuid) (e : Entry) (s : MemoryStore) (made : Entry) (book_id id : Text)
    → (create_entry u e s).0 ≡ ok made
    → (i : Text) × (normalize_entry_id u e.id ≡ ok i)
      × (made ≡ record e { id = i })
      × (view (create_entry u e s).1 book_id id
          ≡ (if text_eq e.book_id book_id && text_eq i id then some made else view s book_id id))
      × OnlyEntries s (create_entry u e s).1
unfolding create_entry add_entry
create_entry-view u e s made book_id id h = elim (Result-cases (normalize_entry_id u e.id)) [
  | inr (x, q) ↦ ground arith
  | inl (i, q) ↦
      let added : (add_entry (record e { id = i }) s).0 ≡ ok made = rw (q, create_entry) at h in
      let same : made ≡ record e { id = i } = ground arith in
      (
        i,
        q,
        same,
        ground (arith, add_entry-view (record e { id = i }) made s book_id id),
        rw (q, create_entry) (add_entry-OnlyEntries (record e { id = i }) s),
      )
]

update_entry-OnlyEntries : (e : Entry) (s : MemoryStore) → OnlyEntries s (update_entry e s).1
unfolding update_entry
update_entry-OnlyEntries e s =
    elim (Bool-cases (is_some (find (is_entry e.book_id e.id) s.entries))) [
      | inl there ↦ rw there refl
      | inr missing ↦ rw missing refl
    ]

update_entry_found :
    (e made : Entry) (s : MemoryStore) (book_id id : Text)
    → (update_entry e s).0 ≡ ok made
    → view (update_entry e s).1 book_id id
      ≡ (if is_entry book_id id e then some e else view s book_id id)
unfolding update_entry view
update_entry_found e made s book_id id h =
    elim (Option-cases (find (is_entry e.book_id e.id) s.entries)) [
      | inl missing ↦ ground arith
      | inr (old, there) ↦ elim (Bool-cases (is_entry book_id id e)) [
        | inr other ↦
            rw (there, other)
              (find-replace_ne (is_entry book_id id) (is_entry e.book_id e.id) e s.entries other
                (λ x t. ground (arith, text_eq_iff x.book_id e.book_id, text_eq_iff x.id e.id)))
        | inl this ↦
            let here : text_eq e.book_id book_id ≡ true = ground arith in
            let id_here : text_eq e.id id ≡ true = ground arith in
            let spot = replace_first (is_entry e.book_id e.id) e s.entries in
            let self : is_entry e.book_id e.id e ≡ true =
              ground (arith, text_eq_refl e.book_id, text_eq_refl e.id) in
            let hit =
              find-replace_self (is_entry e.book_id e.id) e s.entries self (rw there refl) in
            rw (there, this)
              (subst (λ x. find (is_entry x id) spot ≡ some e)
                ((text_eq_iff e.book_id book_id).0 here)
                (subst (λ y. find (is_entry e.book_id y) spot ≡ some e)
                  ((text_eq_iff e.id id).0 id_here) hit))
      ]
    ]

-- An updated entry is answered and found in place of the one with its book and id; every other pair
-- of a book and an id finds what it found before, and nothing else of the store changes.
pub update_entry-view :
    (e made : Entry) (s : MemoryStore) (book_id id : Text)
    → (update_entry e s).0 ≡ ok made
    → (made ≡ e)
      × (view (update_entry e s).1 book_id id
          ≡ (if is_entry book_id id e then some e else view s book_id id))
      × OnlyEntries s (update_entry e s).1
unfolding update_entry
update_entry-view e made s book_id id h =
    (ground arith, update_entry_found e made s book_id id h, update_entry-OnlyEntries e s)

delete_entry_found :
    (s : MemoryStore) (b i book_id id : Text)
    → UniqueIds s
    → (delete_entry b i s).0 ≡ ok tt
    → view (delete_entry b i s).1 book_id id
      ≡ (if text_eq b book_id && text_eq i id then none else view s book_id id)
unfolding delete_entry view
delete_entry_found s b i book_id id unique h = elim (Option-cases (find (is_entry b i) s.entries)) [
  | inl missing ↦ ground arith
  | inr (old, there) ↦ elim (Bool-cases (text_eq b book_id && text_eq i id)) [
    | inr other ↦
        rw (there, other)
          (find-delete_ne (is_entry book_id id) (is_entry b i) s.entries
            (λ x t. ground (arith, text_eq_iff x.book_id b, text_eq_iff x.id i)))
    | inl this ↦
        let b_same : text_eq b book_id ≡ true = ground arith in
        let i_same : text_eq i id ≡ true = ground arith in
        let left = delete_first (is_entry b i) s.entries in
        rw (there, this)
          (subst (λ x. find (is_entry x id) left ≡ none) ((text_eq_iff b book_id).0 b_same)
            (subst (λ y. find (is_entry b y) left ≡ none) ((text_eq_iff i id).0 i_same)
              (find-delete_self (is_entry b i) s.entries (
                AtMostOnce-weaker (is_entry b i) (has_id i) s.entries
                  (λ x t. both_true (text_eq x.book_id b) (text_eq x.id i) t) (unique.once i)))))
  ]
]

delete_entry-OnlyEntries : (b i : Text) (s : MemoryStore) → OnlyEntries s (delete_entry b i s).1
unfolding delete_entry
delete_entry-OnlyEntries b i s = elim (Bool-cases (is_some (find (is_entry b i) s.entries))) [
  | inl there ↦ rw there refl
  | inr missing ↦ rw missing refl
]

-- Where ids are unique, a deleted entry is found no more; every other pair of a book and an id finds
-- what it found before, and nothing else of the store changes.
pub delete_entry-view :
    (s : MemoryStore) (b i book_id id : Text)
    → UniqueIds s
    → (delete_entry b i s).0 ≡ ok tt
    → (view (delete_entry b i s).1 book_id id
        ≡ (if text_eq b book_id && text_eq i id then none else view s book_id id))
      × OnlyEntries s (delete_entry b i s).1
delete_entry-view s b i book_id id unique h =
    (delete_entry_found s b i book_id id unique h, delete_entry-OnlyEntries b i s)

add_entry-UniqueIds : (e : Entry) (s : MemoryStore) → UniqueIds s → UniqueIds (add_entry e s).1
unfolding add_entry
add_entry-UniqueIds e s h = elim (Option-cases (find (has_id e.id) s.entries)) [
  | inr (old, there) ↦ rw there h
  | inl free ↦ rw free (record {
    once = λ id.
        AtMostOnce-snoc (has_id id) s.entries e (h.once id)
          (λ t. subst (λ x. find (has_id x) s.entries ≡ none) ((text_eq_iff e.id id).0 t) free);
  })
]

-- Creating an entry, whether it succeeds or fails, keeps the ids of entries unique.
pub create_entry-UniqueIds :
    (u : Uuid) (e : Entry) (s : MemoryStore) → UniqueIds s → UniqueIds (create_entry u e s).1
unfolding create_entry
create_entry-UniqueIds u e s h = elim (Result-cases (normalize_entry_id u e.id)) [
  | inl (i, q) ↦ rw (q, create_entry) (add_entry-UniqueIds (record e { id = i }) s h)
  | inr (x, q) ↦ rw (q, create_entry) h
]

-- Updating an entry keeps the ids of entries unique.
pub update_entry-UniqueIds :
    (e : Entry) (s : MemoryStore) → UniqueIds s → UniqueIds (update_entry e s).1
unfolding update_entry
update_entry-UniqueIds e s h =
    elim (Bool-cases (is_some (find (is_entry e.book_id e.id) s.entries))) [
      | inr missing ↦ rw missing h
      | inl there ↦ rw there (record {
        once = λ id.
            AtMostOnce-replace (has_id id) (is_entry e.book_id e.id) e s.entries
              (λ x t.
                ap (λ y. text_eq y id)
                  ((text_eq_iff x.id e.id).0
                    (both_true (text_eq x.book_id e.book_id) (text_eq x.id e.id) t)))
              (h.once id);
      })
    ]

-- Deleting an entry keeps the ids of entries unique.
pub delete_entry-UniqueIds :
    (b i : Text) (s : MemoryStore) → UniqueIds s → UniqueIds (delete_entry b i s).1
unfolding delete_entry
delete_entry-UniqueIds b i s h = elim (Bool-cases (is_some (find (is_entry b i) s.entries))) [
  | inr missing ↦ rw missing h
  | inl there ↦
      rw there
        (record { once = λ id. AtMostOnce-delete (has_id id) (is_entry b i) s.entries (h.once id) })
]
