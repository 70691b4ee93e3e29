-- ===== src/Ledger/Service/Members/Removal.antt =====
-- `RemoveBookMember` keeps every book's primary owner one of its owners.
use accounting.Ledger.Model.{Book, BookMember, Time, is_owner}
use accounting.Ledger.Service.{authorize_book_member, authorize_manager}
use accounting.Ledger.Service.Books.{
  RemoveBookMemberRequest, Target, first_other_owner, owner_count, removal_target,
}
use accounting.Ledger.Service.Members.{
  put_primary_owner, remove_book_member, remove_target, replace_owner,
}
use accounting.Ledger.Service.Members.Roles.{replacement, replacement_exists}
use accounting.Ledger.Store.{MemoryStore, book_members_of}
use accounting.Ledger.Store.Books.{book, book_members, by_user_id, delete_book_member, update_book}
use accounting.Ledger.Store.Invariant.{
  IsValid, IsValid-change, Keeps, lookup_again, owner_listed, placed-erase,
}
use accounting.Ledger.Store.Keys.{book_key, lookup_of_find, user_key}
use accounting.Prelude.{
  Bool-cases, Option-cases, arith, false, find, if◌then◌else◌, inl, inr, is_some, leb, none, refl,
  some, sort_by, subst, true, ◌&&◌, ◌≡◌,
}
use accounting.Prelude.Dict.{
  Dict, WellKeyed, erase, erase-WellKeyed, has_key, insert, insert-WellKeyed, lookup, lookup-erase,
  lookup-insert, lookup_key, values,
}
use accounting.Prelude.Result.{Result, and_then, err, ok}
use accounting.Prelude.Text.{Text, text_eq, text_eq_iff, trim_space}
-- What the reads and checks of a removal establish.
use accounting.Ledger.Model.{Book, BookMember, Time, is_owner}
use accounting.Ledger.Service.{authorize_book_member, authorize_manager}
use accounting.Ledger.Service.Books.{
  RemoveBookMemberRequest, Target, first_other_owner, owner_count, removal_target,
}
use accounting.Ledger.Service.Members.{
  put_primary_owner, remove_book_member, remove_target, replace_owner,
}
use accounting.Ledger.Service.Members.Roles.{replacement, replacement_exists}
use accounting.Ledger.Store.{MemoryStore, book_members_of}
use accounting.Ledger.Store.Books.{book, book_members, by_user_id, delete_book_member, update_book}
use accounting.Ledger.Store.Invariant.{
  IsValid, IsValid-change, Keeps, lookup_again, owner_listed, placed-erase,
}
use accounting.Ledger.Store.Keys.{book_key, lookup_of_find, user_key}
use accounting.Prelude.{
  Bool-cases, Option-cases, arith, false, find, if◌then◌else◌, inl, inr, is_some, leb, none, refl,
  some, sort_by, subst, true, ◌&&◌, ◌≡◌,
}
use accounting.Prelude.Dict.{
  Dict, WellKeyed, erase, erase-WellKeyed, has_key, insert, insert-WellKeyed, lookup, lookup-erase,
  lookup-insert, lookup_key, values,
}
use accounting.Prelude.Result.{Result, and_then, err, ok}
use accounting.Prelude.Text.{Text, text_eq, text_eq_iff, trim_space}

abbrev RemovalFacts : RemoveBookMemberRequest → MemoryStore → Target → Type 0
RemovalFacts r s t =
    (lookup r.book_id s.books ≡ some t.book)
    × (is_some (lookup r.book_id s.members) ≡ true)
    × (t.members ≡ sort_by by_user_id (values (book_members_of r.book_id s.members)))
    × (find (has_key user_key (trim_space r.user_id)) t.members ≡ some t.target)
    × ((is_owner t.target.role && leb (owner_count t.members) 1) ≡ false)

removal_target-facts :
    (r : RemoveBookMemberRequest) (s : MemoryStore) (t : Target)
    → removal_target r s ≡ ok t
    → RemovalFacts r s t
unfolding removal_target authorize_manager authorize_book_member book book_members
removal_target-facts r s t e = ground arith

module _ (r : RemoveBookMemberRequest) (now : Time) (s : MemoryStore) (v : IsValid s) (t : Target)
    (facts : RemovalFacts r s t) where
  abbrev members_before : Dict BookMember
  members_before = book_members_of r.book_id s.members

  abbrev members_after : Dict BookMember
  members_after = erase t.target.user_id members_before

  target_listed : lookup t.target.user_id members_before ≡ some t.target
  target_listed = lookup_of_find _ (v.members_keyed r.book_id) _ t.target (rw facts.2 at facts.3)

  book_listed : owner_listed t.book members_before ≡ true
  book_listed = rw facts.0 at (v.owned r.book_id)

  book_id : t.book.id ≡ r.book_id
  book_id = lookup_key book_key r.book_id t.book s.books v.books_keyed facts.0

  abbrev written : MemoryStore
  written = record s { members = insert r.book_id members_after s.members }

  delete_writes : delete_book_member r.book_id t.target.user_id s ≡ (ok tt, written)
  unfolding delete_book_member
  delete_writes = ground (arith, target_listed)

  after :
      (k : Text)
      → lookup k members_after
        ≡ (if text_eq t.target.user_id k then none else lookup k members_before)
  after k = lookup-erase user_key t.target.user_id k members_before (v.members_keyed r.book_id)

  -- The book with another owner of its members, or as it was.
  IsValid-with :
      (k : Book) (books : Dict Book)
      → WellKeyed book_key books
      → ((c : Text) → lookup c books ≡ (if text_eq r.book_id c then some k else lookup c s.books))
      → owner_listed k members_after ≡ true
      → IsValid (record written { books = books })
  IsValid-with k books bk law h =
      IsValid-change s v r.book_id members_after k books bk law
        (erase-WellKeyed user_key _ members_before (v.members_keyed r.book_id))
        (placed-erase r.book_id _ members_before (v.members_keyed r.book_id) (v.placed r.book_id)) h

  replaced :
      (u : Text)
      → owner_listed (record t.book { owner_user_id = u; updated_at = now }) members_after ≡ true
      → Keeps s (put_primary_owner t.book (some u) now written)
  unfolding put_primary_owner update_book
  replaced u h =
      let k = record t.book { owner_user_id = u; updated_at = now } in
      let known : is_some (lookup t.book.id s.books) ≡ true = ground (arith, book_id) in
      rw known (
        IsValid-with k (insert t.book.id k s.books)
          (insert-WellKeyed book_key k s.books v.books_keyed)
          (λ c.
            subst
              (λ (x : Text).
                lookup c (insert t.book.id k s.books)
                ≡ (if text_eq x c then some k else lookup c s.books))
              book_id (lookup-insert t.book.id c k s.books))
          h)

  nobody_left :
      (is_owner t.target.role && text_eq t.book.owner_user_id t.target.user_id) ≡ true
      → first_other_owner t.members t.target.user_id ≡ none
      → ⊥
  nobody_left leaves nobody = ground (
    arith,
    replacement_exists t members_before (v.members_keyed r.book_id) facts.2 t.target.user_id,
  )

  -- The primary owner was not the member who left.
  still_listed :
      (is_owner t.target.role && text_eq t.book.owner_user_id t.target.user_id) ≡ false
      → owner_listed t.book members_after ≡ true
  unfolding owner_listed
  still_listed stays = ground (
    arith,
    book_listed,
    target_listed,
    after t.book.owner_user_id,
    text_eq_iff t.book.owner_user_id t.target.user_id,
    text_eq_iff t.target.user_id t.book.owner_user_id,
  )

  next_listed :
      (m : BookMember)
      → first_other_owner t.members t.target.user_id ≡ some m
      → owner_listed (record t.book { owner_user_id = m.user_id; updated_at = now }) members_after
        ≡ true
  unfolding owner_listed
  next_listed m e = ground (
    arith,
    replacement t members_before (v.members_keyed r.book_id) facts.2 t.target.user_id m e,
    after m.user_id,
  )

  replace_owner-Keeps : Keeps s (replace_owner t now written)
  unfolding replace_owner
  replace_owner-Keeps =
      elim (Bool-cases (is_owner t.target.role && text_eq t.book.owner_user_id t.target.user_id)) [
        | inr stays ↦ rw stays (
            IsValid-with t.book s.books v.books_keyed
              (lookup_again r.book_id t.book s.books facts.0) (still_listed stays))
        | inl leaves ↦ elim (Option-cases (first_other_owner t.members t.target.user_id)) [
          | inl nobody ↦ absurd (nobody_left leaves nobody)
          | inr (m, e) ↦ rw (leaves, e) (replaced m.user_id (next_listed m e))
        ]
      ]

  remove_target-Keeps : Keeps s (remove_target r.book_id t now s)
  unfolding remove_target
  remove_target-Keeps = rw delete_writes replace_owner-Keeps

  replaced_ok : (u : Text) → (put_primary_owner t.book (some u) now written).0 ≡ ok tt
  unfolding put_primary_owner update_book
  replaced_ok u =
      let known : is_some (lookup t.book.id s.books) ≡ true = ground (arith, book_id) in
      rw known refl

  replace_owner-answers : (replace_owner t now written).0 ≡ ok tt
  unfolding replace_owner
  replace_owner-answers =
      elim (Bool-cases (is_owner t.target.role && text_eq t.book.owner_user_id t.target.user_id)) [
        | inr stays ↦ rw stays refl
        | inl leaves ↦ elim (Option-cases (first_other_owner t.members t.target.user_id)) [
          | inl nobody ↦ absurd (nobody_left leaves nobody)
          | inr (m, e) ↦ rw (leaves, e) (replaced_ok m.user_id)
        ]
      ]

  remove_target-answers : (remove_target r.book_id t now s).0 ≡ ok tt
  unfolding remove_target
  remove_target-answers = rw delete_writes replace_owner-answers

-- A removal either fails and leaves the store as it was, or succeeds, and then every book still has
-- a primary owner who is a member of it with the owner role.
pub remove_book_member-Keeps :
    (r : RemoveBookMemberRequest) (now : Time) (s : MemoryStore)
    → IsValid s
    → Keeps s (remove_book_member r now s)
unfolding remove_book_member
remove_book_member-Keeps r now s v = go (removal_target r s) (removal_target-facts r s)
  where
    go :
        (x : Result Target)
        → ((t : Target) → x ≡ ok t → RemovalFacts r s t)
        → Keeps s (and_then x (λ t. remove_target r.book_id t now) s)
    go (err e) f = refl
    go (ok t) f = remove_target-Keeps r now s v t (f t refl)

-- A removal fails only with an error of its checks, which come before the first write.
pub remove_book_member_lem :
    (r : RemoveBookMemberRequest) (now : Time) (s : MemoryStore)
    → IsValid s
    → (remove_book_member r now s).0 ≡ (elim (removal_target r s) [ ok _ ↦ ok tt | err e ↦ err e ])
unfolding remove_book_member
remove_book_member_lem r now s v = go (removal_target r s) (removal_target-facts r s)
  where
    go :
        (x : Result Target)
        → ((t : Target) → x ≡ ok t → RemovalFacts r s t)
        → (and_then x (λ t. remove_target r.book_id t now) s).0
          ≡ (elim x [ ok _ ↦ ok tt | err e ↦ err e ])
    go (err e) f = refl
    go (ok t) f = remove_target-answers r now s v t (f t refl)
