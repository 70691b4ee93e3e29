-- ===== src/Ledger/Service/Members/Settings.antt =====
-- `UpdateBook` and `AddBookMember` keep the invariant.
use accounting.Ledger.Model.{Book, BookMember, Time}
use accounting.Ledger.Service.{authorize_book_member, authorize_manager}
use accounting.Ledger.Service.Books.{
  AddBookMemberRequest, UpdateBookRequest, book_to_update, may_add_member,
}
use accounting.Ledger.Service.Members.{
  add_book_member, add_or_answer, book_list_item, new_member, patched_book, update_book_request,
}
use accounting.Ledger.Service.Members.Creation.{Keeps-answer}
use accounting.Ledger.Store.{MemoryStore, book_members_of, put_member}
use accounting.Ledger.Store.Books.{book, create_book_member, member_of, update_book}
use accounting.Ledger.Store.Invariant.{
  IsValid, IsValid-book, IsValid-change, Keeps, lookup_again, owner_listed, placed-insert,
}
use accounting.Ledger.Store.Keys.{book_key, user_key}
use accounting.Prelude.{
  Option-cases, arith, inl, inr, is_some, none, refl, some, subst, sym, true, ◌≡◌,
}
use accounting.Prelude.Dict.{Dict, insert, insert-WellKeyed, lookup, lookup-insert, lookup_key}
use accounting.Prelude.Result.{Result, and_then, err, ok, pure, ◌>>=◌}
use accounting.Prelude.Text.{Text, text_eq_iff, trim_space}

book_to_update-facts :
    (r : UpdateBookRequest) (s : MemoryStore) (a : BookMember × Book)
    → book_to_update r s ≡ ok a
    → lookup r.book_id s.books ≡ some a.1
unfolding book_to_update authorize_manager authorize_book_member book
book_to_update-facts r s a e = ground arith

settings-Keeps :
    (r : UpdateBookRequest) (now : Time) (s : MemoryStore) (b : Book)
    → IsValid s
    → lookup r.book_id s.books ≡ some b
    → Keeps s (update_book (patched_book r now b) s)
unfolding update_book owner_listed
settings-Keeps r now s b v e =
    let same = lookup_key book_key r.book_id b s.books v.books_keyed e in
    let known : is_some (lookup b.id s.books) ≡ true = ground (arith, same) in
    let mine : owner_listed b (book_members_of r.book_id s.members) ≡ true =
      rw e at (v.owned r.book_id) in
    rw known (
      IsValid-book s (patched_book r now b) v
        (subst (λ (x : Text). owner_listed b (book_members_of x s.members) ≡ true) (sym same) mine))

-- Changing a book's settings either fails and leaves the store as it was, or keeps the invariant.
pub update_book_request-Keeps :
    (r : UpdateBookRequest) (now : Time) (s : MemoryStore)
    → IsValid s
    → Keeps s (update_book_request r now s)
unfolding update_book_request
update_book_request-Keeps r now s v = go (book_to_update r s) (book_to_update-facts r s)
  where
    go :
        (x : Result (BookMember × Book))
        → ((a : BookMember × Book) → x ≡ ok a → lookup r.book_id s.books ≡ some a.1)
        → Keeps s (
            and_then x
              (λ a. update_book (patched_book r now a.1) >>= λ b. pure (book_list_item b a.0.role))
              s)
    go (err e) f = refl
    go (ok a) f = Keeps-answer s _ _ (settings-Keeps r now s a.1 v (f a refl))

-- A member who was not there before leaves the owner as it was.
still :
    (m : BookMember) (k : Book) (d : Dict BookMember)
    → lookup m.user_id d ≡ none
    → owner_listed k d ≡ true
    → owner_listed k (insert m.user_id m d) ≡ true
unfolding owner_listed
still m k d fresh h =
    ground
      (arith, lookup-insert m.user_id k.owner_user_id m d, text_eq_iff m.user_id k.owner_user_id)

create_book_member-Keeps :
    (m : BookMember) (s : MemoryStore) → IsValid s → Keeps s (create_book_member m s)
unfolding create_book_member put_member
create_book_member-Keeps m s v = elim (Option-cases (lookup m.book_id s.books)) [
  | inl nowhere ↦ rw nowhere refl
  | inr (k, e) ↦ elim (Option-cases (lookup m.user_id (book_members_of m.book_id s.members))) [
    | inr (old, there) ↦ rw (e, there) refl
    | inl fresh ↦
        rw (e, fresh)
          (IsValid-change s v m.book_id (insert m.user_id m (book_members_of m.book_id s.members)) k
            s.books v.books_keyed (lookup_again m.book_id k s.books e)
            (insert-WellKeyed user_key m _ (v.members_keyed m.book_id))
            (placed-insert m.book_id m _ refl (v.placed m.book_id))
            (still m k (book_members_of m.book_id s.members) fresh (rw e at (v.owned m.book_id))))
  ]
]

-- Adding a member either fails and leaves the store as it was, or keeps the invariant.
pub add_book_member-Keeps :
    (r : AddBookMemberRequest) (now : Time) (s : MemoryStore)
    → IsValid s
    → Keeps s (add_book_member r now s)
unfolding add_book_member add_or_answer
add_book_member-Keeps r now s v = go (may_add_member r s)
  where
    answered : (found : Result BookMember) → Keeps s (add_or_answer r now found s)
    answered (ok old) = v
    answered (err _) = create_book_member-Keeps (new_member r now) s v

    go :
        (x : Result (Unit {0}))
        → Keeps s (
            and_then x
              (λ _ s'. add_or_answer r now (member_of r.book_id (trim_space r.user_id) s') s')
              s)
    go (err e) = refl
    go (ok _) = answered (member_of r.book_id (trim_space r.user_id) s)
