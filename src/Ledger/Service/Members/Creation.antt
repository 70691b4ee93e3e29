-- ===== src/Ledger/Service/Members/Creation.antt =====
-- `CreateBook` keeps the invariant.
use accounting.Ledger.Model.{Book, BookMember, Category, Time, is_owner}
use accounting.Ledger.Seed.{default_book_categories}
use accounting.Ledger.Service.Books.{CreateBookRequest, check_book_fields}
use accounting.Ledger.Service.Members.{book_list_item, create_book_request, new_book, new_owner}
use accounting.Ledger.Store.{MemoryStore, book_members_of, put_member}
use accounting.Ledger.Store.Books.{check_categories, create_book, with_book}
use accounting.Ledger.Store.Invariant.{
  IsValid, IsValid-change, IsValid-rest, Keeps, owner_listed, placed-insert,
}
use accounting.Ledger.Store.Keys.{book_key, user_key}
use accounting.Prelude.{
  Bool, List, [], arith, false, if◌then◌else◌, is_some, not, refl, some, subst, true, ◌++◌, ◌≡◌,
}
use accounting.Prelude.Dict.{insert, insert-WellKeyed, lookup, lookup-insert}
use accounting.Prelude.Result.{
  Result, and_then, check, err, failure, invalid_input, lift, ok, pure, ◌>>=◌, ◌>>◌,
}
use accounting.Prelude.Text.{Text, is_empty, text_eq, text_eq_iff}

-- Whatever a call answers, mapping the answer keeps what the call keeps.

pub Keeps-answer :
    {A B : Type 0} (s : MemoryStore) (f : A → B) (x : Result A × MemoryStore)
    → Keeps s x
    → Keeps s (and_then x.0 (λ a. pure (f a)) x.1)
Keeps-answer s f (ok a, s') h = h
Keeps-answer s f (err e, s') h = h

-- The new book with its owner.
pub with_book-IsValid :
    (b : Book) (m : BookMember) (cs : List Category) (s : MemoryStore)
    → IsValid s
    → b.id ≡ m.book_id
    → m.user_id ≡ b.owner_user_id
    → is_owner m.role ≡ true
    → IsValid (with_book b m cs s)
unfolding put_member owner_listed
with_book-IsValid b m cs s v same e h =
    let d = book_members_of m.book_id s.members in
    let mine : owner_listed b (insert m.user_id m d) ≡ true =
      ground (
        arith,
        lookup-insert m.user_id b.owner_user_id m d,
        text_eq_iff m.user_id b.owner_user_id,
      ) in
    IsValid-rest _ s.entries (s.categories ++ cs) s.groups s.accounts s.rates (
      IsValid-change s v m.book_id (insert m.user_id m d) b (insert b.id b s.books)
        (insert-WellKeyed book_key b s.books v.books_keyed)
        (λ c.
          subst
            (λ (x : Text).
              lookup c (insert b.id b s.books) ≡ (if text_eq x c then some b else lookup c s.books))
            same (lookup-insert b.id c b s.books))
        (insert-WellKeyed user_key m d (v.members_keyed m.book_id))
        (placed-insert m.book_id m d refl (v.placed m.book_id)) mine)

create_book-Keeps :
    (b : Book) (m : BookMember) (cs : List Category) (s : MemoryStore)
    → IsValid s
    → m.user_id ≡ b.owner_user_id
    → is_owner m.role ≡ true
    → Keeps s (create_book b m cs s)
unfolding create_book
create_book-Keeps b m cs s v e h =
    go (is_some (lookup b.id s.books)) (text_eq b.id m.book_id)
      (is_some (lookup m.user_id (book_members_of b.id s.members)))
      (check_categories b.id [] s.categories cs) ((text_eq_iff b.id m.book_id).0)
  where
    go :
        (known same there : Bool) (checked : Result (Unit {0}))
        → (same ≡ true → b.id ≡ m.book_id)
        → Keeps {A = Book × BookMember} s (
            if known
            then (err failure, s)
            else if not same
            then (err failure, s)
            else if there
            then (err failure, s)
            else elim checked [ err e ↦ (err e, s) | ok _ ↦ (ok (b, m), with_book b m cs s) ])
    go true same there checked f = refl
    go false false there checked f = refl
    go false true true checked f = refl
    go false true false (err x) f = refl
    go false true false (ok x) f = with_book-IsValid b m cs s v (f refl) e h

-- Creating a book either fails and leaves the store as it was, or succeeds with its creator as the
-- primary owner and an owner among its members.
pub create_book_request-Keeps :
    (r : CreateBookRequest) (id : Text) (id_for : Text → Text) (now : Time) (s : MemoryStore)
    → IsValid s
    → Keeps s (create_book_request r id id_for now s)
unfolding create_book_request
create_book_request-Keeps r id id_for now s v =
    go (is_empty r.actor.user_id) (check_book_fields r.name r.reporting_currency)
  where
    made : Keeps s (
        create_book
          (new_book r id now)
          (new_owner r id now)
          (default_book_categories id now id_for)
          s)
    made = create_book-Keeps _ _ (default_book_categories id now id_for) s v refl refl

    go :
        (nobody : Bool) (fields : Result (Unit {0}))
        → Keeps s (
            (check nobody invalid_input
                >> (lift fields
                    >> (create_book
                          (new_book r id now)
                          (new_owner r id now)
                          (default_book_categories id now id_for)
                        >>= λ c. pure (book_list_item c.0 c.1.role))))
              s)
    go true fields = refl
    go false (err e) = refl
    go false (ok _) = Keeps-answer s _ _ made
