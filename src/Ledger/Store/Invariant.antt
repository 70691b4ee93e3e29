-- ===== src/Ledger/Store/Invariant.antt =====
-- The invariant of books and memberships.
use accounting.Ledger.Model.{
  Account, AccountGroup, Book, BookMember, Category, Entry, ExchangeRate, is_owner,
}
use accounting.Ledger.Store.{MemoryStore, book_members_of}
use accounting.Ledger.Store.Keys.{book_key, members-insert, user_key}
use accounting.Prelude.{
  Bool, Holds, List, arith, false, if◌then◌else◌, none, refl, some, subst, true, ◌≡◌,
}
use accounting.Prelude.Dict.{
  Dict, WellKeyed, erase, insert, insert-WellKeyed, lookup, lookup-erase, lookup-insert,
}
use accounting.Prelude.Result.{Result, err, ok}
use accounting.Prelude.Text.{Text, text_eq, text_eq_iff}

-- The book's `OwnerUserID` is a member with the owner role.
unfoldable pub owner_listed : Book → Dict BookMember → Bool
owner_listed b d = elim (lookup b.owner_user_id d) [ none ↦ false | some m ↦ is_owner m.role ]

-- Books and memberships stand under their own ids, and every book's primary owner is one of its
-- owners.
pub record IsValid (s : MemoryStore) : Type 0 where
  pub books_keyed : WellKeyed book_key s.books
  pub members_keyed : (b : Text) → WellKeyed user_key (book_members_of b s.members)
  pub placed : (b u : Text) → Holds (λ m. m.book_id ≡ b) (lookup u (book_members_of b s.members))
  pub owned :
      (b : Text)
      → Holds (λ k. owner_listed k (book_members_of b s.members) ≡ true) (lookup b s.books)

-- A call that failed has left the store as it was; one that succeeded has kept the invariant.
abbrev pub Keeps : {A : Type 0} → MemoryStore → Result A × MemoryStore → Type 0
Keeps s (ok _, s') = IsValid s'
Keeps s (err _, s') = s' ≡ s

-- Replacing one book's map of members keeps the keys.
module _ (s : MemoryStore) (v : IsValid s) (b : Text) (e : Dict BookMember) where
  pub keyed_after :
      WellKeyed user_key e
      → (c : Text) → WellKeyed user_key (book_members_of c (insert b e s.members))
  keyed_after h c = rw (members-insert s.members b c e) (pick (text_eq b c))
    where
      pick : (t : Bool) → WellKeyed user_key (if t then e else book_members_of c s.members)
      pick true = h
      pick false = v.members_keyed c

  pub placed_after :
      ((u : Text) → Holds (λ m. m.book_id ≡ b) (lookup u e))
      → (c u : Text)
      → Holds (λ m. m.book_id ≡ c) (lookup u (book_members_of c (insert b e s.members)))
  placed_after h c u =
      rw (members-insert s.members b c e) (pick (text_eq b c) ((text_eq_iff b c).0))
    where
      pick :
          (t : Bool)
          → (t ≡ true → b ≡ c)
          → Holds (λ m. m.book_id ≡ c) (lookup u (if t then e else book_members_of c s.members))
      pick true same = subst (λ x. Holds (λ m. m.book_id ≡ x) (lookup u e)) (same refl) (h u)
      pick false same = v.placed c u

  -- The other books keep their owners when one book and its members change together.
  pub owned_after :
      (k : Book) (books : Dict Book)
      → ((c : Text) → lookup c books ≡ (if text_eq b c then some k else lookup c s.books))
      → owner_listed k e ≡ true
      → (c : Text)
      → Holds
          (λ x. owner_listed x (book_members_of c (insert b e s.members)) ≡ true)
          (lookup c books)
  owned_after k books law h c = rw (members-insert s.members b c e, law c) (pick (text_eq b c))
    where
      pick :
          (t : Bool)
          → Holds
              (λ x. owner_listed x (if t then e else book_members_of c s.members) ≡ true)
              (if t then some k else lookup c s.books)
      pick true = h
      pick false = v.owned c

  -- The invariant after one book (perhaps as it was) and its members have changed together.
  pub IsValid-change :
      (k : Book) (books : Dict Book)
      → WellKeyed book_key books
      → ((c : Text) → lookup c books ≡ (if text_eq b c then some k else lookup c s.books))
      → WellKeyed user_key e
      → ((u : Text) → Holds (λ m. m.book_id ≡ b) (lookup u e))
      → owner_listed k e ≡ true
      → IsValid (record s { books = books; members = insert b e s.members })
  IsValid-change k books bk law ek ep h = record {
    books_keyed = bk;
    members_keyed = keyed_after ek;
    placed = placed_after ep;
    owned = owned_after k books law h;
  }

-- A dictionary reads as if its own value were written once more.
pub lookup_again :
    (b : Text) (k : Book) (d : Dict Book)
    → lookup b d ≡ some k
    → (c : Text) → lookup c d ≡ (if text_eq b c then some k else lookup c d)
lookup_again b k d e c = ground (arith, text_eq_iff b c)

-- The placement of one more member.
pub placed-insert :
    (b : Text) (m : BookMember) (d : Dict BookMember)
    → m.book_id ≡ b
    → ((u : Text) → Holds (λ x. x.book_id ≡ b) (lookup u d))
    → (u : Text) → Holds (λ x. x.book_id ≡ b) (lookup u (insert m.user_id m d))
placed-insert b m d e h u = rw (lookup-insert m.user_id u m d) (pick (text_eq m.user_id u))
  where
    pick : (t : Bool) → Holds (λ x. x.book_id ≡ b) (if t then some m else lookup u d)
    pick true = e
    pick false = h u

pub placed-erase :
    (b k : Text) (d : Dict BookMember)
    → WellKeyed user_key d
    → ((u : Text) → Holds (λ x. x.book_id ≡ b) (lookup u d))
    → (u : Text) → Holds (λ x. x.book_id ≡ b) (lookup u (erase k d))
placed-erase b k d w h u = rw (lookup-erase user_key k u d w) (pick (text_eq k u))
  where
    pick : (t : Bool) → Holds (λ x. x.book_id ≡ b) (if t then none else lookup u d)
    pick true = tt
    pick false = h u

-- The other parts of the store do not matter.
pub IsValid-rest :
    (s : MemoryStore) (es : List Entry) (cs : List Category) (gs : List AccountGroup)
    (as_ : List Account) (rs : List ExchangeRate)
    → IsValid s
    → IsValid (record s { entries = es; categories = cs; groups = gs; accounts = as_; rates = rs })
IsValid-rest s es cs gs as_ rs v = record {
  books_keyed = v.books_keyed;
  members_keyed = v.members_keyed;
  placed = v.placed;
  owned = v.owned;
}

-- A book's settings change, or its primary owner to another owner.
pub IsValid-book :
    (s : MemoryStore) (k : Book)
    → IsValid s
    → owner_listed k (book_members_of k.id s.members) ≡ true
    → IsValid (record s { books = insert k.id k s.books })
IsValid-book s k v h = record {
  books_keyed = insert-WellKeyed book_key k s.books v.books_keyed;
  members_keyed = v.members_keyed;
  placed = v.placed;
  owned =
      λ c. rw (lookup-insert k.id c k s.books) (pick c (text_eq k.id c) ((text_eq_iff k.id c).0));
}
  where
    pick :
        (c : Text) (t : Bool)
        → (t ≡ true → k.id ≡ c)
        → Holds
            (λ x. owner_listed x (book_members_of c s.members) ≡ true)
            (if t then some k else lookup c s.books)
    pick c true same =
        subst (λ x. owner_listed k (book_members_of x s.members) ≡ true) (same refl) h
    pick c false same = v.owned c
