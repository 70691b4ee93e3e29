-- ===== src/Ledger/Service/Members/History.antt =====
-- Any sequence of requests on books and memberships, served one after another.
use accounting.Ledger.Model.{Book, BookMember, Role, Time, is_owner, owner}
use accounting.Ledger.Service.Books.{
  AddBookMemberRequest, CreateBookRequest, RemoveBookMemberRequest, UpdateBookMemberRoleRequest,
  UpdateBookRequest,
}
use accounting.Ledger.Service.Members.{
  add_book_member, create_book_request, remove_book_member, update_book_member_role,
  update_book_request,
}
use accounting.Ledger.Service.Members.Change.{update_book_member_role-Keeps}
use accounting.Ledger.Service.Members.Creation.{create_book_request-Keeps}
use accounting.Ledger.Service.Members.Removal.{remove_book_member-Keeps}
use accounting.Ledger.Service.Members.Settings.{add_book_member-Keeps, update_book_request-Keeps}
use accounting.Ledger.Store.{MemoryStore, book_members_of}
use accounting.Ledger.Store.Books.{member_of}
use accounting.Ledger.Store.Invariant.{IsValid, Keeps, owner_listed}
use accounting.Prelude.{
  List, Option-cases, [], arith, inl, inr, refl, some, subst, sym, true, ◌∷◌, ◌≡◌,
}
use accounting.Prelude.Dict.{lookup}
use accounting.Prelude.Result.{Result, err, ok}
use accounting.Prelude.Text.{Text}

pub data Request : Type 0 where
  create_a_book : CreateBookRequest → Text → (Text → Text) → Request
  change_settings : UpdateBookRequest → Request
  add_member : AddBookMemberRequest → Request
  change_member_role : UpdateBookMemberRoleRequest → Request
  remove_member : RemoveBookMemberRequest → Request

-- The store after a request at a time, whether it succeeded or not.
unfoldable pub serve_one : Request → Time → MemoryStore → MemoryStore
serve_one (Request.create_a_book r id id_for) now s = (create_book_request r id id_for now s).1
serve_one (Request.change_settings r) now s = (update_book_request r now s).1
serve_one (Request.add_member r) now s = (add_book_member r now s).1
serve_one (Request.change_member_role r) now s = (update_book_member_role r now s).1
serve_one (Request.remove_member r) now s = (remove_book_member r now s).1

unfoldable pub serve : List (Request × Time) → MemoryStore → MemoryStore
unfolding serve_one
serve [] s = s
serve ((r, now) ∷ rs) s = serve rs (serve_one r now s)

abbrev pub empty_store : MemoryStore
empty_store = record {
  books = [];
  members = [];
  entries = [];
  categories = [];
  groups = [];
  accounts = [];
  rates = [];
}

pub empty-IsValid : IsValid empty_store
unfolding lookup
empty-IsValid = record {
  books_keyed = tt;
  members_keyed = λ b. tt;
  placed = λ b u. tt;
  owned = λ b. tt;
}

IsValid-after :
    {A : Type 0} (s : MemoryStore) (x : Result A × MemoryStore)
    → IsValid s
    → Keeps s x
    → IsValid x.1
IsValid-after s (ok a, s') v h = h
IsValid-after s (err e, s') v h = subst IsValid (sym h) v

serve_one-IsValid :
    (r : Request) (now : Time) (s : MemoryStore) → IsValid s → IsValid (serve_one r now s)
unfolding serve_one
serve_one-IsValid (Request.create_a_book r id id_for) now s v =
    IsValid-after s _ v (create_book_request-Keeps r id id_for now s v)
serve_one-IsValid (Request.change_settings r) now s v =
    IsValid-after s _ v (update_book_request-Keeps r now s v)
serve_one-IsValid (Request.add_member r) now s v =
    IsValid-after s _ v (add_book_member-Keeps r now s v)
serve_one-IsValid (Request.change_member_role r) now s v =
    IsValid-after s _ v (update_book_member_role-Keeps r now s v)
serve_one-IsValid (Request.remove_member r) now s v =
    IsValid-after s _ v (remove_book_member-Keeps r now s v)

pub serve-IsValid :
    (rs : List (Request × Time)) (s : MemoryStore) → IsValid s → IsValid (serve rs s)
unfolding serve
serve-IsValid [] s v = v
serve-IsValid ((r, now) ∷ rs) s v = serve-IsValid rs _ (serve_one-IsValid r now s v)

role-owner : (x : Role) → is_owner x ≡ true → x ≡ owner
role-owner owner h = refl
role-owner _ h = absurd (cc)

owner_member :
    (s : MemoryStore) (b : Text) (k : Book)
    → owner_listed k (book_members_of b s.members) ≡ true
    → (m : BookMember) × (member_of b k.owner_user_id s ≡ ok m) × (m.role ≡ owner)
unfolding member_of owner_listed lookup
owner_member s b k h = elim (Option-cases (lookup b s.members)) [
  | inl e ↦ absurd (ground arith)
  | inr (d, e) ↦ elim (Option-cases (lookup k.owner_user_id d)) [
    | inl f ↦ absurd (ground arith)
    | inr (m, f) ↦ (m, ground arith, role-owner m.role (ground arith))
  ]
]

-- After any sequence of requests, served on a store that satisfies the invariant, a book that is
-- found has a member under its `OwnerUserID` whose role is owner.
pub owner_always :
    (rs : List (Request × Time)) (s : MemoryStore) (b : Text) (k : Book)
    → IsValid s
    → lookup b (serve rs s).books ≡ some k
    → (m : BookMember) × (member_of b k.owner_user_id (serve rs s) ≡ ok m) × (m.role ≡ owner)
owner_always rs s b k v e = owner_member (serve rs s) b k (rw e at ((serve-IsValid rs s v).owned b))
