-- ===== src/Tests/Members.antt =====
-- A book with two owners and a member.
use accounting.Auth.Model.{Time}
use accounting.Ledger.Model.{Actor, Book, BookMember, administrator, member, owner, viewer}
use accounting.Ledger.Service.{authorize_book_member, authorize_manager}
use accounting.Ledger.Service.Books.{
  AddBookMemberRequest, CreateBookRequest, RemoveBookMemberRequest, UpdateBookMemberRoleRequest,
  UpdateBookRequest, first_other_owner, is_assignable_new_member_role, is_supported_member_role,
  may_add_member, next_primary_owner, owner_count, removal_target, role_target,
}
use accounting.Ledger.Service.Members.{
  add_book_member, add_or_answer, change_role, new_book, new_owner, put_primary_owner,
  reconcile_primary_owner, remove_book_member, update_book_member_role,
}
use accounting.Ledger.Service.Members.Access.{may_ask, refused_unchanged}
use accounting.Ledger.Service.Members.Change.{role_answer, update_book_member_role_lem}
use accounting.Ledger.Service.Members.Creation.{with_book-IsValid}
use accounting.Ledger.Service.Members.History.{
  Request, empty-IsValid, empty_store, owner_always, serve, serve-IsValid, serve_one,
}
use accounting.Ledger.Service.Members.Removal.{remove_book_member_lem}
use accounting.Ledger.Store.{MemoryStore, put_member}
use accounting.Ledger.Store.Books.{
  book, book_members, create_book_member, member_of, update_book, update_book_member, with_book,
}
use accounting.Ledger.Store.Invariant.{IsValid}
use accounting.Prelude.{
  List, [], count, false, find, insert_by, none, refl, some, sort_by, ◌∷◌, ◌≡◌,
}
use accounting.Prelude.Dict.{insert, lookup, values}
use accounting.Prelude.Result.{err, ok}
use accounting.Prelude.Text.{text, text_eq, text_leb, trim_left, trim_right, trim_space}

abbrev alice : Actor
alice = record { user_id = text "alice" }

abbrev new_home : CreateBookRequest
new_home = record { actor = alice; name = text " Home "; reporting_currency = text "usd" }

abbrev add_bob : AddBookMemberRequest
add_bob = record {
  actor = alice;
  book_id = text "home";
  user_id = text "bob";
  role = administrator;
  display_name = [];
}

abbrev promote_bob : UpdateBookMemberRoleRequest
promote_bob = record { actor = alice; book_id = text "home"; user_id = text "bob"; role = owner }

abbrev demote_bob : UpdateBookMemberRoleRequest
demote_bob = record { actor = alice; book_id = text "home"; user_id = text "bob"; role = member }

abbrev remove_bob : RemoveBookMemberRequest
remove_bob = record { actor = alice; book_id = text "home"; user_id = text "bob" }

abbrev rename_home : UpdateBookRequest
rename_home = record {
  actor = alice;
  book_id = text "home";
  name = some (text "Flat");
  reporting_currency = none;
}

abbrev home : Book
home = new_book new_home (text "home") 1

-- The store with the new book alone, and what the requests make of it.
abbrev first_store : MemoryStore
first_store = with_book home (new_owner new_home (text "home") 1) [] empty_store

abbrev requests : List (Request × Time)
requests = (Request.add_member add_bob, 2) ∷ (Request.change_member_role promote_bob, 3) ∷ []

abbrev home_store : MemoryStore
home_store = serve requests first_store

pub first_store-IsValid : IsValid first_store
first_store-IsValid =
    with_book-IsValid home (new_owner new_home (text "home") 1) [] empty_store empty-IsValid refl
      refl refl

pub home_store-IsValid : IsValid home_store
home_store-IsValid = serve-IsValid requests first_store first_store-IsValid

abbrev later : List (Request × Time)
later =
    (Request.add_member add_bob, 2)
    ∷ (Request.change_member_role promote_bob, 3)
    ∷ (Request.change_member_role demote_bob, 4)
    ∷ []

-- Bob, promoted, is the primary owner; once he is demoted, alice is again.
later-home :
    lookup (text "home") (serve later first_store).books
    ≡ some (record home { owner_user_id = text "alice"; updated_at = 4 })
unfolding serve serve_one lookup insert put_member values text_eq text_leb trim_space trim_left
    trim_right find count sort_by insert_by authorize_manager authorize_book_member book
    book_members member_of role_target may_add_member is_supported_member_role
    is_assignable_new_member_role owner_count first_other_owner next_primary_owner
    update_book_member_role change_role reconcile_primary_owner put_primary_owner add_book_member
    add_or_answer create_book_member update_book_member update_book
later-home = refl

owner_always_example :
    (m : BookMember) × (member_of (text "home") (text "alice") (serve later first_store) ≡ ok m)
    × (m.role ≡ owner)
owner_always_example =
    owner_always later first_store (text "home")
      (record home { owner_user_id = text "alice"; updated_at = 4 }) first_store-IsValid later-home

update_book_member_role_lem_example :
    (update_book_member_role demote_bob 4 home_store).0
    ≡ role_answer demote_bob 4 (role_target demote_bob home_store)
update_book_member_role_lem_example =
    update_book_member_role_lem demote_bob 4 home_store home_store-IsValid

remove_book_member_lem_example :
    (remove_book_member remove_bob 4 home_store).0
    ≡ (elim (removal_target remove_bob home_store) [ ok _ ↦ ok tt | err e ↦ err e ])
remove_book_member_lem_example = remove_book_member_lem remove_bob 4 home_store home_store-IsValid

-- A stranger who asks to be an owner.
abbrev intrude : Request
intrude = Request.change_member_role (record {
  actor = record { user_id = text "mallory" };
  book_id = text "home";
  user_id = text "alice";
  role = viewer;
})

mallory-refused : may_ask intrude first_store ≡ false
unfolding member_of lookup text_eq put_member insert
mallory-refused = refl

refused_unchanged_example : serve_one intrude 3 first_store ≡ first_store
refused_unchanged_example = refused_unchanged intrude 3 first_store mallory-refused
