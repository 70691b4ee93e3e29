-- ===== src/Ledger/Service/Members/Change.antt =====
-- The writes of a role change, and the request as a whole.
use accounting.Ledger.Model.{BookMember, Time}
use accounting.Ledger.Service.Books.{
  Target, UpdateBookMemberRoleRequest, next_primary_owner, role_target,
}
use accounting.Ledger.Service.Members.{
  change_role, put_primary_owner, reconcile_primary_owner, update_book_member_role,
}
use accounting.Ledger.Service.Members.Roles.{RoleFacts, Settles, role-Settles, role_target-facts}
use accounting.Ledger.Store.{MemoryStore, book_members_of}
use accounting.Ledger.Store.Books.{update_book, update_book_member}
use accounting.Ledger.Store.Invariant.{
  IsValid, IsValid-change, Keeps, lookup_again, owner_listed, placed-insert,
}
use accounting.Ledger.Store.Keys.{book_key, lookup_of_find, user_key}
use accounting.Prelude.{
  Holds, Option, arith, if◌then◌else◌, is_some, none, refl, some, subst, true, ◌≡◌,
}
use accounting.Prelude.Dict.{
  Dict, WellKeyed, insert, insert-WellKeyed, lookup, lookup-insert, lookup_key,
}
use accounting.Prelude.Result.{Result, and_then, err, lift, ok, pure, ◌>>=◌}
use accounting.Prelude.Text.{Text, text_eq}
-- The state after the membership has been written.
use accounting.Ledger.Model.{BookMember, Time}
use accounting.Ledger.Service.Books.{
  Target, UpdateBookMemberRoleRequest, next_primary_owner, role_target,
}
use accounting.Ledger.Service.Members.{
  change_role, put_primary_owner, reconcile_primary_owner, update_book_member_role,
}
use accounting.Ledger.Service.Members.Roles.{RoleFacts, Settles, role-Settles, role_target-facts}
use accounting.Ledger.Store.{MemoryStore, book_members_of}
use accounting.Ledger.Store.Books.{update_book, update_book_member}
use accounting.Ledger.Store.Invariant.{
  IsValid, IsValid-change, Keeps, lookup_again, owner_listed, placed-insert,
}
use accounting.Ledger.Store.Keys.{book_key, lookup_of_find, user_key}
use accounting.Prelude.{
  Holds, Option, arith, if◌then◌else◌, is_some, none, refl, some, subst, true, ◌≡◌,
}
use accounting.Prelude.Dict.{
  Dict, WellKeyed, insert, insert-WellKeyed, lookup, lookup-insert, lookup_key,
}
use accounting.Prelude.Result.{Result, and_then, err, lift, ok, pure, ◌>>=◌}
use accounting.Prelude.Text.{Text, text_eq}

module _ (r : UpdateBookMemberRoleRequest) (now : Time) (s : MemoryStore) (v : IsValid s)
    (t : Target) (facts : RoleFacts r s t) where
  abbrev members_before : Dict BookMember
  members_before = book_members_of r.book_id s.members

  abbrev changed : BookMember
  changed = record t.target { role = r.role; updated_at = now }

  abbrev members_after : Dict BookMember
  members_after = insert t.target.user_id changed members_before

  keyed : WellKeyed user_key members_before
  keyed = v.members_keyed r.book_id

  target_listed : lookup t.target.user_id members_before ≡ some t.target
  target_listed = lookup_of_find _ (v.members_keyed r.book_id) _ t.target (rw facts.2 at facts.3)

  target_placed : t.target.book_id ≡ r.book_id
  target_placed = rw target_listed at (v.placed r.book_id t.target.user_id)

  book_listed : owner_listed t.book members_before ≡ true
  book_listed = rw facts.0 at (v.owned r.book_id)

  book_id : t.book.id ≡ r.book_id
  book_id = lookup_key book_key r.book_id t.book s.books v.books_keyed facts.0

  settles : Settles t.book now members_after (next_primary_owner t changed)
  settles = role-Settles t r.role now members_before keyed facts.2 target_listed book_listed facts.4

  abbrev written : MemoryStore
  written = record s { members = insert r.book_id members_after s.members }

  update_writes : update_book_member changed s ≡ (ok changed, written)
  unfolding update_book_member
  update_writes = ground (arith, target_placed, target_listed)

  -- The writes that follow the membership: those of the primary owner.
  abbrev Ends : Result (Unit {0}) × MemoryStore → Type 0
  Ends (ok _, s') = IsValid s'
  Ends (err _, s') = ⊥

  law :
      (c : Text)
      → lookup c s.books ≡ (if text_eq r.book_id c then some t.book else lookup c s.books)
  law = lookup_again r.book_id t.book s.books facts.0

  after_keyed : WellKeyed user_key members_after
  after_keyed = insert-WellKeyed user_key _ members_before keyed

  after_placed : (u : Text) → Holds (λ m. m.book_id ≡ r.book_id) (lookup u members_after)
  after_placed = placed-insert r.book_id _ members_before target_placed (v.placed r.book_id)

  finish :
      (n : Result (Option Text))
      → Settles t.book now members_after n
      → Ends ((lift n >>= λ next. put_primary_owner t.book next now) written)
  unfolding put_primary_owner update_book
  finish (err e) h = h
  finish (ok none) h =
      IsValid-change s v r.book_id members_after t.book s.books v.books_keyed law after_keyed
        after_placed h
  finish (ok (some u)) h =
      let k = record t.book { owner_user_id = u; updated_at = now } in
      let known : is_some (lookup t.book.id s.books) ≡ true = ground (arith, book_id) in
      rw known (
        IsValid-change s v r.book_id members_after k (insert t.book.id k s.books)
          (insert-WellKeyed book_key k s.books v.books_keyed)
          (λ c.
            subst
              (λ (x : Text).
                lookup c (insert t.book.id k s.books)
                ≡ (if text_eq x c then some k else lookup c s.books))
              book_id (lookup-insert t.book.id c k s.books))
          after_keyed after_placed h)

  answers :
      (x : Result (Unit {0}) × MemoryStore)
      → Ends x
      → Keeps s (and_then x.0 (λ _. pure changed) x.1)
  answers (ok _, s') h = h
  answers (err _, s') h = absurd h

  change_role-Keeps : Keeps s (change_role t r.role now s)
  unfolding change_role reconcile_primary_owner
  change_role-Keeps = rw update_writes (
      answers (reconcile_primary_owner t changed now written)
        (finish (next_primary_owner t changed) settles))

  answers_ok :
      (x : Result (Unit {0}) × MemoryStore)
      → Ends x
      → (and_then x.0 (λ _. pure changed) x.1).0 ≡ ok changed
  answers_ok (ok _, s') h = refl
  answers_ok (err _, s') h = absurd h

  change_role-answers : (change_role t r.role now s).0 ≡ ok changed
  unfolding change_role reconcile_primary_owner
  change_role-answers = rw update_writes (
      answers_ok (reconcile_primary_owner t changed now written)
        (finish (next_primary_owner t changed) settles))

-- A role change either fails and leaves the store as it was, or succeeds, and then every book still
-- has a primary owner who is a member of it with the owner role: no change demotes the last owner.
pub update_book_member_role-Keeps :
    (r : UpdateBookMemberRoleRequest) (now : Time) (s : MemoryStore)
    → IsValid s
    → Keeps s (update_book_member_role r now s)
unfolding update_book_member_role
update_book_member_role-Keeps r now s v = go (role_target r s) (role_target-facts r s)
  where
    go :
        (x : Result Target)
        → ((t : Target) → x ≡ ok t → RoleFacts r s t)
        → Keeps s (and_then x (λ t. change_role t r.role now) s)
    go (err e) f = refl
    go (ok t) f = change_role-Keeps r now s v t (f t refl)

-- What a role change answers once its checks are done.
abbrev pub role_answer : UpdateBookMemberRoleRequest → Time → Result Target → Result BookMember
role_answer r now (ok t) = ok (record t.target { role = r.role; updated_at = now })
role_answer r now (err e) = err e

-- A role change fails only with an error of its checks, which come before the first write: where
-- they pass, none of its writes fails, and it answers the member with the new role.
pub update_book_member_role_lem :
    (r : UpdateBookMemberRoleRequest) (now : Time) (s : MemoryStore)
    → IsValid s
    → (update_book_member_role r now s).0 ≡ role_answer r now (role_target r s)
unfolding update_book_member_role
update_book_member_role_lem r now s v = go (role_target r s) (role_target-facts r s)
  where
    go :
        (x : Result Target)
        → ((t : Target) → x ≡ ok t → RoleFacts r s t)
        → (and_then x (λ t. change_role t r.role now) s).0 ≡ role_answer r now x
    go (err e) f = refl
    go (ok t) f = change_role-answers r now s v t (f t refl)
