-- ===== src/Ledger/Service/Members/Roles.antt =====
-- `UpdateBookMemberRole` keeps every book's primary owner one of its owners.

use accounting.Ledger.Model.{Book, BookMember, Role, Time, is_owner}
use accounting.Ledger.Service.{authorize_book_member, authorize_manager}
use accounting.Ledger.Service.Books.{
  Target, UpdateBookMemberRoleRequest, first_other_owner, is_other_owner, next_primary_owner,
  owner_count, role_target,
}
use accounting.Ledger.Store.{MemoryStore, book_members_of}
use accounting.Ledger.Store.Books.{book, book_members, by_user_id}
use accounting.Ledger.Store.Invariant.{owner_listed}
use accounting.Ledger.Store.Keys.{count-roster, lookup_of_find, user_key}
use accounting.Prelude.{
  Option, Option-cases, arith, count-le-add, count-zero_of_none, false, find, find_passes, inl, inr,
  is_some, leb, leb-false, none, not, some, sort_by, true, ◌&&◌, ◌||◌, ◌≡◌,
}
use accounting.Prelude.Dict.{Dict, WellKeyed, has_key, insert, lookup, lookup-insert, values}
use accounting.Prelude.Result.{Result, err, ok}
use accounting.Prelude.Text.{Text, text_eq, text_eq_iff, text_eq_refl, trim_space}

owner_split :
    (u : Text) (m : BookMember)
    → is_owner m.role ≡ true
    → (has_key user_key u m || is_other_owner u m) ≡ true
owner_split u m h = ground arith

-- Two owners, of whom at most one is the target, leave another one.
other_owner :
    (d : Dict BookMember) (u : Text)
    → WellKeyed user_key d
    → leb (owner_count (sort_by by_user_id (values d))) 1 ≡ false
    → (m : BookMember) × (first_other_owner (sort_by by_user_id (values d)) u ≡ some m)
unfolding owner_count first_other_owner
other_owner d u w many =
    elim (Option-cases (find (is_other_owner u) (sort_by by_user_id (values d)))) [
      | inr found ↦ found
      | inl nobody ↦ absurd (
          omega (
            arith,
            leb-false _ _ many,
            count-zero_of_none _ _ nobody,
            count-roster d w u,
            count-le-add (λ m. is_owner m.role) (has_key user_key u) (is_other_owner u)
                (sort_by by_user_id (values d)) (owner_split u),
          ))
    ]

-- What the reads and checks of a role change establish.
abbrev pub RoleFacts : UpdateBookMemberRoleRequest → MemoryStore → Target → Type 0
RoleFacts r s t =
    (lookup r.book_id s.books ≡ some t.book)
    × (is_some (lookup r.book_id s.members) ≡ true)
    × (t.members ≡ sort_by by_user_id (values (book_members_of r.book_id s.members)))
    × (find (has_key user_key (trim_space r.user_id)) t.members ≡ some t.target)
    × ((is_owner t.target.role && not (is_owner r.role) && leb (owner_count t.members) 1) ≡ false)

pub role_target-facts :
    (r : UpdateBookMemberRoleRequest) (s : MemoryStore) (t : Target)
    → role_target r s ≡ ok t
    → RoleFacts r s t
unfolding role_target authorize_manager authorize_book_member book book_members
role_target-facts r s t e = ground arith

module _ (t : Target) (d : Dict BookMember) (keyed : WellKeyed user_key d)
    (listed : t.members ≡ sort_by by_user_id (values d)) where
  -- The replacement is another member with the owner role.
  pub replacement :
      (u : Text) (m : BookMember)
      → first_other_owner t.members u ≡ some m
      → (lookup m.user_id d ≡ some m) × (text_eq u m.user_id ≡ false) × (is_owner m.role ≡ true)
  unfolding first_other_owner
  replacement u m e =
      let e' = rw listed at e in
      let passes = find_passes (is_other_owner u) t.members m e in
      (
        lookup_of_find d keyed (is_other_owner u) m e',
        ground (arith, text_eq_iff u m.user_id, text_eq_iff m.user_id u),
        ground arith,
      )

  pub replacement_exists :
      (u : Text)
      → leb (owner_count t.members) 1 ≡ false
      → is_some (first_other_owner t.members u) ≡ true
  replacement_exists u many =
      let (m, e) = other_owner d u keyed (rw listed at many) in rw (listed, e)

-- The primary owner that a change settles on is an owner among the members after the change.
abbrev pub Settles : Book → Time → Dict BookMember → Result (Option Text) → Type 0
Settles b now d (ok none) = owner_listed b d ≡ true
Settles b now d (ok (some u)) =
    owner_listed (record b { owner_user_id = u; updated_at = now }) d ≡ true
Settles b now d (err _) = ⊥

module _ (t : Target) (role : Role) (now : Time) (d : Dict BookMember)
    (keyed : WellKeyed user_key d) (listed : t.members ≡ sort_by by_user_id (values d))
    (target : lookup t.target.user_id d ≡ some t.target) (owned : owner_listed t.book d ≡ true)
    (kept : (is_owner t.target.role && not (is_owner role) && leb (owner_count t.members) 1)
      ≡ false) where
  abbrev pub updated : BookMember
  updated = record t.target { role = role; updated_at = now }

  pub role-Settles :
      Settles t.book now (insert t.target.user_id updated d) (next_primary_owner t updated)
  unfolding next_primary_owner owner_listed
  role-Settles = elim (Option-cases (first_other_owner t.members t.target.user_id)) [
    | inl nobody ↦ ground (
      arith,
      replacement_exists t d keyed listed t.target.user_id,
      lookup-insert t.target.user_id t.book.owner_user_id updated d,
      lookup-insert t.target.user_id t.target.user_id updated d,
      text_eq_iff t.book.owner_user_id t.target.user_id,
      text_eq_iff t.target.user_id t.book.owner_user_id,
      text_eq_refl t.target.user_id,
    )
    | inr (m, e) ↦ ground (
      arith,
      replacement t d keyed listed t.target.user_id m e,
      lookup-insert t.target.user_id m.user_id updated d,
      lookup-insert t.target.user_id t.book.owner_user_id updated d,
      lookup-insert t.target.user_id t.target.user_id updated d,
      text_eq_iff t.book.owner_user_id t.target.user_id,
      text_eq_iff t.target.user_id t.book.owner_user_id,
      text_eq_refl t.target.user_id,
    )
  ]
