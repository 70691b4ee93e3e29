-- ===== src/Ledger/Service/EntryRequests/Policy.antt =====
-- Who may delete an entry: the request agrees with the rule of the product.
use accounting.Ledger.Model.{
  Actor, BookMember, Entry, Role, administrator, is_manager, is_member_role, member, other_role,
  owner, viewer,
}
use accounting.Ledger.Service.Entries.{entry_mutation_policy}
use accounting.Ledger.Service.EntryChanges.{may_delete_entry}
use accounting.Ledger.Service.EntryRequests.{delete_entry_request}
use accounting.Ledger.Store.{MemoryStore}
use accounting.Ledger.Store.Books.{member_of}
use accounting.Ledger.Store.Entries.{UniqueIds, has_id, view}
use accounting.Ledger.Store.Items.{by_occurred_at, delete_entry, entries_of, is_entry}
use accounting.Prelude.{
  AtMostOnce, Bool, Bool-cases, List, Option-cases, [], arith, false, find, find-sort_by, inl, inr,
  keep, none, refl, some, sym, true, ◌&&◌, ◌||◌, ◌∙◌, ◌∷◌, ◌≡◌, ◌↔◌,
}
use accounting.Prelude.Result.{Result-cases, ok}
use accounting.Prelude.Text.{Text, is_empty, text_eq}

-- The rule of the product: owners and administrators change every entry of the book, a member those
-- that they created, and nobody else any.
abbrev pub may_change : Role → Bool → Bool
may_change owner own = true
may_change administrator own = true
may_change member own = own
may_change viewer own = false
may_change (other_role _) own = false

may_change_lem :
    (r : Role) (own : Bool) → (is_manager r || (is_member_role r && own)) ≡ may_change r own
may_change_lem owner own = refl
may_change_lem administrator own = refl
may_change_lem member own = refl
may_change_lem viewer own = refl
may_change_lem (other_role t) own = refl

find-keep :
    (b i : Text) (xs : List Entry)
    → find (has_id i) (keep (λ e. text_eq e.book_id b) xs) ≡ find (is_entry b i) xs
unfolding find
find-keep b i [] = refl
find-keep b i (x ∷ xs) = ground (arith, find-keep b i xs)

none-keep : (p q : Entry → Bool) (xs : List Entry) → find p xs ≡ none → find p (keep q xs) ≡ none
unfolding find
none-keep p q [] h = refl
none-keep p q (x ∷ xs) h = ground (arith, none-keep p q xs)

AtMostOnce-keep :
    (p q : Entry → Bool) (xs : List Entry) → AtMostOnce p xs → AtMostOnce p (keep q xs)
AtMostOnce-keep p q [] o = tt
AtMostOnce-keep p q (x ∷ xs) o = elim (Bool-cases (q x)) [
  | inl kept ↦ rw kept (λ t. none-keep p q xs (o.0 t), AtMostOnce-keep p q xs o.1)
  | inr left ↦ rw left (AtMostOnce-keep p q xs o.1)
]

-- The listing of a book finds the entry that the store holds under the book and the id.
listed :
    (b i : Text) (s : MemoryStore) → UniqueIds s → find (has_id i) (entries_of b s) ≡ view s b i
unfolding entries_of view
listed b i s unique =
    find-sort_by (has_id i) by_occurred_at (keep (λ e. text_eq e.book_id b) s.entries)
      (AtMostOnce-keep (has_id i) (λ e. text_eq e.book_id b) s.entries (unique.once i))
    ∙ find-keep b i s.entries

-- The actor, the book and the entry are named, the actor is a member of the book, the entry is in it,
-- and the rule of the product lets a member of that role change it.
pub record MayChange (actor : Actor) (b i : Text) (s : MemoryStore) : Type 0 where
  pub actor_named : is_empty actor.user_id ≡ false
  pub book_named : is_empty b ≡ false
  pub entry_named : is_empty i ≡ false
  pub membership : BookMember
  pub joined : member_of b actor.user_id s ≡ ok membership
  pub entry : Entry
  pub there : view s b i ≡ some entry
  pub allowed : may_change membership.role (text_eq entry.creator_user_id actor.user_id) ≡ true

module _ (actor : Actor) (b i : Text) (s : MemoryStore) (unique : UniqueIds s) where
  deletes : MayChange actor b i s → (delete_entry_request actor b i s).0 ≡ ok tt
  unfolding delete_entry_request may_delete_entry entry_mutation_policy delete_entry view
  deletes m = ground (
    arith,
    m.actor_named,
    m.book_named,
    m.entry_named,
    m.joined,
    listed b i s unique ∙ m.there,
    m.there,
    may_change_lem m.membership.role (text_eq m.entry.creator_user_id actor.user_id) ∙ m.allowed,
  )

  deleted : (delete_entry_request actor b i s).0 ≡ ok tt → MayChange actor b i s
  unfolding delete_entry_request may_delete_entry entry_mutation_policy
  deleted h = elim (Result-cases (member_of b actor.user_id s)) [
    | inr (x, bad) ↦ absurd (ground arith)
    | inl (m, joined) ↦ elim (Option-cases (find (λ x. text_eq x.id i) (entries_of b s))) [
      | inl missing ↦ absurd (ground arith)
      | inr (e, found) ↦ record {
        actor_named = ground arith;
        book_named = ground arith;
        entry_named = ground arith;
        membership = m;
        joined = joined;
        entry = e;
        there = sym (listed b i s unique) ∙ found;
        allowed = ground (arith, may_change_lem m.role (text_eq e.creator_user_id actor.user_id));
      }
    ]
  ]

  -- Where ids are unique, `DeleteEntry` succeeds exactly where the actor, the book and the entry are
  -- named, the actor is a member of the book, the book has the entry, and the actor is an owner or an
  -- administrator, or a member who created the entry.
  pub delete_entry_request-MayChange :
      ((delete_entry_request actor b i s).0 ≡ ok tt) ↔ MayChange actor b i s
  delete_entry_request-MayChange = (deleted, deletes)
