-- ===== src/Ledger/Service/Accounts/Sharing.antt =====
-- With which books an account is shared.
use accounting.Ledger.Model.{Account, AccountGroup, Actor, Book, BookMember, Time}
use accounting.Ledger.Money.{contains}
use accounting.Ledger.Service.{authorize_manager}
use accounting.Ledger.Service.Accounts.{
  CreateAccountRequest, UnshareAccountRequest, account_group_by_id, account_to_unshare, all_shared,
  create_account_request, may_create_account, new_account, normalize_ids, own_group, remove_id,
  unshare_account, validate_account_group, validate_shared_books,
}
use accounting.Ledger.Service.Entries.{account_by_id}
use accounting.Ledger.Store.{MemoryStore}
use accounting.Ledger.Store.Books.{member_of}
use accounting.Ledger.Store.Items.{create_account, replace_first, update_account}
use accounting.Ledger.Store.Updates.{find-replace_self}
use accounting.Prelude.{
  All, Bool-cases, List, [], ap, arith, false, find, inl, inr, is_some, refl, some, subst, sym,
  true, ◌++◌, ◌∙◌, ◌∷◌, ◌≡◌, ◌⊎◌,
}
use accounting.Prelude.Result.{Result-cases, ok}
use accounting.Prelude.Text.{Text, is_empty, text_eq, text_eq_iff, text_eq_refl, trim_space}

all_shared-All :
    (actor : Actor) (ids : List Text) (s : MemoryStore)
    → all_shared actor ids s ≡ ok tt
    → All (λ b. (m : BookMember) × (member_of b actor.user_id s ≡ ok m)) ids
unfolding all_shared
all_shared-All actor [] s h = tt
all_shared-All actor (b ∷ ids) s h = elim (Result-cases (member_of b actor.user_id s)) [
  | inl (m, there) ↦ ((m, there), all_shared-All actor ids s (ground arith))
  | inr (e, bad) ↦ absurd (ground arith)
]

module _ (q : CreateAccountRequest) (s : MemoryStore) (h : may_create_account q s ≡ ok tt) where
  shared_checked : all_shared q.actor (normalize_ids q.shared_book_ids) s ≡ ok tt
  unfolding may_create_account validate_shared_books
  shared_checked = ground arith

  group_checked : validate_account_group q.actor (trim_space q.group_id) s ≡ ok tt
  unfolding may_create_account
  group_checked = ground arith

own_group_or_none :
    (actor : Actor) (id : Text) (s : MemoryStore)
    → validate_account_group actor id s ≡ ok tt
    → (is_empty id ≡ true)
      ⊎ ((g : AccountGroup) × (account_group_by_id id s ≡ ok g) × (g.user_id ≡ actor.user_id))
unfolding validate_account_group own_group
own_group_or_none actor id s h = elim (Bool-cases (is_empty id)) [
  | inl root ↦ inl root
  | inr named ↦ elim (Result-cases (account_group_by_id id s)) [
    | inl (g, found) ↦ inr (g, found, ground (arith, text_eq_iff g.user_id actor.user_id))
    | inr (e, bad) ↦ absurd (ground arith)
  ]
]

-- An account that `CreateAccount` has answered is the last of the store; it belongs to the actor,
-- who is a member of each book with which it is shared, and its group, if it has one, is the
-- actor's.
pub create_account_request_lem :
    (q : CreateAccountRequest) (id : Text) (now : Time) (a : Account) (s : MemoryStore)
    → (create_account_request q id now s).0 ≡ ok a
    → ((create_account_request q id now s).1.accounts ≡ s.accounts ++ a ∷ [])
      × (a.user_id ≡ q.actor.user_id)
      × All (λ b. (m : BookMember) × (member_of b q.actor.user_id s ≡ ok m)) a.shared_book_ids
      × ((is_empty a.group_id ≡ true)
          ⊎ ((g : AccountGroup) × (account_group_by_id a.group_id s ≡ ok g)
              × (g.user_id ≡ q.actor.user_id)))
unfolding create_account_request create_account
create_account_request_lem q id now a s h = elim (Result-cases (may_create_account q s)) [
  | inr (e, bad) ↦ absurd (ground arith)
  | inl (_, allowed) ↦
      let made : a ≡ new_account q id now = ground arith in
      (
        ground arith,
        ap (λ x. x.user_id) made,
        subst
            (λ x.
              All (λ b. (m : BookMember) × (member_of b q.actor.user_id s ≡ ok m))
                x.shared_book_ids)
            (sym made)
            (all_shared-All q.actor (normalize_ids q.shared_book_ids) s
              (shared_checked q s allowed)),
        subst
            (λ x.
              (is_empty x.group_id ≡ true)
              ⊎ ((g : AccountGroup) × (account_group_by_id x.group_id s ≡ ok g)
                  × (g.user_id ≡ q.actor.user_id)))
            (sym made)
            (own_group_or_none q.actor (trim_space q.group_id) s (group_checked q s allowed)),
      )
]

removed_gone : (ids : List Text) (id : Text) → contains id (remove_id ids id) ≡ false
unfolding contains remove_id
removed_gone [] id = refl
removed_gone (x ∷ ids) id = ground (arith, text_eq_iff x id, text_eq_iff id x, removed_gone ids id)

removed_stays :
    (ids : List Text) (id x : Text)
    → text_eq x id ≡ false
    → contains x (remove_id ids id) ≡ contains x ids
unfolding contains remove_id
removed_stays [] id x n = refl
removed_stays (y ∷ ids) id x n = ground (
  arith,
  text_eq_iff x y,
  text_eq_iff y x,
  text_eq_iff y id,
  text_eq_iff x id,
  removed_stays ids id x n,
)

update_account_stored :
    (x a : Account) (s : MemoryStore)
    → (update_account x s).0 ≡ ok a
    → find (λ y. text_eq y.id a.id) (update_account x s).1.accounts ≡ some a
unfolding update_account
update_account_stored x a s h =
    elim (Bool-cases (is_some (find (λ y. text_eq y.id x.id) s.accounts))) [
      | inr gone ↦ absurd (ground arith)
      | inl there ↦
          let same : x ≡ a = ground arith in
          rw there (
            subst
              (λ z.
                find (λ y. text_eq y.id z.id) (replace_first (λ y. text_eq y.id x.id) x s.accounts)
                ≡ some z)
              same
              (find-replace_self (λ y. text_eq y.id x.id) x s.accounts (text_eq_refl x.id) there))
    ]

unshared_stored :
    (q : UnshareAccountRequest) (now : Time) (a : Account) (s : MemoryStore)
    → (unshare_account q now s).0 ≡ ok a
    → find (λ x. text_eq x.id a.id) (unshare_account q now s).1.accounts ≡ some a
unfolding unshare_account
unshared_stored q now a s h = elim (Result-cases (account_to_unshare q now s)) [
  | inr (e, bad) ↦ absurd (ground arith)
  | inl (x, good) ↦
      let written : (update_account x s).0 ≡ ok a = ground arith in
      rw good (update_account_stored x a s written)
]

-- An account that `UnshareAccount` has answered was shared with the book, of which the actor is an
-- owner or administrator; it is not any more, and it is shared with every other book as before. The
-- store holds the answer under its id.
pub unshare_account_lem :
    (q : UnshareAccountRequest) (now : Time) (a : Account) (s : MemoryStore)
    → (unshare_account q now s).0 ≡ ok a
    → ((m : BookMember × Book) × (authorize_manager q.actor q.book_id s ≡ ok m))
      × (contains q.book_id a.shared_book_ids ≡ false)
      × ((old : Account) × (account_by_id (trim_space q.account_id) s ≡ ok old)
          × (contains q.book_id old.shared_book_ids ≡ true)
          × ((b : Text)
              → text_eq b q.book_id ≡ false
              → contains b a.shared_book_ids ≡ contains b old.shared_book_ids))
      × (find (λ x. text_eq x.id a.id) (unshare_account q now s).1.accounts ≡ some a)
unfolding unshare_account account_to_unshare update_account
unshare_account_lem q now a s h = elim (Result-cases (authorize_manager q.actor q.book_id s)) [
  | inr (e, bad) ↦ absurd (ground arith)
  | inl (m, allowed) ↦ elim (Result-cases (account_by_id (trim_space q.account_id) s)) [
    | inr (e, bad) ↦ absurd (ground arith)
    | inl (old, found) ↦
        let made : a ≡ record old {
          shared_book_ids = remove_id old.shared_book_ids q.book_id;
          updated_at = now;
        } =
          ground arith in
        let ids : a.shared_book_ids ≡ remove_id old.shared_book_ids q.book_id =
          ap (λ x. x.shared_book_ids) made in
        (
          (m, allowed),
          ap (contains q.book_id) ids ∙ removed_gone old.shared_book_ids q.book_id,
          (
            old,
            found,
            ground arith,
            λ b n. ap (contains b) ids ∙ removed_stays old.shared_book_ids q.book_id b n,
          ),
          unshared_stored q now a s h,
        )
  ]
]
