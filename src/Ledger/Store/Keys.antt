-- ===== src/Ledger/Store/Keys.antt =====
-- How the member maps of the books read after one of them has changed.

use accounting.Ledger.Model.{Book, BookMember}
use accounting.Ledger.Store.{book_members_of, put_member}
use accounting.Ledger.Store.Books.{by_user_id}
use accounting.Prelude.{
  Bool, List, arith, count, count-le-one, count-sort_by, find, find-All, find-sort_by,
  if◌then◌else◌, some, sort_by, sort_by-All, ◌∙◌, ◌≡◌, ◌≤◌,
}
use accounting.Prelude.Dict.{
  Dict, WellKeyed, find-values, has_key, insert, lookup, lookup-insert, values, values-All,
  values-AtMostOnce,
}
use accounting.Prelude.Text.{Text, text_eq}

abbrev pub user_key : BookMember → Text
user_key m = m.user_id

abbrev pub book_key : Book → Text
book_key b = b.id

module _ (d : Dict (Dict BookMember)) where
  pub members-insert :
      (k b : Text) (e : Dict BookMember)
      → book_members_of b (insert k e d) ≡ (if text_eq k b then e else book_members_of b d)
  members-insert k b e = rw lookup-insert (ground arith)

  pub members-put :
      (m : BookMember) (b : Text)
      → book_members_of b (put_member m d) ≡ (
          if text_eq m.book_id b
          then insert m.user_id m (book_members_of m.book_id d)
          else book_members_of b d)
  unfolding put_member
  members-put m b = members-insert m.book_id b _

-- A list of the members of a book in the order of user ids: what is found in it is what the map
-- holds.
module _ (d : Dict BookMember) (keyed : WellKeyed user_key d) where
  abbrev roster : List BookMember
  roster = sort_by by_user_id (values d)

  pub find-roster : (u : Text) → find (has_key user_key u) roster ≡ lookup u d
  find-roster u =
      find-sort_by (has_key user_key u) by_user_id (values d) (values-AtMostOnce user_key u d keyed)
      ∙ find-values user_key u d keyed

  pub count-roster : (u : Text) → count (has_key user_key u) roster ≤ 1
  count-roster u =
      rw (count-sort_by (has_key user_key u) by_user_id (values d))
        (count-le-one _ (values d) (values-AtMostOnce user_key u d keyed))

  pub lookup_of_find :
      (p : BookMember → Bool) (m : BookMember)
      → find p roster ≡ some m
      → lookup m.user_id d ≡ some m
  lookup_of_find p m e =
      find-All (λ v. lookup v.user_id d ≡ some v) p roster m e
        (sort_by-All _ by_user_id (values d) (values-All user_key d keyed))
