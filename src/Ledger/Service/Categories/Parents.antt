-- ===== src/Ledger/Service/Categories/Parents.antt =====
-- What the map of parents reads of the stored categories, where no two have one id.
use accounting.Ledger.Model.{Category}
use accounting.Ledger.Service.Categories.{find_last, has_category_id, parent_of, parent_text}
use accounting.Ledger.Store.{MemoryStore}
use accounting.Ledger.Store.Items.{by_sort_order, categories_of, is_category}
use accounting.Prelude.{
  AtMostOnce, Bool, Bool-cases, List, [], ap, arith, count, count-le-one, count-sort_by, find,
  find-sort_by, inl, inr, keep, none, refl, ◌∙◌, ◌∷◌, ◌≡◌, ◌≤◌,
}
use accounting.Prelude.Text.{Text, text_eq}

-- No two categories have one id.
abbrev pub UniqueCategories : MemoryStore → Type 0
UniqueCategories s = (id : Text) → AtMostOnce (has_category_id id) s.categories

module _ {A : Type 0} (p : A → Bool) where
  find_last-none : (xs : List A) → count p xs ≡ 0 → find_last p xs ≡ none
  unfolding find_last count
  find_last-none [] h = refl
  find_last-none (x ∷ xs) h = ground (arith, find_last-none xs)

  -- Where at most one element passes the test, the last that does is the first.
  find_last-find : (xs : List A) → count p xs ≤ 1 → find_last p xs ≡ find p xs
  unfolding find_last find count
  find_last-find [] h = refl
  find_last-find (x ∷ xs) h = ground (arith, find_last-none xs, find_last-find xs)

  none-keep : (q : A → Bool) (xs : List A) → find p xs ≡ none → find p (keep q xs) ≡ none
  unfolding find
  none-keep q [] h = refl
  none-keep q (x ∷ xs) h = ground (arith, none-keep q xs)

  AtMostOnce-keep : (q : A → Bool) (xs : List A) → AtMostOnce p xs → AtMostOnce p (keep q xs)
  AtMostOnce-keep q [] h = tt
  AtMostOnce-keep q (x ∷ xs) h = elim (Bool-cases (q x)) [
    | inl kept ↦ rw kept (λ t. none-keep q xs (h.0 t), AtMostOnce-keep q xs h.1)
    | inr out ↦ rw out (AtMostOnce-keep q xs h.1)
  ]

find-keep :
    (b id : Text) (xs : List Category)
    → find (has_category_id id) (keep (λ c. text_eq c.book_id b) xs) ≡ find (is_category b id) xs
unfolding find
find-keep b id [] = refl
find-keep b id (x ∷ xs) = ground (arith, find-keep b id xs)

pub find-categories_of :
    (s : MemoryStore) (b id : Text)
    → UniqueCategories s
    → find (has_category_id id) (categories_of b s) ≡ find (is_category b id) s.categories
unfolding categories_of
find-categories_of s b id u =
    find-sort_by (has_category_id id) by_sort_order _
      (AtMostOnce-keep (has_category_id id) _ s.categories (u id))
    ∙ find-keep b id s.categories

-- The map of parents reads the category that the book has under the id.
pub find_last-categories_of :
    (s : MemoryStore) (b id : Text)
    → UniqueCategories s
    → find_last (has_category_id id) (categories_of b s) ≡ find (is_category b id) s.categories
unfolding categories_of
find_last-categories_of s b id u =
    find_last-find (has_category_id id) (categories_of b s) (
      rw
        (count-sort_by (has_category_id id) by_sort_order
          (keep (λ c. text_eq c.book_id b) s.categories))
        (count-le-one (has_category_id id) _
          (AtMostOnce-keep (has_category_id id) _ s.categories (u id))))
    ∙ find-categories_of s b id u

pub parent_of-categories_of :
    (s : MemoryStore) (b id : Text)
    → UniqueCategories s
    → parent_of (categories_of b s) id ≡ parent_text (find (is_category b id) s.categories)
unfolding parent_of
parent_of-categories_of s b id u = ap parent_text (find_last-categories_of s b id u)
