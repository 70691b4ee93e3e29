-- ===== src/Ledger/Service/Categories/Requests.antt =====
-- Requests on categories end, and keep the forest.
use accounting.Ledger.Model.{Category, CategoryDirection, Time}
use accounting.Ledger.Service.Categories.{
  UpdateCategoryRequest, category_by_id, category_to_update, has_category_id, parent_of,
  parent_text, patch_category, update_category_request, validate_category_fields,
}
use accounting.Ledger.Service.Categories.Ancestors.{EndsIn-unmet}
use accounting.Ledger.Service.Categories.Forest.{
  IsForest, rebuilt-IsForest, validate_category_fields_accepts, validate_category_fields_total,
}
use accounting.Ledger.Service.Categories.Parents.{
  UniqueCategories, find-categories_of, parent_of-categories_of,
}
use accounting.Ledger.Store.{MemoryStore}
use accounting.Ledger.Store.Items.{categories_of, is_category, replace_first, update_category}
use accounting.Ledger.Store.Updates.{AtMostOnce-replace, find-replace_ne, find-replace_self}
use accounting.Prelude.{
  Bool-cases, Option-cases, ap, arith, false, find, find_passes, if◌then◌else◌, inl, inr, is_some,
  length, some, subst, sym, true, ◌&&◌, ◌+◌, ◌∙◌, ◌≡◌, ◌≢◌,
}
use accounting.Prelude.Result.{Result, Result-cases, err, ok}
use accounting.Prelude.Text.{Text, text_eq, text_eq-false, text_eq_iff, text_eq_refl, trim_space}
use accounting.Prelude.Text.Trim.{trim_space_twice}

module _ (q : UpdateCategoryRequest) (s : MemoryStore) where
  -- The category that is patched is the one that the book has under the id.
  target :
      (c : Category)
      → UniqueCategories s
      → category_to_update q s ≡ ok c
      → (d : Category) × (find (is_category q.book_id q.category_id) s.categories ≡ some d)
        × (c ≡ patch_category q d)
  unfolding category_to_update category_by_id
  target c u h =
      elim (Option-cases (find (has_category_id q.category_id) (categories_of q.book_id s))) [
        | inl gone ↦ absurd (ground arith)
        | inr (d, found) ↦
            (d, sym (find-categories_of s q.book_id q.category_id u) ∙ found, ground arith)
      ]

  is_target :
      (c : Category)
      → UniqueCategories s
      → category_to_update q s ≡ ok c
      → (c.book_id ≡ q.book_id)
        × (c.id ≡ q.category_id)
        × (is_some (find (is_category q.book_id q.category_id) s.categories) ≡ true)
  is_target c u h =
      let (d, found, e) = target c u h in
      let hit : is_category q.book_id q.category_id d ≡ true =
        find_passes (is_category q.book_id q.category_id) s.categories d found in
      (
        ap (λ x. x.book_id) e ∙ ground (arith, text_eq_iff d.book_id q.book_id),
        ap (λ x. x.id) e ∙ ground (arith, text_eq_iff d.id q.category_id),
        ap is_some found,
      )

abbrev replaced_by : Category → MemoryStore → MemoryStore
replaced_by c s = record s {
  categories = replace_first (is_category c.book_id c.id) c s.categories;
}

trimmed_away : (id x : Text) → trim_space x ≡ x → text_eq x (trim_space id) ≡ false → id ≢ x
trimmed_away id x t away e =
    let same : x ≡ trim_space id = sym t ∙ ap trim_space (sym e) in
    ground (arith, text_eq_iff x (trim_space id))

-- A write of a category over the one with its id, in its book.
module _ (c : Category) (s : MemoryStore) (v : IsForest s)
    (there : is_some (find (is_category c.book_id c.id) s.categories) ≡ true) where
  abbrev replaced : MemoryStore
  replaced = replaced_by c s

  replaced_unique : UniqueCategories replaced
  replaced_unique id =
      AtMostOnce-replace (has_category_id id) (is_category c.book_id c.id) c s.categories
        (λ x h. ground (arith, text_eq_iff x.id c.id)) (v.unique id)

  replaced_read :
      (d x : Text)
      → parent_text (find (is_category d x) replaced.categories) ≡ (
          if text_eq c.book_id d && text_eq c.id x
          then c.parent_id
          else parent_text (find (is_category d x) s.categories))
  replaced_read d x = elim (Bool-cases (text_eq c.book_id d && text_eq c.id x)) [
    | inl hit ↦
        let book : c.book_id ≡ d = ground (arith, text_eq_iff c.book_id d) in
        let id : c.id ≡ x = ground (arith, text_eq_iff c.id x) in
        rw hit (
          subst (λ e. parent_text (find (is_category e x) replaced.categories) ≡ c.parent_id) book
            (subst
              (λ y. parent_text (find (is_category c.book_id y) replaced.categories) ≡ c.parent_id)
              id
              (ap parent_text (
                find-replace_self (is_category c.book_id c.id) c s.categories
                  (ground (arith, text_eq_refl c.book_id, text_eq_refl c.id)) there))))
    | inr miss ↦ rw miss (
        ap parent_text (
          find-replace_ne (is_category d x) (is_category c.book_id c.id) c s.categories miss
            (λ y h. ground (arith, text_eq_iff y.book_id c.book_id, text_eq_iff y.id c.id))))
  ]

  replaced-IsForest :
      (name raw : Text) (d : CategoryDirection)
      → validate_category_fields c.book_id c.id c.parent_id name d raw s ≡ some (ok tt)
      → IsForest replaced
  replaced-IsForest name raw d h =
      let b = c.book_id in
      let f = parent_of (categories_of b s) in
      let g = parent_of (categories_of b replaced) in
      let same : (x : Text) → trim_space x ≡ x → text_eq x (trim_space c.id) ≡ false → g x ≡ f x =
        λ x t away.
          parent_of-categories_of replaced b x replaced_unique
          ∙ replaced_read b x
          ∙ rw (text_eq-false c.id x (λ e. trimmed_away c.id x t away e))
              (ground (arith, parent_of-categories_of s b x v.unique)) in
      elim (validate_category_fields_accepts b c.id c.parent_id name d raw s h) [
        | inl root ↦
            rebuilt-IsForest s replaced b c.id c.parent_id 0 v replaced_unique replaced_read root
        | inr (parent, found, unmet) ↦
            let (n, e) = v.ends b (trim_space c.parent_id) in
            rebuilt-IsForest s replaced b c.id c.parent_id n v replaced_unique replaced_read (
              EndsIn-unmet f g (trim_space c.id) (trim_space c.parent_id) n
                (length (categories_of b s) + 2) same (trim_space_twice c.parent_id) e unmet)
      ]

update_written :
    (c : Category) (s : MemoryStore)
    → is_some (find (is_category c.book_id c.id) s.categories) ≡ true
    → update_category c s ≡ (ok c, replaced_by c s)
unfolding update_category
update_written c s h = rw h

-- From a forest `UpdateCategory` ends, whatever is asked, and leaves a forest: the loop over the
-- ancestors runs out, and no accepted parent closes a circle.
pub update_category_request-IsForest :
    (q : UpdateCategoryRequest) (now : Time) (s : MemoryStore)
    → IsForest s
    → (r : Result Category × MemoryStore) × (update_category_request q now s ≡ some r)
      × IsForest r.1
unfolding update_category_request
update_category_request-IsForest q now s v = elim (Result-cases (category_to_update q s)) [
  | inr (e, bad) ↦ ((err e, s), ground arith, v)
  | inl (c, good) ↦
      let c' = record c { updated_at = now } in
      let (at_book, at_id, there) = is_target q s c v.unique good in
      let found : is_some (find (is_category c.book_id c.id) s.categories) ≡ true =
        ap (λ b. is_some (find (is_category b c.id) s.categories)) at_book
        ∙ ap (λ i. is_some (find (is_category q.book_id i) s.categories)) at_id
        ∙ there in
      let (r, e) =
        validate_category_fields_total q.book_id q.category_id c.parent_id c.name c.direction
          c.raw_source_name s v in
      elim (Result-cases r) [
        | inr (x, refused) ↦ ((err x, s), ground arith, v)
        | inl (x, accepted) ↦ (
          (ok c', replaced_by c' s),
          ground (arith, update_written c' s found),
          replaced-IsForest c' s v found c.name c.raw_source_name c.direction
              (rw (at_book, at_id) (e ∙ ap some accepted)),
        )
      ]
]
