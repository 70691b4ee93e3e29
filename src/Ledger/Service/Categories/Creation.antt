-- ===== src/Ledger/Service/Categories/Creation.antt =====
-- A new category keeps the forest.
use accounting.Ledger.Model.{Category, CategoryDirection, Time}
use accounting.Ledger.Service.Categories.{
  CreateCategoryRequest, create_category_request, has_category_id, may_create_category,
  new_category, parent_of, parent_text, validate_category_fields,
}
use accounting.Ledger.Service.Categories.Ancestors.{EndsIn-apart}
use accounting.Ledger.Service.Categories.Forest.{
  IsForest, rebuilt-IsForest, validate_category_fields_accepts, validate_category_fields_total,
}
use accounting.Ledger.Service.Categories.Parents.{
  UniqueCategories, find_last-categories_of, parent_of-categories_of,
}
use accounting.Ledger.Store.{MemoryStore}
use accounting.Ledger.Store.Items.{categories_of, create_category, is_category}
use accounting.Ledger.Store.Updates.{AtMostOnce-snoc, find-snoc}
use accounting.Prelude.{
  All, List, Option, Option-cases, [], ap, arith, false, find, find-All, if◌then◌else◌, inl, inr,
  none, refl, some, subst, sym, ◌&&◌, ◌++◌, ◌∙◌, ◌∷◌, ◌≡◌,
}
use accounting.Prelude.Result.{Result, Result-cases, err, failure, ok}
use accounting.Prelude.Text.{
  Text, is_empty, text_eq, text_eq-false, text_eq_iff, trim_left, trim_right, trim_space,
}
use accounting.Prelude.Text.Trim.{trim_space_twice}

-- The new id is no blank, and no stored category names it as its parent.
pub record IsFresh (id : Text) (s : MemoryStore) : Type 0 where
  pub filled : is_empty id ≡ false
  pub unnamed : All (λ c. text_eq (trim_space c.parent_id) id ≡ false) s.categories

none_in_book :
    (d id : Text) (xs : List Category)
    → find (has_category_id id) xs ≡ none
    → find (is_category d id) xs ≡ none
unfolding find
none_in_book d id [] h = refl
none_in_book d id (x ∷ xs) h = ground (arith, none_in_book d id xs)

blank : (id : Text) → is_empty id ≡ false → text_eq (trim_space []) id ≡ false
unfolding text_eq trim_space trim_left trim_right
blank [] h = absurd (cc)
blank (c ∷ t) h = refl

-- The parent is checked before it is trimmed, and trimmed once more.
validated :
    (q : CreateCategoryRequest) (s : MemoryStore)
    → validate_category_fields q.book_id [] q.parent_id q.name q.direction q.raw_source_name s
      ≡ some (ok tt)
    → validate_category_fields q.book_id []
        (trim_space q.parent_id)
        q.name
        q.direction
        q.raw_source_name
        s
      ≡ some (ok tt)
unfolding validate_category_fields
validated q s h = ground (arith, trim_space_twice q.parent_id)

module _ (c : Category) (s : MemoryStore) (v : IsForest s) (f : IsFresh c.id s)
    (unused : find (has_category_id c.id) s.categories ≡ none) where
  abbrev pub created : MemoryStore
  created = record s { categories = s.categories ++ c ∷ [] }

  created_unique : UniqueCategories created
  created_unique id = AtMostOnce-snoc (has_category_id id) s.categories c (v.unique id) (λ h.
      subst (λ x. find (has_category_id x) s.categories ≡ none) ((text_eq_iff c.id id).0 h) unused)

  created_read :
      (d x : Text)
      → parent_text (find (is_category d x) created.categories) ≡ (
          if text_eq c.book_id d && text_eq c.id x
          then c.parent_id
          else parent_text (find (is_category d x) s.categories))
  created_read d x =
      ap parent_text (
        find-snoc (is_category d x) s.categories c (λ h.
          subst (λ y. find (is_category d y) s.categories ≡ none)
            (ground (arith, text_eq_iff c.id x)) (none_in_book d c.id s.categories unused)))
      ∙ ground arith

  named_elsewhere :
      (b x : Text) → text_eq (trim_space (parent_of (categories_of b s) x)) c.id ≡ false
  named_elsewhere b x =
      rw (parent_of-categories_of s b x v.unique) (go (find (is_category b x) s.categories) refl)
    where
      go :
          (o : Option Category)
          → find (is_category b x) s.categories ≡ o
          → text_eq (trim_space (parent_text o)) c.id ≡ false
      go none e = blank c.id f.filled
      go (some d) e =
          find-All (λ y. text_eq (trim_space y.parent_id) c.id ≡ false) (is_category b x)
            s.categories d e f.unnamed

  pub created-IsForest :
      (name raw : Text) (d : CategoryDirection)
      → validate_category_fields c.book_id [] c.parent_id name d raw s ≡ some (ok tt)
      → IsForest created
  created-IsForest name raw d h =
      let b = c.book_id in
      let pid = trim_space c.parent_id in
      let before = parent_of (categories_of b s) in
      let after = parent_of (categories_of b created) in
      let same : (x : Text) → text_eq x c.id ≡ false → after x ≡ before x = λ x away.
        parent_of-categories_of created b x created_unique
        ∙ created_read b x
        ∙ ground (
          arith,
          text_eq_iff x c.id,
          text_eq_iff c.id x,
          parent_of-categories_of s b x v.unique,
        ) in
      elim (validate_category_fields_accepts b [] c.parent_id name d raw s h) [
        | inl root ↦
            rebuilt-IsForest s created b c.id c.parent_id 0 v created_unique created_read root
        | inr (parent, found, unmet) ↦
            let (n, e) = v.ends b pid in
            let stored : find (is_category b pid) s.categories ≡ some parent =
              sym (find_last-categories_of s b pid v.unique) ∙ found in
            let away : text_eq pid c.id ≡ false = text_eq-false pid c.id (λ k. cc (
              subst (λ y. find (is_category b y) s.categories ≡ some parent) k stored,
              none_in_book b c.id s.categories unused,
            )) in
            rebuilt-IsForest s created b c.id c.parent_id n v created_unique created_read
              (EndsIn-apart before after c.id pid n same (named_elsewhere b) away e)
      ]

-- From a forest and with a fresh id `CreateCategory` ends, whatever is asked, and leaves a forest.
pub create_category_request-IsForest :
    (q : CreateCategoryRequest) (id : Text) (now : Time) (s : MemoryStore)
    → IsForest s
    → IsFresh id s
    → (r : Result Category × MemoryStore) × (create_category_request q id now s ≡ some r)
      × IsForest r.1
unfolding create_category_request create_category
create_category_request-IsForest q id now s v f = elim (Result-cases (may_create_category q s)) [
  | inr (e, bad) ↦ ((err e, s), ground arith, v)
  | inl (x, good) ↦
      let c = new_category q id now in
      let (r, e) =
        validate_category_fields_total q.book_id [] q.parent_id q.name q.direction q.raw_source_name
          s v in
      elim (Result-cases r) [
        | inr (x, refused) ↦ ((err x, s), ground arith, v)
        | inl (x, accepted) ↦ elim (Option-cases (find (has_category_id id) s.categories)) [
          | inr (d, used) ↦ ((err failure, s), ground arith, v)
          | inl unused ↦ (
            (ok c, record s { categories = s.categories ++ c ∷ [] }),
            ground arith,
            created-IsForest c s v f unused q.name q.raw_source_name q.direction
                (validated q s (e ∙ ap some accepted)),
          )
        ]
      ]
]
