-- ===== src/Ledger/Service/Categories/Forest.antt =====
-- The categories of a book form a forest: no chain of parents runs in a circle.
use accounting.Ledger.Model.{Category, CategoryDirection}
use accounting.Ledger.Service.Categories.{
  check_category_fields, cycle_error, find_last, has_category_id, meets, parent_of, parent_text,
  same_side, validate_category_fields, validate_parent,
}
use accounting.Ledger.Service.Categories.Ancestors.{EndsIn, EndsIn-le, EndsIn-redirect, meets_total}
use accounting.Ledger.Service.Categories.Parents.{UniqueCategories, parent_of-categories_of}
use accounting.Ledger.Store.{MemoryStore}
use accounting.Ledger.Store.Items.{categories_of, is_category}
use accounting.Prelude.{
  Bool, Bool-cases, Option-cases, ap, arith, false, find, if◌then◌else◌, inl, inr, length, refl,
  some, subst, sym, true, ℕ, ◌&&◌, ◌+◌, ◌∙◌, ◌≡◌, ◌⊎◌,
}
use accounting.Prelude.Result.{Result, Result-cases, err, invalid_input, not_found, ok}
use accounting.Prelude.Text.{Text, is_empty, text_eq, text_eq_iff, text_eq_refl, trim_space}
use mathlib.Core.Path.{fun_ext}

pub record IsForest (s : MemoryStore) : Type 0 where
  pub unique : UniqueCategories s
  pub ends : (b id : Text) → (n : ℕ) × EndsIn (parent_of (categories_of b s)) n id

-- The fuel of the loop is enough.
meets_ends :
    (s : MemoryStore) (b category_id id : Text)
    → IsForest s
    → let cs = categories_of b s in
      (met : Bool) × (meets (length cs + 2) (parent_of cs) category_id id ≡ some met)
meets_ends s b category_id id v =
    let cs = categories_of b s in
    let (n, e) = v.ends b id in
    meets_total (parent_of cs) category_id id n (length cs + 2) e
      (omega (arith, EndsIn-le n cs id e))

validate_parent_total :
    (s : MemoryStore) (b category_id id : Text) (d : CategoryDirection)
    → IsForest s
    → (r : Result (Unit {0})) × (validate_parent category_id id d (categories_of b s) ≡ some r)
unfolding validate_parent
validate_parent_total s b category_id id d v =
    let (met, e) = meets_ends s b category_id id v in
    elim (Bool-cases (text_eq id category_id)) [
      | inl own ↦ (err invalid_input, rw own refl)
      | inr other ↦ elim (Option-cases (find_last (has_category_id id) (categories_of b s))) [
        | inl gone ↦ (err not_found, rw (other, gone) refl)
        | inr (parent, found) ↦ elim (Bool-cases (same_side parent.direction d)) [
          | inl same ↦ (cycle_error met, rw (other, found, same, e) refl)
          | inr differs ↦ (err invalid_input, rw (other, found, differs) refl)
        ]
      ]
    ]

pub validate_category_fields_total :
    (b category_id parent_id name : Text) (d : CategoryDirection) (raw : Text) (s : MemoryStore)
    → IsForest s
    → (r : Result (Unit {0})) × (validate_category_fields b category_id parent_id name d raw s
        ≡ some r)
unfolding validate_category_fields
validate_category_fields_total b category_id parent_id name d raw s v =
    elim (Result-cases (check_category_fields name d raw)) [
      | inr (e, bad) ↦ (err e, ground arith)
      | inl (x, good) ↦
          let (r, e) =
            validate_parent_total s b (trim_space category_id) (trim_space parent_id) d v in
          elim (Bool-cases (is_empty (trim_space parent_id))) [
            | inl root ↦ (ok tt, ground arith)
            | inr child ↦ (r, ground arith)
          ]
    ]

-- What an accepted parent is: none, or one whose chain does not meet the category.
pub validate_category_fields_accepts :
    (b category_id parent_id name : Text) (d : CategoryDirection) (raw : Text) (s : MemoryStore)
    → validate_category_fields b category_id parent_id name d raw s ≡ some (ok tt)
    → let cs = categories_of b s in
      (is_empty (trim_space parent_id) ≡ true)
      ⊎ ((c : Category) × (find_last (has_category_id (trim_space parent_id)) cs ≡ some c)
          × (meets (length cs + 2) (parent_of cs) (trim_space category_id) (trim_space parent_id)
              ≡ some false))
unfolding validate_category_fields validate_parent
validate_category_fields_accepts b category_id parent_id name d raw s h =
    let cs = categories_of b s in
    elim (Bool-cases (is_empty (trim_space parent_id))) [
      | inl root ↦ inl root
      | inr child ↦ elim (Option-cases (find_last (has_category_id (trim_space parent_id)) cs)) [
        | inl gone ↦ absurd (ground arith)
        | inr (c, found) ↦ inr (c, found, ground arith)
      ]
    ]

-- A change of the parent of one category in one book, behind which the chain ends.
pub rebuilt-IsForest :
    (s t : MemoryStore) (b id parent_id : Text) (m : ℕ)
    → IsForest s
    → UniqueCategories t
    → ((d x : Text)
        → parent_text (find (is_category d x) t.categories) ≡ (
            if text_eq b d && text_eq id x
            then parent_id
            else parent_text (find (is_category d x) s.categories)))
    → EndsIn (parent_of (categories_of b t)) m (trim_space parent_id)
    → IsForest t
rebuilt-IsForest s t b id parent_id m v u as_read new = record { unique = u; ends = ends' }
  where
    before : Text → Text → Text
    before d = parent_of (categories_of d s)

    after : Text → Text → Text
    after d = parent_of (categories_of d t)

    step :
        (d x : Text) → after d x ≡ (if text_eq b d && text_eq id x then parent_id else before d x)
    step d x =
        parent_of-categories_of t d x u
        ∙ as_read d x
        ∙ sym (
            ap (λ y. if text_eq b d && text_eq id x then parent_id else y)
              (parent_of-categories_of s d x v.unique))

    ends' : (d x : Text) → (n : ℕ) × EndsIn (after d) n x
    ends' d x = elim (Bool-cases (text_eq b d)) [
      | inr other ↦
          let same : before d ≡ after d = fun_ext (λ y. sym (step d y ∙ ground arith)) in
          subst (λ f. (n : ℕ) × EndsIn f n x) same (v.ends d x)
      | inl here ↦
          let book : b ≡ d = (text_eq_iff b d).0 here in
          let own : after b id ≡ parent_id =
            step b id ∙ ground (arith, text_eq_refl b, text_eq_refl id) in
          let (n, e) = v.ends b x in
          subst (λ c. (n : ℕ) × EndsIn (after c) n x) book
            (EndsIn-redirect (before b) (after b) id x m n
              (λ y away. step b y ∙ ground (arith, text_eq_iff y id, text_eq_iff id y))
              (subst (λ y. EndsIn (after b) m (trim_space y)) (sym own) new) e)
    ]
