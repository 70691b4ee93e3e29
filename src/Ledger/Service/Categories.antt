-- ===== src/Ledger/Service/Categories.antt =====
-- backend/internal/ledger/accounts_categories.go: the categories of a book. The loop that follows the
-- parents of a category takes fuel; `none` is a request that does not end within it.
pub mod Ancestors
pub mod Parents
pub mod Forest
pub mod Requests
pub mod Creation
use mathlib.Core.Option
use accounting.Ledger.Model.{
  Actor, BookMember, Category, CategoryDirection, Time, expense_side, income_side, is_manager,
  other_side,
}
use accounting.Ledger.Page.{Page, paginate}
use accounting.Ledger.Store.{M, MemoryStore}
use accounting.Ledger.Store.Books.{member_of}
use accounting.Ledger.Store.Items.{categories_of, create_category, update_category}
use accounting.Prelude.{
  Bool, List, Option, [], false, find, if◌then◌else◌, is_some, length, ltb, map, none, not,
  or_default, some, suc, true, zero, ℕ, ◌+◌, ◌||◌, ◌∷◌,
}
use accounting.Prelude.Result.{
  Result, access_denied, err, fail_if, from_option, invalid_input, not_found, ok, or_fail,
}
use accounting.Prelude.Result.Pure.{◌>>=◌, ◌>>◌}
use accounting.Prelude.Text.{Text, is_empty, text_eq, trim_space}

pub record CreateCategoryRequest : Type 0 where
  pub actor : Actor
  pub book_id : Text
  pub parent_id : Text
  pub name : Text
  pub direction : CategoryDirection
  pub sort_order : ℕ
  pub raw_source_name : Text

pub record UpdateCategoryRequest : Type 0 where
  pub actor : Actor
  pub book_id : Text
  pub category_id : Text
  pub parent_id : Option Text
  pub name : Option Text
  pub direction : Option CategoryDirection
  pub sort_order : Option ℕ
  pub archived : Option Bool
  pub raw_source_name : Option Text

abbrev pub max_category_name_length : ℕ
max_category_name_length = 120

abbrev pub max_category_raw_source_length : ℕ
max_category_raw_source_length = 240

abbrev is_either_side : CategoryDirection → Bool
is_either_side (other_side _) = false
is_either_side _ = true

abbrev pub same_side : CategoryDirection → CategoryDirection → Bool
same_side expense_side expense_side = true
same_side income_side income_side = true
same_side (other_side s) (other_side t) = text_eq s t
same_side _ _ = false

-- The checks of `validateCategoryFields` that read no category.
unfoldable pub check_category_fields : Text → CategoryDirection → Text → Result (Unit {0})
check_category_fields name direction raw_source_name = do
  fail_if (is_empty (trim_space name)) invalid_input
  fail_if (ltb max_category_name_length (length (trim_space name))) invalid_input
  fail_if (not (is_either_side direction)) invalid_input
  fail_if (ltb max_category_raw_source_length (length (trim_space raw_source_name))) invalid_input

abbrev pub has_category_id : Text → Category → Bool
has_category_id id c = text_eq c.id id

-- The last match: the later write to a map, and a loop with no `break`.
unfoldable pub find_last : {A : Type 0} → (A → Bool) → List A → Option A
find_last p [] = none
find_last p (x ∷ xs) = elim (find_last p xs) [
  | some y ↦ some y
  | none ↦ if p x then some x else none
]

abbrev pub parent_text : Option Category → Text
parent_text none = []
parent_text (some c) = c.parent_id

-- `categoryParents[id]`
unfoldable pub parent_of : List Category → Text → Text
parent_of categories id = parent_text (find_last (has_category_id id) categories)

-- The loop over the ancestors: whether it meets the category.
unfoldable pub meets : ℕ → (Text → Text) → Text → Text → Option Bool
meets zero parents category_id ancestor_id = none
meets (suc fuel) parents category_id ancestor_id =
    let rest = meets fuel parents category_id (trim_space (parents ancestor_id)) in
    if is_empty ancestor_id
    then some false
    else if text_eq ancestor_id category_id
    then some true
    else rest

abbrev pub cycle_error : Bool → Result (Unit {0})
cycle_error met = fail_if met invalid_input

-- The checks of `validateCategoryFields` of a parent that is given.
unfoldable pub validate_parent :
    Text → Text → CategoryDirection → List Category → Option (Result (Unit {0}))
validate_parent category_id parent_id direction categories =
    if text_eq parent_id category_id
    then some (err invalid_input)
    else elim (find_last (has_category_id parent_id) categories) [
      | none ↦ some (err not_found)
      | some parent ↦
          if not (same_side parent.direction direction)
          then some (err invalid_input)
          else Option.map cycle_error
              (meets (length categories + 2) (parent_of categories) category_id parent_id)
    ]

-- `validateCategoryFields`
unfoldable pub validate_category_fields :
    Text → Text → Text → Text → CategoryDirection → Text → MemoryStore → Option (Result (Unit {0}))
validate_category_fields book_id category_id parent_id name direction raw_source_name s =
    elim (check_category_fields name direction raw_source_name) [
      | err e ↦ some (err e)
      | ok _ ↦
          if is_empty (trim_space parent_id)
          then some (ok tt)
          else validate_parent (trim_space category_id) (trim_space parent_id) direction
              (categories_of book_id s)
    ]

-- The guards in front of `CreateCategory`.
unfoldable pub may_manage_categories : Actor → Text → MemoryStore → Result (Unit {0})
may_manage_categories actor book_id s = do
  m ← or_fail access_denied (member_of book_id actor.user_id s)
  fail_if (not (is_manager m.role)) access_denied

abbrev pub new_category : CreateCategoryRequest → Text → Time → Category
new_category r id now = record {
  id = id;
  book_id = r.book_id;
  parent_id = trim_space r.parent_id;
  name = trim_space r.name;
  direction = r.direction;
  sort_order = r.sort_order;
  archived = false;
  raw_source_name = trim_space r.raw_source_name;
  created_at = now;
  updated_at = now;
}

-- The checks of `CreateCategory`.
unfoldable pub may_create_category : CreateCategoryRequest → MemoryStore → Result (Unit {0})
may_create_category r s = do
  fail_if (is_empty r.actor.user_id) invalid_input
  fail_if (is_empty r.book_id) invalid_input
  may_manage_categories r.actor r.book_id s

-- A write behind a check that may not end.
abbrev pub save_if :
    Category
    → (Category → M Category)
    → MemoryStore
    → Option (Result (Unit {0}))
    → Option (Result Category × MemoryStore)
save_if c save s none = none
save_if c save s (some (err e)) = some (err e, s)
save_if c save s (some (ok _)) = some (save c s)

-- `CreateCategory`
unfoldable pub create_category_request :
    CreateCategoryRequest → Text → Time → MemoryStore → Option (Result Category × MemoryStore)
create_category_request r id now s = elim (may_create_category r s) [
  | err e ↦ some (err e, s)
  | ok _ ↦
      save_if (new_category r id now) create_category s
        (validate_category_fields r.book_id [] r.parent_id r.name r.direction r.raw_source_name s)
]

-- `updateCategoryRequestHasFields`
unfoldable pub update_category_request_has_fields : UpdateCategoryRequest → Bool
update_category_request_has_fields r =
    is_some r.parent_id
    || is_some r.name
    || is_some r.direction
    || is_some r.sort_order
    || is_some r.archived
    || is_some r.raw_source_name

abbrev trimmed : Option Text → Option Text
trimmed none = none
trimmed (some t) = some (trim_space t)

-- `patchCategory`
abbrev pub patch_category : UpdateCategoryRequest → Category → Category
patch_category r c = record c {
  parent_id = or_default (trimmed r.parent_id) c.parent_id;
  name = or_default (trimmed r.name) c.name;
  direction = or_default r.direction c.direction;
  sort_order = or_default r.sort_order c.sort_order;
  archived = or_default r.archived c.archived;
  raw_source_name = or_default (trimmed r.raw_source_name) c.raw_source_name;
}

-- `categoryByID`
unfoldable pub category_by_id : Text → Text → MemoryStore → Result Category
category_by_id book_id category_id s =
    from_option not_found (find (has_category_id category_id) (categories_of book_id s))

-- The reads and guards of `UpdateCategory` up to the patched category.
unfoldable pub category_to_update : UpdateCategoryRequest → MemoryStore → Result Category
category_to_update r s = do
  fail_if (is_empty r.actor.user_id) invalid_input
  fail_if (is_empty r.book_id) invalid_input
  fail_if (is_empty r.category_id) invalid_input
  fail_if (not (update_category_request_has_fields r)) invalid_input
  may_manage_categories r.actor r.book_id s
  c ← category_by_id r.book_id r.category_id s
  ok (patch_category r c)

-- `UpdateCategory`
unfoldable pub update_category_request :
    UpdateCategoryRequest → Time → MemoryStore → Option (Result Category × MemoryStore)
update_category_request r now s = elim (category_to_update r s) [
  | err e ↦ some (err e, s)
  | ok c ↦
      save_if (record c { updated_at = now }) update_category s
        (validate_category_fields r.book_id r.category_id c.parent_id c.name c.direction
          c.raw_source_name s)
]

pub record ListCategoriesRequest : Type 0 where
  pub actor : Actor
  pub book_id : Text
  pub page : ℕ
  pub page_size : ℕ

-- The checks of `ListCategories`.
may_list : ListCategoriesRequest → MemoryStore → Result BookMember
may_list r s = do
  fail_if (is_empty r.actor.user_id) invalid_input
  fail_if (is_empty r.book_id) invalid_input
  or_fail access_denied (member_of r.book_id r.actor.user_id s)

-- `ListCategories`; the outer `Option` is the panic of `paginate`.
unfoldable pub list_categories :
    ListCategoriesRequest → MemoryStore → Option (Result (Page Category))
unfolding may_list
list_categories r s = elim (may_list r s) [
  | err e ↦ some (err e)
  | ok _ ↦ Option.map (λ p. ok p) (paginate (categories_of r.book_id s) r.page r.page_size)
]
