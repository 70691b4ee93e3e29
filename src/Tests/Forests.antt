-- ===== src/Tests/Forests.antt =====
-- Two categories, one below the other.
use accounting.Ledger.Model.{Category, expense_side}
use accounting.Ledger.Service.Categories.{
  CreateCategoryRequest, UpdateCategoryRequest, check_category_fields, create_category_request,
  find_last, has_category_id, parent_of, update_category_request, validate_category_fields,
}
use accounting.Ledger.Service.Categories.Ancestors.{EndsIn}
use accounting.Ledger.Service.Categories.Creation.{
  IsFresh, create_category_request-IsForest, created-IsForest,
}
use accounting.Ledger.Service.Categories.Forest.{IsForest}
use accounting.Ledger.Service.Categories.Requests.{update_category_request-IsForest}
use accounting.Ledger.Store.{MemoryStore}
use accounting.Ledger.Store.Items.{categories_of}
use accounting.Prelude.{[], false, find, none, refl, some, sort_by, ℕ, ◌++◌, ◌∷◌, ◌≡◌}
use accounting.Prelude.Result.{Result, ok}
use accounting.Prelude.Text.{Text, text, text_eq, trim_left, trim_right, trim_space}
use accounting.Tests.EntryData.{ledger}

abbrev none_yet : MemoryStore
none_yet = record ledger { categories = [] }

no_parents : (b id : Text) → (n : ℕ) × EndsIn (parent_of (categories_of b none_yet)) n id
unfolding categories_of parent_of find_last sort_by trim_space trim_left trim_right
no_parents b [] = (0, refl)
no_parents b (c ∷ id) = (1, (refl, refl))

none_yet-IsForest : IsForest none_yet
none_yet-IsForest = record { unique = λ id. tt; ends = no_parents }

abbrev add_food : CreateCategoryRequest
add_food = record {
  actor = record { user_id = text "alice" };
  book_id = text "home";
  parent_id = [];
  name = text "Food";
  direction = expense_side;
  sort_order = 1;
  raw_source_name = [];
}

abbrev food : Category
food = record {
  id = text "food";
  book_id = text "home";
  parent_id = [];
  name = text "Food";
  direction = expense_side;
  sort_order = 1;
  archived = false;
  raw_source_name = [];
  created_at = 5;
  updated_at = 5;
}

abbrev with_food : MemoryStore
with_food = record none_yet { categories = [] ++ food ∷ [] }

food-IsFresh : IsFresh (text "food") none_yet
food-IsFresh = record { filled = refl; unnamed = tt }

food-checked :
    validate_category_fields (text "home") [] [] (text "Food") expense_side [] none_yet
    ≡ some (ok tt)
unfolding validate_category_fields check_category_fields trim_space trim_left trim_right
food-checked = refl

no_food : find (has_category_id (text "food")) none_yet.categories ≡ none
unfolding find
no_food = refl

with_food-IsForest : IsForest with_food
with_food-IsForest =
    created-IsForest food none_yet none_yet-IsForest food-IsFresh no_food (text "Food") []
      expense_side food-checked

abbrev add_bread : CreateCategoryRequest
add_bread = record add_food { parent_id = text "food"; name = text "Bread" }

bread-IsFresh : IsFresh (text "bread") with_food
unfolding trim_space trim_left trim_right text_eq
bread-IsFresh = record { filled = refl; unnamed = (refl, tt) }

create_category_request-IsForest_example :
    (r : Result Category × MemoryStore) × (create_category_request add_bread
        (text "bread")
        6
        with_food
      ≡ some r)
    × IsForest r.1
create_category_request-IsForest_example =
    create_category_request-IsForest add_bread (text "bread") 6 with_food with_food-IsForest
      bread-IsFresh

-- Food below itself.
abbrev curl_food : UpdateCategoryRequest
curl_food = record {
  actor = record { user_id = text "alice" };
  book_id = text "home";
  category_id = text "food";
  parent_id = some (text "food");
  name = none;
  direction = none;
  sort_order = none;
  archived = none;
  raw_source_name = none;
}

update_category_request-IsForest_example :
    (r : Result Category × MemoryStore) × (update_category_request curl_food 7 with_food ≡ some r)
    × IsForest r.1
update_category_request-IsForest_example =
    update_category_request-IsForest curl_food 7 with_food with_food-IsForest
