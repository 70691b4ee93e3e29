-- ===== src/Ledger/Seed.antt =====
-- backend/internal/ledger/seed.go: the categories that a new book starts with.
use accounting.Ledger.Model.{Category, CategoryDirection, Time, expense_side, income_side}
use accounting.Prelude.{List, [], false, if◌then◌else◌, map, ℕ, ◌∷◌}
use accounting.Prelude.Text.{Text, text, text_eq}

pub record DefaultCategorySpec : Type 0 where
  pub key : Text
  pub parent_key : Text
  pub name : Text
  pub direction : CategoryDirection
  pub sort_order : ℕ

abbrev spec : Text → Text → Text → CategoryDirection → ℕ → DefaultCategorySpec
spec key parent_key name direction sort_order = record {
  key = key;
  parent_key = parent_key;
  name = name;
  direction = direction;
  sort_order = sort_order;
}

-- `defaultCategorySpecs`
unfoldable pub default_category_specs : List DefaultCategorySpec
default_category_specs =
    spec (text "expense-food") [] (text "Food & Dining") expense_side 100
    ∷ spec (text "expense-food-breakfast") (text "expense-food") (text "Breakfast") expense_side 110
    ∷ spec (text "expense-food-lunch") (text "expense-food") (text "Lunch") expense_side 120
    ∷ spec (text "expense-food-dinner") (text "expense-food") (text "Dinner") expense_side 130
    ∷ spec (text "expense-food-coffee") (text "expense-food") (text "Coffee & Drinks") expense_side
        140
    ∷ spec (text "expense-food-groceries") (text "expense-food") (text "Groceries") expense_side 150
    ∷ spec (text "expense-food-snacks") (text "expense-food") (text "Snacks") expense_side 160
    ∷ spec (text "expense-food-delivery") (text "expense-food") (text "Delivery") expense_side 170
    ∷ spec (text "expense-transport") [] (text "Transportation") expense_side 200
    ∷ spec (text "expense-transport-transit") (text "expense-transport") (text "Public Transit")
        expense_side 210
    ∷ spec (text "expense-transport-taxi") (text "expense-transport") (text "Taxi & Ride Share")
        expense_side 220
    ∷ spec (text "expense-transport-fuel") (text "expense-transport") (text "Fuel") expense_side 230
    ∷ spec (text "expense-transport-parking") (text "expense-transport") (text "Parking")
        expense_side 240
    ∷ spec (text "expense-transport-maintenance") (text "expense-transport")
        (text "Vehicle Maintenance") expense_side 250
    ∷ spec (text "expense-transport-tolls") (text "expense-transport") (text "Tolls") expense_side
        260
    ∷ spec (text "expense-shopping") [] (text "Shopping") expense_side 300
    ∷ spec (text "expense-shopping-clothing") (text "expense-shopping") (text "Clothing & Shoes")
        expense_side 310
    ∷ spec (text "expense-shopping-home") (text "expense-shopping") (text "Home Goods") expense_side
        320
    ∷ spec (text "expense-shopping-electronics") (text "expense-shopping") (text "Electronics")
        expense_side 330
    ∷ spec (text "expense-shopping-gifts") (text "expense-shopping") (text "Gifts") expense_side 340
    ∷ spec (text "expense-shopping-personal") (text "expense-shopping") (text "Personal Care")
        expense_side 350
    ∷ spec (text "expense-shopping-kids") (text "expense-shopping") (text "Baby & Kids")
        expense_side 360
    ∷ spec (text "expense-home") [] (text "Housing & Utilities") expense_side 400
    ∷ spec (text "expense-home-rent") (text "expense-home") (text "Rent or Mortgage") expense_side
        410
    ∷ spec (text "expense-home-utilities") (text "expense-home") (text "Utilities") expense_side 420
    ∷ spec (text "expense-home-internet") (text "expense-home") (text "Internet") expense_side 430
    ∷ spec (text "expense-home-phone") (text "expense-home") (text "Phone") expense_side 440
    ∷ spec (text "expense-home-repairs") (text "expense-home") (text "Repairs") expense_side 450
    ∷ spec (text "expense-home-property") (text "expense-home") (text "Property Fees") expense_side
        460
    ∷ spec (text "expense-health") [] (text "Health") expense_side 500
    ∷ spec (text "expense-health-medical") (text "expense-health") (text "Medical") expense_side 510
    ∷ spec (text "expense-health-pharmacy") (text "expense-health") (text "Pharmacy") expense_side
        520
    ∷ spec (text "expense-health-fitness") (text "expense-health") (text "Fitness") expense_side 530
    ∷ spec (text "expense-health-insurance") (text "expense-health") (text "Insurance") expense_side
        540
    ∷ spec (text "expense-life") [] (text "Life & Entertainment") expense_side 600
    ∷ spec (text "expense-life-movies") (text "expense-life") (text "Movies & Shows") expense_side
        610
    ∷ spec (text "expense-life-games") (text "expense-life") (text "Games") expense_side 620
    ∷ spec (text "expense-life-travel") (text "expense-life") (text "Travel") expense_side 630
    ∷ spec (text "expense-life-hobbies") (text "expense-life") (text "Hobbies") expense_side 640
    ∷ spec (text "expense-life-subscriptions") (text "expense-life") (text "Subscriptions")
        expense_side 650
    ∷ spec (text "expense-work") [] (text "Work & Study") expense_side 700
    ∷ spec (text "expense-work-office") (text "expense-work") (text "Office Supplies") expense_side
        710
    ∷ spec (text "expense-work-books") (text "expense-work") (text "Books") expense_side 720
    ∷ spec (text "expense-work-training") (text "expense-work") (text "Training") expense_side 730
    ∷ spec (text "expense-work-travel") (text "expense-work") (text "Business Travel") expense_side
        740
    ∷ spec (text "expense-finance") [] (text "Finance & Giving") expense_side 800
    ∷ spec (text "expense-finance-fees") (text "expense-finance") (text "Bank Fees") expense_side
        810
    ∷ spec (text "expense-finance-interest") (text "expense-finance") (text "Interest Paid")
        expense_side 820
    ∷ spec (text "expense-finance-taxes") (text "expense-finance") (text "Taxes") expense_side 830
    ∷ spec (text "expense-finance-charity") (text "expense-finance") (text "Charity") expense_side
        840
    ∷ spec (text "income-work") [] (text "Work Income") income_side 1000
    ∷ spec (text "income-work-salary") (text "income-work") (text "Salary") income_side 1010
    ∷ spec (text "income-work-bonus") (text "income-work") (text "Bonus") income_side 1020
    ∷ spec (text "income-work-freelance") (text "income-work") (text "Freelance") income_side 1030
    ∷ spec (text "income-work-reimbursement") (text "income-work") (text "Reimbursement")
        income_side 1040
    ∷ spec (text "income-work-benefits") (text "income-work") (text "Benefits") income_side 1050
    ∷ spec (text "income-investment") [] (text "Investment Income") income_side 1100
    ∷ spec (text "income-investment-interest") (text "income-investment") (text "Interest")
        income_side 1110
    ∷ spec (text "income-investment-dividends") (text "income-investment") (text "Dividends")
        income_side 1120
    ∷ spec (text "income-investment-gains") (text "income-investment") (text "Capital Gains")
        income_side 1130
    ∷ spec (text "income-other") [] (text "Other Income") income_side 1200
    ∷ spec (text "income-other-gifts") (text "income-other") (text "Gifts Received") income_side
        1210
    ∷ spec (text "income-other-refunds") (text "income-other") (text "Refunds") income_side 1220
    ∷ spec (text "income-other-cashback") (text "income-other") (text "Cashback") income_side 1230
    ∷ spec (text "income-other-misc") (text "income-other") (text "Other Income") income_side 1240
    ∷ []

-- The map from a key to its id: a key that is not in the table reads as the empty id.
unfoldable pub id_of_key : (Text → Text) → List DefaultCategorySpec → Text → Text
id_of_key id_for [] key = []
id_of_key id_for (c ∷ cs) key = if text_eq c.key key then id_for key else id_of_key id_for cs key

default_category : (Text → Text) → Text → Time → DefaultCategorySpec → Category
unfolding id_of_key default_category_specs
default_category id_for book_id now c = record {
  id = id_of_key id_for default_category_specs c.key;
  book_id = book_id;
  parent_id = id_of_key id_for default_category_specs c.parent_key;
  name = c.name;
  direction = c.direction;
  sort_order = c.sort_order;
  archived = false;
  raw_source_name = [];
  created_at = now;
  updated_at = now;
}

-- `defaultBookCategories`; `id_for` makes the id of each key.
unfoldable pub default_book_categories : Text → Time → (Text → Text) → List Category
unfolding default_category default_category_specs
default_book_categories book_id now id_for =
    map (default_category id_for book_id now) default_category_specs
