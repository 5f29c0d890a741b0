-- ===== src/Shopping/Tests.antt =====
-- A list of four items over two aisles, grouped and regrouped. The case tables know the letters that the
-- list needs.
use mathlib.Core.List.{map, Perm}
use tidyboard.Prelude.{
  ◌≡◌, refl, ℕ, false, List, [], ◌∷◌, some, String, str_eq, if◌then◌else◌, ◌==◌, keep,
}
use tidyboard.Prelude.Int.{ℤ, pos, negsuc}
use tidyboard.Prelude.Words.{Casing, words, trim}
use tidyboard.Sort.{sort, insert}
use tidyboard.Shopping.{
  Amounts, ApiShoppingListItem, ApiShoppingList, ShoppingCategory, title_case,
  api_shopping_list_item_to_shopping_item, api_shopping_list_to_shopping,
}
use tidyboard.Shopping.Aisles.{
  listed, categories, items_in, in_aisle, DistinctNames, categories-listed,
}
use tidyboard.Shopping.Ascending.{Ascending, Stable}
use tidyboard.Shopping.Groups.{group_shopping, recipe, manual}

abbrev casing : Casing
casing = record {
  upper = λ s. if str_eq s "p" then "P" else if str_eq s "d" then "D" else s;
  lower = λ s. if str_eq s "DAIRY" then "dairy" else if str_eq s "AIRY" then "airy" else s;
}

abbrev counts : Amounts
counts = record { Amount = ℕ; is_zero = λ n. n == 0; text = λ n. if n == 2 then "2" else "7" }

abbrev row : String → String → ℤ → List String → ApiShoppingListItem counts
row name aisle order sources = record {
  id = name;
  name = name;
  amount = 2;
  unit = "kg";
  aisle = some aisle;
  source_recipes = some sources;
  completed = false;
  sort_order = order;
}

abbrev groceries : ApiShoppingList counts
groceries = record {
  date_from = "2026-01-05";
  items = some (
      row "milk" " dairy " (pos 3) ("Pancakes" ∷ "Soup" ∷ [])
      ∷ row "salt" "pantry" (negsuc 0) ("pantry staple" ∷ [])
      ∷ row "curd" "DAIRY" (pos 1) []
      ∷ []);
}

abbrev names_of : List ShoppingCategory → List String
names_of cs = map (λ c. c.name) cs

shopping_tests :
    (words "  a bc  d " ≡ "a" ∷ "bc" ∷ "d" ∷ [])
    × (trim " a b " ≡ "a b")
    × (title_case casing " dairy  pantry" ≡ "Dairy Pantry")
    × (names_of (categories counts casing groceries) ≡ "Pantry" ∷ "Dairy" ∷ [])
    × (map (λ i. i.name) (listed "Dairy" (categories counts casing groceries))
        ≡ "curd" ∷ "milk" ∷ [])
    × ((api_shopping_list_to_shopping counts casing groceries).from_recipes ≡ 2)
    × (names_of (group_shopping casing (categories counts casing groceries) recipe)
        ≡ "Pantry staples" ∷ "Other" ∷ "Pancakes" ∷ "Soup" ∷ [])
    × (names_of (group_shopping casing (categories counts casing groceries) manual)
        ≡ "All items" ∷ [])
unfolding sort insert
shopping_tests = (refl, refl, refl, refl, refl, refl, refl, refl)

categories-listed_example :
    (xs : List (ApiShoppingListItem counts)) × (listed "Dairy" (categories counts casing groceries)
      ≡ map (api_shopping_list_item_to_shopping_item counts) xs)
    × Perm xs (keep (in_aisle counts casing "Dairy") (items_in counts casing groceries))
    × Ascending counts xs
    × Stable counts xs (keep (in_aisle counts casing "Dairy") (items_in counts casing groceries))
    × DistinctNames (categories counts casing groceries)
categories-listed_example = categories-listed counts casing groceries "Dairy"
