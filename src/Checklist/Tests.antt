-- ===== src/Checklist/Tests.antt =====
-- Two aisles, a tap on an item in the view by recipe, and the failure of its toggle.
use mathlib.Core.List.{map, mem-cons_self, mem-cons_of_mem}
use tidyboard.Prelude.{
  ◌≡◌, refl, ℕ, Bool, true, false, not, List, [], ◌∷◌, Option, none, some, String,
}
use tidyboard.Prelude.Words.{Casing}
use tidyboard.MealPlan.Grid.{get_elem?}
use tidyboard.Shopping.{ShoppingItem, ShoppingCategory, Shopping}
use tidyboard.Shopping.Groups.{manual}
use tidyboard.Checklist.{Checklist, loaded, tap, answered, unseeded, list_step, list_run}
use tidyboard.Checklist.Kept.{unchecked, list_run-unchecked}
use tidyboard.Checklist.Taps.{TurnsOnly, tap-shown}

abbrev casing : Casing
casing = record { upper = λ t. t; lower = λ t. t }

abbrev item : String → Option String → Bool → ShoppingItem
item name id done = record {
  amt = "1";
  name = name;
  done = done;
  id = id;
  source_recipes = some ("Soup" ∷ []);
}

abbrev aisle : String → List ShoppingItem → ShoppingCategory
aisle name items = record { name = name; pantry = none; items = items }

abbrev groceries : Shopping
groceries = record {
  week_of = "2026-01-05";
  from_recipes = 1;
  categories =
      aisle "Dairy" (item "milk" (some "i1") false ∷ [])
      ∷ aisle "Produce" (item "leek" (some "i2") true ∷ item "herbs" none false ∷ [])
      ∷ [];
}

abbrev shown : Checklist
shown = list_step unseeded (loaded groceries)

abbrev checks : Checklist → List (List Bool)
checks k = map (λ c. map (λ i. i.done) c.items) k.categories

-- An item without an id is found by its name, in the category that it is shown in only; a second load of the
-- same week is passed over.
checklist_tests :
    (checks (list_step shown (tap (item "herbs" none false) "Produce"))
      ≡ (false ∷ []) ∷ (true ∷ true ∷ []) ∷ [])
    × ((checks (list_step shown (tap (item "herbs" none false) "Dairy")) ≡ checks shown)
        × (checks (
              list_run shown
                (tap (item "leek" (some "i2") true) "" ∷ loaded groceries ∷ answered 0 false ∷ []))
            ≡ checks shown))
checklist_tests = (refl, (refl, refl))

list_run-unchecked_example :
    map unchecked
      (list_run shown
        (tap (item "milk" (some "i1") false) "Dairy" ∷ loaded groceries ∷ [])).categories
    ≡ map unchecked (list_run shown (loaded groceries ∷ [])).categories
list_run-unchecked_example =
    list_run-unchecked shown (tap (item "milk" (some "i1") false) "Dairy" ∷ loaded groceries ∷ [])

tap-shown_example :
    let leek = item "leek" (some "i2") true in
    (cat : ShoppingCategory) × (it : ShoppingItem) × (ci : ℕ) × (ii : ℕ) × (get_elem?
        shown.categories ci
      ≡ some cat)
    × (get_elem? cat.items ii ≡ some it)
    × (it.id ≡ some "i2")
    × ((list_step shown (tap leek "All items")).sent
        ≡ record { id = it.id; category = cat.name; name = it.name; done = not it.done }
          ∷ shown.sent)
    × TurnsOnly ci ii it shown.categories (list_step shown (tap leek "All items")).categories
    × ((list_run shown (tap leek "All items" ∷ answered 0 false ∷ [])).categories
        ≡ shown.categories)
tap-shown_example =
    tap-shown casing manual shown (item "leek" (some "i2") true) "All items"
      (mem-cons_of_mem (item "milk" (some "i1") false) mem-cons_self) refl
