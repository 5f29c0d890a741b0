-- ===== src/MealPlan.antt =====
-- web/src/lib/api/hooks.ts, `entriesToMealPlan`: the flat entries that the API gives become the grid of a
-- week, one row for each slot and one column for each day. The ISO dates of the week's seven days are an
-- argument here; MealPlan/Week computes them and adds the ids and tunings that the loop records beside
-- the grid.
pub mod Grid
pub mod Week
mod Tests
use tidyboard.Prelude.{
  ℕ, zero, suc, ◌+◌, Bool, true, false, List, [], ◌∷◌, Option, none, some, String, truthy, str_eq,
  if◌then◌else◌,
}
use tidyboard.Api.Query.{given}
use tidyboard.Api.Request.{Json}

pub record MealPlanEntry : Type 0 where
  pub id : String
  pub recipe_id : Option String
  pub date : String
  pub slot : String
  pub serving_multiplier : Option Json
  pub batch_quantity : Option Json
  pub planned_leftovers : Option Json

abbrev pub Grid : Type 0
Grid = List (List (Option String))

-- `SLOT_TO_ROW_IDX`
abbrev pub slot_to_row_idx : String → Option ℕ
slot_to_row_idx slot =
    if str_eq slot "breakfast"
    then some 0
    else if str_eq slot "lunch"
    then some 1
    else if str_eq slot "dinner"
    then some 2
    else if str_eq slot "snack"
    then some 3
    else none

-- `dayIndex`: of two equal dates the later one counts.
abbrev pub day_index_from : ℕ → List String → String → Option ℕ
day_index_from i [] date = none
day_index_from i (d ∷ ds) date = later (day_index_from (i + 1) ds date)
  where
    later : Option ℕ → Option ℕ
    later (some j) = some j
    later none = if str_eq d date then some i else none

abbrev pub day_index : List String → String → Option ℕ
day_index days date = day_index_from 0 days date

abbrev pub modify {ℓ} : {A : Type ℓ} → (A → A) → ℕ → List A → List A
modify f n [] = []
modify f zero (x ∷ xs) = f x ∷ xs
modify f (suc n) (x ∷ xs) = x ∷ modify f n xs

-- `grid[row][col] = value`
abbrev pub write_cell : ℕ → ℕ → String → Grid → Grid
write_cell row col value grid = modify (modify (λ _. some value) col) row grid

abbrev pub place : Option ℕ → Option ℕ → Option String → Grid → Grid
place (some row) (some col) (some recipe_id) grid =
    if truthy recipe_id then write_cell row col recipe_id grid else grid
place _ _ _ grid = grid

-- The loop over the entries.
unfoldable pub fill : List String → Grid → List MealPlanEntry → Grid
fill days grid [] = grid
fill days grid (e ∷ es) =
    fill days (place (slot_to_row_idx e.slot) (day_index days e.date) e.recipe_id grid) es

abbrev pub replicate {ℓ} : {A : Type ℓ} → ℕ → A → List A
replicate zero x = []
replicate (suc n) x = x ∷ replicate n x

abbrev pub empty_row : List (Option String)
empty_row = replicate 7 none

abbrev pub empty_grid : Grid
empty_grid = replicate 4 empty_row

-- The grid of `entriesToMealPlan`.
unfoldable pub entries_to_grid : List String → List MealPlanEntry → Grid
unfolding fill
entries_to_grid days entries = fill days empty_grid entries
