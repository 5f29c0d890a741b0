-- ===== src/MealPlan/Tests.antt =====
-- A week with three entries, two of them for the same dinner, and the theorem at that dinner.
use Prim.Native.String.{[] as nil, ◌∷◌ as chars}
use tidyboard.Prelude.{
  ◌≡◌, refl, ℕ, zero, suc, ap, List, [], ◌∷◌, Option, none, some, String, arith,
}
use tidyboard.MealPlan.{MealPlanEntry, entries_to_grid, fill}
use tidyboard.MealPlan.Week.{Calendar, monday, entry_ids, meta_of, meal_plan_range}
use tidyboard.MealPlan.Grid.{cell, latest, entries_to_grid-latest}

abbrev days : List String
days =
    "2026-01-05" ∷ "2026-01-06" ∷ "2026-01-07" ∷ "2026-01-08" ∷ "2026-01-09" ∷ "2026-01-10"
    ∷ "2026-01-11" ∷ []

abbrev entry : String → Option String → MealPlanEntry
entry id recipe_id = record {
  id = id;
  recipe_id = recipe_id;
  date = "2026-01-06";
  slot = "dinner";
  serving_multiplier = none;
  batch_quantity = none;
  planned_leftovers = none;
}

abbrev entries : List MealPlanEntry
entries = entry "1" (some "soup") ∷ entry "2" (some "pasta") ∷ entry "3" (none) ∷ []

grid_tests :
    (cell (entries_to_grid days entries) 2 1 ≡ some (some "pasta"))
    × (cell (entries_to_grid days entries) 0 1 ≡ some none)
    × (cell (entries_to_grid days entries) 4 1 ≡ none)
unfolding entries_to_grid fill
grid_tests = (refl, refl, refl)

entries_to_grid-latest_example :
    cell (entries_to_grid days entries) 2 1 ≡ some (latest days 2 1 entries)
entries_to_grid-latest_example = entries_to_grid-latest days entries 2 1 (omega arith) (omega arith)

-- A calendar that writes a day number as so many strokes.
abbrev strokes : ℕ → String
strokes zero = nil
strokes (suc n) = chars "|" (strokes n)

abbrev count_strokes : String → ℕ
count_strokes nil = 0
count_strokes (chars c s) = suc (count_strokes s)

count_strokes-strokes : (n : ℕ) → count_strokes (strokes n) ≡ n
count_strokes-strokes zero = refl
count_strokes-strokes (suc n) = ap suc (count_strokes-strokes n)

abbrev calendar : Calendar
calendar = record {
  iso = strokes;
  day = λ s. some (count_strokes s);
  day-iso = λ n. ap some (count_strokes-strokes n);
}

-- The days 7, 10 and 13 are the Monday, the Thursday and the Sunday of one week.
week_tests :
    (monday 7 ≡ 7)
    × (monday 10 ≡ 7)
    × (monday 13 ≡ 7)
    × (entry_ids days entries [] ≡ ("2026-01-06|dinner", meta_of (entry "2" (some "pasta"))) ∷ [])
    × (meal_plan_range calendar 10 none ≡ some (strokes 7, strokes 13))
week_tests = (refl, refl, refl, refl, refl)
