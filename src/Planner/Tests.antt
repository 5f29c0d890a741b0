-- ===== src/Planner/Tests.antt =====
-- A week from the day 7 on, in a calendar that writes a day as so many strokes.
use Prim.Native.String.{[] as nil, ◌∷◌ as chars}
use tidyboard.Prelude.{
  ◌≡◌, refl, ap, ℕ, zero, suc, Bool, true, false, List, [], ◌∷◌, ◌++◌, none, some, String, map,
  arith,
}
use tidyboard.MealPlan.{Grid, empty_grid, entries_to_grid, fill}
use tidyboard.MealPlan.Grid.{cell, if_none, latest}
use tidyboard.MealPlan.Week.{Calendar, WeekPlan, week_monday, week_dates}
use tidyboard.Planner.{
  MealSlot, Upsert, upserts, Planner, loaded, open_cell, pick, clear, display_grid, seeded,
  unloaded, plan_step, plan_run, handle_copy_last_week, generate_range,
}
use tidyboard.Planner.Copy.{entry_of, meal, copy-laid_out}
use tidyboard.Planner.Picks.{Agrees, pick-Agrees}
use tidyboard.Planner.Reload.{taps, reload-unshown}

abbrev strokes : ℕ → String
strokes zero = nil
strokes (suc n) = chars "|" (strokes n)

abbrev count_strokes : String → ℕ
count_strokes nil = 0
count_strokes (chars c s) = suc (count_strokes s)

count_strokes-strokes : (n : ℕ) → count_strokes (strokes n) ≡ n
count_strokes-strokes zero = refl
count_strokes-strokes (suc n) = ap suc (count_strokes-strokes n)

abbrev calendar : Calendar
calendar = record {
  iso = strokes;
  day = λ s. some (count_strokes s);
  day-iso = λ n. ap some (count_strokes-strokes n);
}

abbrev last_week : Grid
last_week = (none ∷ some "eggs" ∷ []) ∷ [] ∷ (some "soup" ∷ some "" ∷ some "stew" ∷ []) ∷ []

abbrev copied : ℕ → String → String → Upsert
copied day slot recipe_id = record {
  date = strokes day;
  slot = slot;
  recipe_id = some recipe_id;
  tuning = none;
}

abbrev copies : List Upsert
copies = copied 8 "breakfast" "eggs" ∷ copied 7 "dinner" "soup" ∷ copied 9 "dinner" "stew" ∷ []

abbrev all_fine : ℕ → Bool
all_fine n = true

abbrev first_fine : ℕ → Bool
first_fine zero = true
first_fine (suc n) = false

abbrev plan : Grid → WeekPlan calendar
plan grid = record { week_of = strokes 7; rows = []; grid = grid; entry_ids = [] }

abbrev slot : MealSlot
slot = record { row_idx = 2; col_idx = 1; date = strokes 8 }

abbrev opened : Planner calendar
opened = plan_run calendar (unloaded calendar) (loaded (plan empty_grid) ∷ open_cell slot ∷ [])

planner_tests :
    (handle_copy_last_week calendar all_fine (some (strokes 7)) (some last_week)
      ≡ (copies, some true))
    × ((handle_copy_last_week calendar first_fine (some (strokes 7)) (some last_week)
          ≡ (copied 8 "breakfast" "eggs" ∷ copied 7 "dinner" "soup" ∷ [], some false))
        × ((generate_range calendar (strokes 7) ≡ some (strokes 7, strokes 13))
            × ((plan_step calendar opened (pick "r1")).sent
                ≡ upserts (copied 8 "dinner" "r1") ∷ [])))
planner_tests = (refl, (refl, (refl, refl)))

copy-laid_out_example :
    let days = week_dates calendar (week_monday calendar 10) in
    cell (entries_to_grid days ([] ++ map (entry_of (λ u. "e")) copies)) 2 0
    ≡ some (if_none (meal (cell last_week 2 0)) (latest days 2 0 []))
copy-laid_out_example =
    copy-laid_out calendar 10 (λ u. "e") all_fine last_week copies [] 2 0 (omega arith)
      (omega arith) (omega arith) refl

pick-Agrees_example :
    (u : Upsert) × (((plan_step calendar opened (pick "r1")).sent ≡ upserts u ∷ [])
      × ((name : Upsert → String)
          → Agrees calendar 10
              (plan_step calendar opened (pick "r1")).local_grid
              (entry_of name u ∷ [])))
unfolding entries_to_grid fill
pick-Agrees_example =
    pick-Agrees calendar 10 opened (plan empty_grid) slot "r1" [] refl refl refl (omega arith)
      (omega arith) refl (λ row col hr hc. refl)

reload-unshown_example :
    let es = loaded (plan last_week) ∷ clear 2 0 ∷ [] in
    let k = seeded calendar (plan empty_grid) (unloaded calendar) in
    display_grid calendar (plan_run calendar k es)
    ≡ display_grid calendar (plan_run calendar k (taps calendar es))
reload-unshown_example =
    reload-unshown calendar (plan empty_grid) (none ∷ none ∷ none ∷ none ∷ none ∷ none ∷ none ∷ [])
      ((none ∷ none ∷ none ∷ none ∷ none ∷ none ∷ none ∷ [])
        ∷ (none ∷ none ∷ none ∷ none ∷ none ∷ none ∷ none ∷ [])
        ∷ (none ∷ none ∷ none ∷ none ∷ none ∷ none ∷ none ∷ [])
        ∷ [])
      (loaded (plan last_week) ∷ clear 2 0 ∷ []) refl (refl, tt)
