-- ===== src/Planner.antt =====
-- web/src/components/screens/recipes.tsx, `MealPlan`: the week's grid on the screen, over loads of the plan and
-- taps, with the requests that the taps make; and the copy of last week's meals. Dates are the calendar of
-- MealPlan/Week. A hole that a write past the end of a row leaves is null here. The dialogs, the status of
-- the two buttons and the suggestions of an AI, which change nothing of this, are left out.
mod Copy
mod Picks
mod Reload
mod Tests
use tidyboard.Prelude.{
  ℕ, zero, suc, ◌+◌, Bool, true, false, List, [], ◌∷◌, ◌++◌, Option, none, some, String, truthy,
  ◌+++◌, str_eq, if◌then◌else◌, or_else,
}
use tidyboard.Api.Query.{given}
use tidyboard.Api.Request.{Json}
use tidyboard.MealPlan.{Grid}
use tidyboard.MealPlan.Grid.{cell, get_elem?}
use tidyboard.MealPlan.Week.{Calendar, WeekPlan, MealPlanEntryMeta}

pub record MealSlot : Type 0 where
  pub row_idx : ℕ
  pub col_idx : ℕ
  pub date : String

-- What `onSave` of the popover gives.
pub record Tuning : Type 0 where
  pub serving_multiplier : Json
  pub batch_quantity : Json
  pub planned_leftovers : Json

-- The variables of the two mutations.
pub record Upsert : Type 0 where
  pub date : String
  pub slot : String
  pub recipe_id : Option String
  pub tuning : Option Tuning

pub data Sent : Type 0 where
  upserts : Upsert → Sent
  deletes : String → Sent

-- `ROW_SLOTS[rowIdx] ?? "dinner"`
abbrev pub slot_name : ℕ → String
slot_name zero = "breakfast"
slot_name (suc zero) = "lunch"
slot_name (suc (suc zero)) = "dinner"
slot_name (suc (suc (suc zero))) = "snack"
slot_name (suc (suc (suc (suc n)))) = "dinner"

-- A write into a list, which grows to hold it.
abbrev pub put_at {ℓ} : {A : Type ℓ} → A → ℕ → (A → A) → List A → List A
put_at z zero f [] = f z ∷ []
put_at z zero f (x ∷ xs) = f x ∷ xs
put_at z (suc n) f [] = z ∷ put_at z n f []
put_at z (suc n) f (x ∷ xs) = x ∷ put_at z n f xs

-- `next[rowIdx][colIdx] = value`
abbrev pub set_cell : ℕ → ℕ → Option String → Grid → Grid
set_cell row col value grid = put_at [] row (put_at none col (λ _. value)) grid

abbrev pub or_grid : Grid → Grid → Grid
or_grid [] other = other
or_grid (row ∷ rows) other = row ∷ rows

abbrev pub lookup_meta : String → List (String × MealPlanEntryMeta) → Option MealPlanEntryMeta
lookup_meta key [] = none
lookup_meta key ((k, m) ∷ rest) = if str_eq k key then some m else lookup_meta key rest

-- `…[rowIdx]?.[colIdx] ?? null`
abbrev pub recipe_at : MealSlot → Grid → Option String
recipe_at s grid = or_else (cell grid s.row_idx s.col_idx) none

module _ (cal : Calendar) where
  -- `colDate`; none where `toISOString` throws, on an invalid date.
  abbrev pub col_date : String → ℕ → Option String
  col_date week_of col_idx = go (cal.day week_of)
    where
      go : Option ℕ → Option String
      go none = none
      go (some d) = some (cal.iso (d + col_idx))

  -- The component's state, and what it asked the server for, the latest first.
  pub record Planner : Type 0 where
    pub meal_plan : Option (WeekPlan cal)
    pub local_grid : Grid
    pub seeded_week : Option String
    pub picker_slot : Option MealSlot
    pub edit_slot : Option MealSlot
    pub sent : List Sent

  pub data PlanEvent : Type 0 where
    loaded : WeekPlan cal → PlanEvent
    open_cell : MealSlot → PlanEvent
    pick : String → PlanEvent
    clear : ℕ → ℕ → PlanEvent
    edit_save : Tuning → PlanEvent
    edit_delete close : PlanEvent

  abbrev pub is_week : Option String → String → Bool
  is_week none w = false
  is_week (some v) w = str_eq w v

  abbrev pub plan_grid : Option (WeekPlan cal) → Grid
  plan_grid none = []
  plan_grid (some p) = p.grid

  -- `displayGrid`
  abbrev pub display_grid : Planner → Grid
  display_grid k = or_grid k.local_grid (plan_grid k.meal_plan)

  -- "Seed local grid from API data when it arrives".
  abbrev pub seeded : WeekPlan cal → Planner → Planner
  seeded p k =
      let same = is_week k.seeded_week p.week_of in
      record {
        meal_plan = some p;
        local_grid = if same then k.local_grid else p.grid;
        seeded_week = some p.week_of;
        picker_slot = k.picker_slot;
        edit_slot = k.edit_slot;
        sent = k.sent;
      }

  abbrev pub with_slots : Option MealSlot → Option MealSlot → Planner → Planner
  with_slots picker edit k = record {
    meal_plan = k.meal_plan;
    local_grid = k.local_grid;
    seeded_week = k.seeded_week;
    picker_slot = picker;
    edit_slot = edit;
    sent = k.sent;
  }

  abbrev pub with_grid : Grid → Planner → Planner
  with_grid grid k = record {
    meal_plan = k.meal_plan;
    local_grid = grid;
    seeded_week = k.seeded_week;
    picker_slot = k.picker_slot;
    edit_slot = k.edit_slot;
    sent = k.sent;
  }

  abbrev pub sends : Sent → Planner → Planner
  sends r k = record {
    meal_plan = k.meal_plan;
    local_grid = k.local_grid;
    seeded_week = k.seeded_week;
    picker_slot = k.picker_slot;
    edit_slot = k.edit_slot;
    sent = r ∷ k.sent;
  }

  -- `openPicker`
  abbrev pub open_picker : MealSlot → Planner → Planner
  open_picker s k =
      if given (recipe_at s (display_grid k))
      then with_slots k.picker_slot (some s) k
      else with_slots (some s) k.edit_slot k

  -- The rest of `pickRecipe`, which throws where the date is invalid.
  abbrev pub picked : MealSlot → String → Option String → Planner → Planner
  picked s recipe_id none k = k
  picked s recipe_id (some date) k = with_slots none k.edit_slot (
      sends
        (upserts (record {
          date = date;
          slot = slot_name s.row_idx;
          recipe_id = some recipe_id;
          tuning = none;
        }))
        k)

  abbrev pub pick_recipe : String → Option MealSlot → Option (WeekPlan cal) → Planner → Planner
  pick_recipe recipe_id (some s) (some p) k =
      picked s recipe_id (col_date p.week_of s.col_idx)
        (with_grid (set_cell s.row_idx s.col_idx (some recipe_id) k.local_grid) k)
  pick_recipe recipe_id _ _ k = k

  abbrev pub clear_slot : ℕ → ℕ → Planner → Planner
  clear_slot row col k = with_grid (set_cell row col none k.local_grid) k

  abbrev pub handle_edit_save : Tuning → Option MealSlot → Option (WeekPlan cal) → Planner → Planner
  handle_edit_save values (some s) (some p) k = with_slots k.picker_slot none (
      sends
        (upserts (record {
          date = s.date;
          slot = slot_name s.row_idx;
          recipe_id = recipe_at s (or_grid k.local_grid p.grid);
          tuning = some values;
        }))
        k)
  handle_edit_save values _ _ k = k

  abbrev pub delete_meta : Option MealPlanEntryMeta → Planner → Planner
  delete_meta none k = k
  delete_meta (some m) k = if truthy m.id then sends (deletes m.id) k else k

  abbrev pub handle_edit_delete : Option MealSlot → Option (WeekPlan cal) → Planner → Planner
  handle_edit_delete (some s) (some p) k = with_slots k.picker_slot none (
      with_grid (set_cell s.row_idx s.col_idx none (or_grid k.local_grid p.grid))
        (delete_meta (lookup_meta (s.date +++ "|" +++ slot_name s.row_idx) p.entry_ids) k))
  handle_edit_delete _ _ k = k

  abbrev pub plan_step : Planner → PlanEvent → Planner
  plan_step k (loaded p) = seeded p k
  plan_step k (open_cell s) = open_picker s k
  plan_step k (pick recipe_id) = pick_recipe recipe_id k.picker_slot k.meal_plan k
  plan_step k (clear row col) = clear_slot row col k
  plan_step k (edit_save values) = handle_edit_save values k.edit_slot k.meal_plan k
  plan_step k edit_delete = handle_edit_delete k.edit_slot k.meal_plan k
  plan_step k close = with_slots none none k

  abbrev pub plan_run : Planner → List PlanEvent → Planner
  plan_run k [] = k
  plan_run k (e ∷ es) = plan_run (plan_step k e) es

  abbrev pub unloaded : Planner
  unloaded = record {
    meal_plan = none;
    local_grid = [];
    seeded_week = none;
    picker_slot = none;
    edit_slot = none;
    sent = [];
  }

  -- The requests of `handleCopyLastWeek`, when none fails: the inner loop and the outer one, from this week's
  -- day d.
  abbrev pub copy_cell : ℕ → ℕ → ℕ → Option String → List Upsert
  copy_cell d row col none = []
  copy_cell d row col (some recipe_id) =
      if truthy recipe_id
      then record {
        date = cal.iso (d + col);
        slot = slot_name row;
        recipe_id = some recipe_id;
        tuning = none;
      }
        ∷ []
      else []

  abbrev pub copy_row : ℕ → ℕ → ℕ → List (Option String) → List Upsert
  copy_row d row col [] = []
  copy_row d row col (x ∷ xs) = copy_cell d row col x ++ copy_row d row (suc col) xs

  abbrev pub copy_rows : ℕ → ℕ → Grid → List Upsert
  copy_rows d row [] = []
  copy_rows d row (xs ∷ rows) = copy_row d row 0 xs ++ copy_rows d (suc row) rows

  -- The awaited requests, by the server's answers to them: those that are sent, and whether none failed.
  abbrev pub sent_until : (ℕ → Bool) → ℕ → List Upsert → List Upsert × Bool
  sent_until answers i [] = ([], true)
  sent_until answers i (u ∷ us) =
      let (rest, fine) = sent_until answers (suc i) us in
      if answers i then (u ∷ rest, fine) else (u ∷ [], false)

  -- `handleCopyLastWeek`, on the week of the plan and last week's grid: its requests, and whether its status
  -- becomes "ok" or "error"; none where it returns at once. An invalid date throws at the first meal.
  abbrev pub handle_copy_last_week :
      (ℕ → Bool) → Option String → Option Grid → List Upsert × Option Bool
  handle_copy_last_week answers (some week_of) (some grid) =
      if truthy week_of then copies (cal.day week_of) else ([], none)
    where
      no_meal : List Upsert → Bool
      no_meal [] = true
      no_meal (u ∷ us) = false

      copies : Option ℕ → List Upsert × Option Bool
      copies none = ([], some (no_meal (copy_rows 0 0 grid)))
      copies (some d) =
          let (us, fine) = sent_until answers 0 (copy_rows d 0 grid) in (us, some fine)
  handle_copy_last_week answers _ _ = ([], none)

  -- The dates that `handleGenerateShopping` asks for.
  abbrev pub generate_range : String → Option (String × String)
  generate_range week_of = if truthy week_of then range (col_date week_of 6) else none
    where
      range : Option String → Option (String × String)
      range none = none
      range (some to) = some (week_of, to)
