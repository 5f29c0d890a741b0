-- ===== src/MealPlan/Week.antt =====
-- web/src/lib/api/hooks.ts, `weekMonday`, the dates of `entriesToMealPlan` and of `useMealPlan`. A date is
-- its number of days since Monday, January 1st of the year 1; the browser's two conversions between a
-- date and its ISO text are a parameter.
use tidyboard.Prelude.{
  ℕ, zero, suc, ◌+◌, ◌-◌, ◌*◌, ◌/◌, ◌%◌, ◌≡◌, ◌∙◌, refl, ap, ap₂, sym, Bool, ◌&&◌, List, [], ◌∷◌,
  Option, none, some, String, if◌then◌else◌, str_eq, is_some, ◌+++◌, eq_iff, leb, ltb, ◌==◌, ==_iff,
  or_else, arith, Bool-cases, inl, inr,
}
use tidyboard.Api.Query.{given}
use tidyboard.Api.Request.{Json}
use tidyboard.MealPlan.{
  slot_to_row_idx, MealPlanEntry, Grid, day_index, day_index_from, entries_to_grid, empty_grid,
}

-- `d.toISOString().slice(0, 10)`, and `new Date(text)`, none for an invalid date: the one reads back what
-- the other writes.
pub record Calendar : Type 0 where
  pub iso : ℕ → String
  pub day : String → Option ℕ
  pub day-iso : (n : ℕ) → day (iso n) ≡ some n

-- `getUTCDay()`: 0 is Sunday.
abbrev pub get_utc_day : ℕ → ℕ
get_utc_day n = (n + 1) % 7

-- `setUTCDate(getUTCDate() + (day === 0 ? -6 : 1 - day))`
abbrev pub monday : ℕ → ℕ
monday n = if get_utc_day n == 0 then n - 6 else n + 1 - get_utc_day n

pub monday-start : (n : ℕ) → monday n ≡ 7 * (n / 7)
monday-start n = ground arith

abbrev later_index : ℕ → Bool → Option ℕ → Option ℕ
later_index i same (some j) = some j
later_index i same none = if same then some i else none

next_index :
    (i m k d : ℕ)
    → later_index i
        (m == d)
        (if leb (m + 1) d && ltb d (m + 1 + k) then some (i + 1 + (d - (m + 1))) else none)
      ≡ (if leb m d && ltb d (m + suc k) then some (i + (d - m)) else none)
next_index i m k d = ground arith

by_week :
    (d n : ℕ)
    → (if leb (monday n) d && ltb d (monday n + 7) then some (0 + (d - monday n)) else none)
      ≡ (if d / 7 == n / 7 then some (d % 7) else none)
by_week d n = rw (monday-start n) (ground arith)

-- `MEAL_PLAN_ROWS`
abbrev pub meal_plan_rows : List String
meal_plan_rows = "Breakfast" ∷ "Lunch" ∷ "Dinner" ∷ "Snack" ∷ []

pub record MealPlanEntryMeta : Type 0 where
  pub id : String
  pub serving_multiplier : Option Json
  pub batch_quantity : Option Json
  pub planned_leftovers : Option Json

-- `entryIds[key] = meta`
abbrev pub put_meta :
    String
    → MealPlanEntryMeta
    → List (String × MealPlanEntryMeta)
    → List (String × MealPlanEntryMeta)
put_meta key meta [] = (key, meta) ∷ []
put_meta key meta ((k, m) ∷ rest) =
    if str_eq k key then (k, meta) ∷ rest else (k, m) ∷ put_meta key meta rest

abbrev pub meta_of : MealPlanEntry → MealPlanEntryMeta
meta_of e = record {
  id = e.id;
  serving_multiplier = e.serving_multiplier;
  batch_quantity = e.batch_quantity;
  planned_leftovers = e.planned_leftovers;
}

-- The condition under which the loop writes the cell, and the key of the entry.
abbrev pub is_placed : List String → MealPlanEntry → Bool
is_placed days e =
    is_some (slot_to_row_idx e.slot) && is_some (day_index days e.date) && given e.recipe_id

abbrev pub entry_key : MealPlanEntry → String
entry_key e = e.date +++ "|" +++ e.slot

-- The loop over the entries, for the table beside the grid.
abbrev pub entry_ids :
    List String
    → List MealPlanEntry
    → List (String × MealPlanEntryMeta)
    → List (String × MealPlanEntryMeta)
entry_ids days [] ids = ids
entry_ids days (e ∷ es) ids =
    entry_ids days es (if is_placed days e then put_meta (entry_key e) (meta_of e) ids else ids)

module _ (cal : Calendar) where
  abbrev pub week_monday : ℕ → String
  week_monday n = cal.iso (monday n)

  -- The dates that `dayIndex` is built from.
  abbrev pub dates_from : ℕ → ℕ → List String
  dates_from m zero = []
  dates_from m (suc k) = cal.iso m ∷ dates_from (m + 1) k

  pub record WeekPlan : Type 0 where
    pub week_of : String
    pub rows : List String
    pub grid : Grid
    pub entry_ids : List (String × MealPlanEntryMeta)

  -- The loop builds its dates from the text of the Monday.
  abbrev pub week_dates : String → List String
  week_dates week_of = go (cal.day week_of)
    where
      go : Option ℕ → List String
      go none = []
      go (some m) = dates_from m 7

  -- none where `toISOString` throws, on an invalid date.
  abbrev pub entries_to_meal_plan : List MealPlanEntry → String → Option WeekPlan
  entries_to_meal_plan entries from = go (cal.day from)
    where
      go : Option ℕ → Option WeekPlan
      go none = none
      go (some n) = some (record {
        week_of = week_monday n;
        rows = meal_plan_rows;
        grid = entries_to_grid (week_dates (week_monday n)) entries;
        entry_ids = entry_ids (week_dates (week_monday n)) entries [];
      })

  abbrev pub empty_meal_plan : String → Option WeekPlan
  empty_meal_plan from = go (cal.day from)
    where
      go : Option ℕ → Option WeekPlan
      go none = none
      go (some n) = some (record {
        week_of = week_monday n;
        rows = meal_plan_rows;
        grid = empty_grid;
        entry_ids = [];
      })

  -- `from` and `to` of the two hooks, on a day.
  abbrev pub meal_plan_range : ℕ → Option String → Option (String × String)
  meal_plan_range today week_of =
      let from = or_else week_of (week_monday today) in go from (cal.day from)
    where
      go : String → Option ℕ → Option (String × String)
      go from none = none
      go from (some n) = some (from, cal.iso (n + 6))

  some_inj : {a b : ℕ} → some a ≡ some b → a ≡ b
  some_inj e = ground arith

  same_date : (a b : ℕ) → str_eq (cal.iso a) (cal.iso b) ≡ (a == b)
  same_date a b = elim (Bool-cases (a == b)) [
    | inl e ↦
        rw ((==_iff a b).0 e) ((eq_iff (cal.iso b) (cal.iso b)).1 refl ∙ sym ((==_iff b b).1 refl))
    | inr e ↦ elim (Bool-cases (str_eq (cal.iso a) (cal.iso b))) [
      | inl h ↦
          let again = ap cal.day ((eq_iff (cal.iso a) (cal.iso b)).0 h) in
          h ∙ sym ((==_iff a b).1 (some_inj (sym (cal.day-iso a) ∙ again ∙ cal.day-iso b)))
      | inr h ↦ h ∙ sym e
    ]
  ]

  index_from :
      (i m k d : ℕ)
      → day_index_from i (dates_from m k) (cal.iso d)
        ≡ (if leb m d && ltb d (m + k) then some (i + (d - m)) else none)
  index_from i m zero d = ground arith
  index_from i m (suc k) d =
      ap₂ (later_index i) (same_date m d) (index_from (i + 1) (m + 1) k d) ∙ next_index i m k d

  -- For every day and every date, `dayIndex` gives the column of the date exactly when the date is in the
  -- week of the day, from its Monday (column 0) to its Sunday (column 6), and no column otherwise.
  pub day_index-week :
      (n d : ℕ)
      → day_index (week_dates (week_monday n)) (cal.iso d)
        ≡ (if d / 7 == n / 7 then some (d % 7) else none)
  day_index-week n d = rw (cal.day-iso (monday n)) (index_from 0 (monday n) 7 d ∙ by_week d n)
