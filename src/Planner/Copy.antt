-- ===== src/Planner/Copy.antt =====
-- web/src/components/screens/recipes.tsx, `MealPlan`: the copy of last week's meals, with the grid of
-- `entriesToMealPlan` that shows it.
use tidyboard.Prelude.{
  ◌≡◌, refl, sym, ap, ap₂, ◌∙◌, ℕ, zero, suc, ◌+◌, ◌<◌, ◌≤◌, ◌/◌, ◌%◌, Bool, true, false, List, [],
  ◌∷◌, ◌++◌, Option, none, some, String, truthy, if◌then◌else◌, ltb, ◌==◌, map, length, Bool-cases,
  inl, inr, arith,
}
use mathlib.Core.List.{map-append}
use tidyboard.MealPlan.{MealPlanEntry, Grid, slot_to_row_idx, day_index, entries_to_grid}
use tidyboard.MealPlan.Grid.{
  cell, in_row, get_elem?, lands, if_none, if_none-none, latest, entries_to_grid-latest,
}
use tidyboard.MealPlan.Week.{
  Calendar, monday, monday-start, week_monday, week_dates, day_index-week,
}
use tidyboard.Planner.{
  Upsert, slot_name, copy_cell, copy_row, copy_rows, sent_until, handle_copy_last_week,
}

-- The entry that the server keeps for a request, under an id of its own.
abbrev pub entry_of : (Upsert → String) → Upsert → MealPlanEntry
entry_of name u = record {
  id = name u;
  recipe_id = u.recipe_id;
  date = u.date;
  slot = u.slot;
  serving_multiplier = none;
  batch_quantity = none;
  planned_leftovers = none;
}

if_none_assoc : (a b c : Option String) → if_none a (if_none b c) ≡ if_none (if_none a b) c
if_none_assoc none b c = refl
if_none_assoc (some v) b c = refl

pub latest-append :
    (days : List String) (row col : ℕ) (xs ys : List MealPlanEntry)
    → latest days row col (xs ++ ys) ≡ if_none (latest days row col ys) (latest days row col xs)
latest-append days row col [] ys = sym (if_none-none (latest days row col ys))
latest-append days row col (x ∷ xs) ys =
    ap (λ o. if_none o (lands (slot_to_row_idx x.slot) (day_index days x.date) row col x.recipe_id))
      (latest-append days row col xs ys)
    ∙ sym (if_none_assoc (latest days row col ys) (latest days row col xs) _)

-- A recipe id that is a text, and not the empty one.
abbrev pub kept : Option String → Option String
kept none = none
kept (some v) = if truthy v then some v else none

-- The last of the things at a place that a list counted from c gives.
abbrev at {ℓ} : {A : Type ℓ} → (A → Option String) → ℕ → ℕ → List A → Option String
at f c place [] = none
at f c place (x ∷ xs) = if_none (at f (suc c) place xs) (if place == c then f x else none)

abbrev of_found {ℓ} : {A : Type ℓ} → (A → Option String) → Option A → Option String
of_found f none = none
of_found f (some x) = f x

at-before {ℓ} :
    {A : Type ℓ} (f : A → Option String) (c place : ℕ) (xs : List A)
    → place < c
    → at f c place xs ≡ none
at-before f c place [] h = refl
at-before f c place (x ∷ xs) h =
    ap₂ if_none (at-before f (suc c) place xs (omega arith)) (rw (other c place h) refl)
  where
    other : (c place : ℕ) → place < c → (place == c) ≡ false
    other c place h = ground arith

at-get {ℓ} :
    {A : Type ℓ} (f : A → Option String) (c m : ℕ) (xs : List A)
    → at f c (c + m) xs ≡ of_found f (get_elem? xs m)
at-get f c m [] = refl
at-get f c zero (x ∷ xs) =
    ap₂ if_none (at-before f (suc c) (c + 0) xs (omega arith)) (rw (here c) refl)
  where
    here : (c : ℕ) → ((c + 0) == c) ≡ true
    here c = ground arith
at-get f c (suc m) (x ∷ xs) =
    ap₂ if_none (ap (λ n. at f (suc c) n xs) (omega arith) ∙ at-get f (suc c) m xs)
      (rw (there c m) refl)
    ∙ if_none-none _
  where
    there : (c m : ℕ) → ((c + suc m) == c) ≡ false
    there c m = ground arith

at_first {ℓ} :
    {A : Type ℓ} (f : A → Option String) (m : ℕ) (xs : List A)
    → at f 0 m xs ≡ of_found f (get_elem? xs m)
at_first f m xs = ap (λ n. at f 0 n xs) (omega arith) ∙ at-get f 0 m xs

pub slot_to_row_idx-slot_name : (row : ℕ) → row < 4 → slot_to_row_idx (slot_name row) ≡ some row
slot_to_row_idx-slot_name zero h = refl
slot_to_row_idx-slot_name (suc zero) h = refl
slot_to_row_idx-slot_name (suc (suc zero)) h = refl
slot_to_row_idx-slot_name (suc (suc (suc zero))) h = refl
slot_to_row_idx-slot_name (suc (suc (suc (suc n)))) h = absurd (omega arith)

-- Whether an entry of a day of the week lands in a cell.
pub lands_here :
    (r c row col : ℕ) (x : Option String)
    → lands (some r) (if ltb c 7 then some c else none) row col x
      ≡ (if row == r then (if col == c then (if ltb c 7 then kept x else none) else none) else none)
lands_here r c row col none = ground arith
lands_here r c row col (some v) = ground arith

pub in_week :
    (n c : ℕ)
    → (if (monday n + c) / 7 == n / 7 then some ((monday n + c) % 7) else none)
      ≡ (if ltb c 7 then some c else none)
in_week n c = rw (monday-start n) (ground arith)

module _ (cal : Calendar) (n : ℕ) (name : Upsert → String) (row col : ℕ) (h : col < 7) where
  abbrev shows : List Upsert → Option String
  shows us = latest (week_dates cal (week_monday cal n)) row col (map (entry_of name) us)

  shows-append : (us vs : List Upsert) → shows (us ++ vs) ≡ if_none (shows vs) (shows us)
  shows-append us vs =
      ap (latest (week_dates cal (week_monday cal n)) row col) (map-append (entry_of name) us vs)
      ∙ latest-append (week_dates cal (week_monday cal n)) row col (map (entry_of name) us)
          (map (entry_of name) vs)

  in_column :
      (c : ℕ) (x : Option String)
      → (if col == c then (if ltb c 7 then kept x else none) else none)
        ≡ (if col == c then kept x else none)
  in_column c x = ground arith

  shows-copy_cell :
      (r c : ℕ) (x : Option String)
      → r < 4
      → shows (copy_cell cal (monday n) r c x)
        ≡ (if row == r then (if col == c then kept x else none) else none)
  shows-copy_cell r c none g = ground arith
  shows-copy_cell r c (some v) g = elim (Bool-cases (truthy v)) [
    | inl e ↦ rw e (
        ap₂ (λ s d. lands s d row col (some v)) (slot_to_row_idx-slot_name r g)
          (day_index-week cal n (monday n + c) ∙ in_week n c)
        ∙ lands_here r c row col (some v)
        ∙ ap (λ o. if row == r then o else none) (in_column c (some v))
        ∙ ap
            (λ b.
              if row == r then (if col == c then (if b then some v else none) else none) else none)
            e)
    | inr e ↦ rw e (nothing (row == r) (col == c))
  ]
    where
      nothing :
          (a b : Bool)
          → ◌≡◌ {A = Option String} none (if a then (if b then none else none) else none)
      nothing a b = ground arith

  shows-copy_row :
      (r c : ℕ) (xs : List (Option String))
      → r < 4
      → shows (copy_row cal (monday n) r c xs) ≡ (if row == r then at kept c col xs else none)
  shows-copy_row r c [] g = nothing (row == r)
    where
      nothing : (a : Bool) → ◌≡◌ {A = Option String} none (if a then none else none)
      nothing a = ground arith
  shows-copy_row r c (x ∷ xs) g =
      shows-append (copy_cell cal (monday n) r c x) (copy_row cal (monday n) r (suc c) xs)
      ∙ ap₂ if_none (shows-copy_row r (suc c) xs g) (shows-copy_cell r c x g)
      ∙ merge (row == r) (at kept (suc c) col xs) (if col == c then kept x else none)
    where
      merge :
          (b : Bool) (p q : Option String)
          → if_none (if b then p else none) (if b then q else none)
            ≡ (if b then if_none p q else none)
      merge true p q = refl
      merge false p q = refl

  shows-copy_rows :
      (r : ℕ) (grid : Grid)
      → r + length grid ≤ 4
      → shows (copy_rows cal (monday n) r grid) ≡ at (at kept 0 col) r row grid
  shows-copy_rows r [] g = refl
  shows-copy_rows r (xs ∷ rows) g =
      shows-append (copy_row cal (monday n) r 0 xs) (copy_rows cal (monday n) (suc r) rows)
      ∙ ap₂ if_none (shows-copy_rows (suc r) rows (omega arith))
          (shows-copy_row r 0 xs (omega arith))

-- The recipe in a cell, if the cell has one.
abbrev pub meal : Option (Option String) → Option String
meal none = none
meal (some x) = kept x

at-cell : (grid : Grid) (row col : ℕ) → at (at kept 0 col) 0 row grid ≡ meal (cell grid row col)
at-cell grid row col = at_first (at kept 0 col) row grid ∙ in_row_of (get_elem? grid row)
  where
    meal_of : (o : Option (Option String)) → of_found kept o ≡ meal o
    meal_of none = refl
    meal_of (some x) = refl

    in_row_of :
        (o : Option (List (Option String))) → of_found (at kept 0 col) o ≡ meal (in_row o col)
    in_row_of none = refl
    in_row_of (some xs) = at_first kept col xs ∙ meal_of (get_elem? xs col)

sent_until-all :
    (cal : Calendar) (answers : ℕ → Bool) (i : ℕ) (us : List Upsert)
    → (sent_until cal answers i us).1 ≡ true
    → (sent_until cal answers i us).0 ≡ us
sent_until-all cal answers i [] h = refl
sent_until-all cal answers i (u ∷ us) h = elim (Bool-cases (answers i)) [
  | inl e ↦ rw e (ap (λ vs. u ∷ vs) (sent_until-all cal answers (suc i) us (rw e at h)))
  | inr e ↦ let k = rw e at h in cc
]

done-all :
    (cal : Calendar) (answers : ℕ → Bool) (d : ℕ) (week_of : String) (grid : Grid)
    (us : List Upsert)
    → cal.day week_of ≡ some d
    → handle_copy_last_week cal answers (some week_of) (some grid) ≡ (us, some true)
    → us ≡ copy_rows cal d 0 grid
done-all cal answers d week_of grid us e h = elim (Bool-cases (truthy week_of)) [
  | inl t ↦
      let k = rw (t, e) at h in
      sym (ap (λ p. p.0) k)
      ∙ sent_until-all cal answers 0 (copy_rows cal d 0 grid) (some_inj (ap (λ p. p.1) k))
  | inr t ↦ let k = rw t at h in cc (ap (λ p. p.1) k)
]
  where
    some_inj : {a b : Bool} → some a ≡ some b → a ≡ b
    some_inj k = cc

-- When the copy of last week's meals ends with the status "ok", and `entriesToMealPlan` lays out the entries
-- that it made after those that the week had: each cell has the recipe that last week's grid has there, and
-- where that grid has none, what the cell had before. (A grid has four rows at most; the ids that the server
-- gives do not matter.)
pub copy-laid_out :
    (cal : Calendar) (n : ℕ) (name : Upsert → String) (answers : ℕ → Bool) (grid : Grid)
    (us : List Upsert) (old : List MealPlanEntry) (row col : ℕ)
    → row < 4
    → col < 7
    → length grid ≤ 4
    → handle_copy_last_week cal answers (some (week_monday cal n)) (some grid) ≡ (us, some true)
    → (let days = week_dates cal (week_monday cal n) in
        cell (entries_to_grid days (old ++ map (entry_of name) us)) row col
        ≡ some (if_none (meal (cell grid row col)) (latest days row col old)))
copy-laid_out cal n name answers grid us old row col hr hc hg done =
    let days = week_dates cal (week_monday cal n) in
    entries_to_grid-latest days (old ++ map (entry_of name) us) row col hr hc
    ∙ ap some (latest-append days row col old (map (entry_of name) us))
    ∙ ap
        (λ vs.
          some (if_none (latest days row col (map (entry_of name) vs)) (latest days row col old)))
        (done-all cal answers (monday n) (week_monday cal n) grid us (cal.day-iso (monday n)) done)
    ∙ ap (λ o. some (if_none o (latest days row col old)))
        (shows-copy_rows cal n name row col hc 0 grid (omega arith) ∙ at-cell grid row col)
