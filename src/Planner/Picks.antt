-- ===== src/Planner/Picks.antt =====
-- web/src/components/screens/recipes.tsx, `MealPlan`: a recipe that is picked, on the screen and in the grid that
-- `entriesToMealPlan` lays out after the request.
use tidyboard.Prelude.{
  ◌≡◌, refl, sym, ap, ap₂, ◌∙◌, ℕ, zero, suc, ◌+◌, ◌<◌, Bool, true, false, ◌&&◌, List, [], ◌∷◌,
  ◌++◌, Option, none, some, String, truthy, if◌then◌else◌, ◌==◌, lt→ltb, Bool-cases, inl, inr,
  arith,
}
use tidyboard.MealPlan.{MealPlanEntry, Grid, entries_to_grid}
use tidyboard.MealPlan.Grid.{
  cell, in_row, get_elem?, lands, if_none, latest, entries_to_grid-latest,
}
use tidyboard.MealPlan.Week.{Calendar, WeekPlan, monday, week_monday, week_dates, day_index-week}
use tidyboard.Planner.{
  MealSlot, Upsert, upserts, slot_name, put_at, set_cell, col_date, Planner, pick, with_slots,
  with_grid, sends, picked, pick_recipe, plan_step,
}
use tidyboard.Planner.Copy.{
  entry_of, latest-append, kept, lands_here, in_week, slot_to_row_idx-slot_name,
}

get-put_at {ℓ} :
    {A : Type ℓ} (z : A) (n : ℕ) (f : A → A) (xs : List A) (x : A) (m : ℕ)
    → get_elem? xs n ≡ some x
    → get_elem? (put_at z n f xs) m ≡ (if m == n then some (f x) else get_elem? xs m)
get-put_at z n f [] x m h = cc
get-put_at z zero f (y ∷ ys) x zero h = ap (λ w. some (f w)) (inj h)
  where
    inj : some y ≡ some x → y ≡ x
    inj e = cc
get-put_at z zero f (y ∷ ys) x (suc m) h = rw (apart m) refl
  where
    apart : (m : ℕ) → (suc m == 0) ≡ false
    apart m = ground arith
get-put_at z (suc n) f (y ∷ ys) x zero h = rw (apart n) refl
  where
    apart : (n : ℕ) → (0 == suc n) ≡ false
    apart n = ground arith
get-put_at z (suc n) f (y ∷ ys) x (suc m) h = rw (same m n) (get-put_at z n f ys x m h)
  where
    same : (m n : ℕ) → (suc m == suc n) ≡ (m == n)
    same m n = ground arith

pub row-of_cell :
    (o : Option (List (Option String))) (c : ℕ) (x : Option String)
    → in_row o c ≡ some x
    → (xs : List (Option String)) × ((o ≡ some xs) × (get_elem? xs c ≡ some x))
row-of_cell none c x h = cc
row-of_cell (some xs) c x h = (xs, (refl, h))

-- A write to a cell that is there.
pub cell-set_cell :
    (r c : ℕ) (v old : Option String) (grid : Grid) (row col : ℕ)
    → cell grid r c ≡ some old
    → cell (set_cell r c v grid) row col
      ≡ (if (row == r) && (col == c) then some v else cell grid row col)
cell-set_cell r c v old grid row col h =
    let (xs, (e, k)) = row-of_cell (get_elem? grid r) c old h in
    ap (λ o. in_row o col) (get-put_at [] r (put_at none c (λ _. v)) grid xs row e)
    ∙ elim (Bool-cases (row == r)) [
      | inl p ↦
          rw (p, (same_row p))
            (get-put_at none c (λ _. v) xs old col k
              ∙ ap (λ o. if col == c then some v else in_row o col) (sym e))
      | inr p ↦ rw p refl
    ]
  where
    same_row : (row == r) ≡ true → row ≡ r
    same_row p = ground arith

in_cell :
    (b : Bool) (v : String) (x : Option String)
    → truthy v ≡ true
    → (if b then some (some v) else some x) ≡ some (if_none (if b then kept (some v) else none) x)
in_cell true v x h = rw h refl
in_cell false v x h = refl

-- The screen shows in each cell of the week what the entries put there.
abbrev pub Agrees : (cal : Calendar) → ℕ → Grid → List MealPlanEntry → Type 0
Agrees cal n grid es =
    (row col : ℕ)
    → row < 4
    → col < 7
    → cell grid row col ≡ cell (entries_to_grid (week_dates cal (week_monday cal n)) es) row col

-- The request that a pick makes.
abbrev pub request : Calendar → ℕ → ℕ → ℕ → String → Upsert
request cal n r c recipe_id = record {
  date = cal.iso (monday n + c);
  slot = slot_name r;
  recipe_id = some recipe_id;
  tuning = none;
}

module _ (cal : Calendar) (n : ℕ) (r c : ℕ) (hr : r < 4) (hc : c < 7) where
  latest-request :
      (name : Upsert → String) (recipe_id : String) (row col : ℕ)
      → latest
          (week_dates cal (week_monday cal n))
          row
          col
          (entry_of name (request cal n r c recipe_id) ∷ [])
        ≡ (if (row == r) && (col == c) then kept (some recipe_id) else none)
  latest-request name recipe_id row col =
      ap₂ (λ s d. lands s d row col (some recipe_id)) (slot_to_row_idx-slot_name r hr)
        (day_index-week cal n (monday n + c) ∙ in_week n c)
      ∙ lands_here r c row col (some recipe_id)
      ∙ rw (lt→ltb c 7 hc) (both (row == r) (col == c) (kept (some recipe_id)))
    where
      both :
          (a b : Bool) (x : Option String)
          → (if a then (if b then x else none) else none) ≡ (if a && b then x else none)
      both true b x = refl
      both false b x = refl

  set_cell-Agrees :
      (name : Upsert → String) (recipe_id : String) (grid : Grid) (es : List MealPlanEntry)
      → truthy recipe_id ≡ true
      → Agrees cal n grid es
      → Agrees cal n
          (set_cell r c (some recipe_id) grid)
          (es ++ entry_of name (request cal n r c recipe_id) ∷ [])
  set_cell-Agrees name recipe_id grid es t agrees row col hrow hcol =
      let days = week_dates cal (week_monday cal n) in
      let e = entry_of name (request cal n r c recipe_id) in
      let before = agrees row col hrow hcol ∙ entries_to_grid-latest days es row col hrow hcol in
      cell-set_cell r c (some recipe_id) (latest days r c es) grid row col
        (agrees r c hr hc ∙ entries_to_grid-latest days es r c hr hc)
      ∙ ap (λ o. if (row == r) && (col == c) then some (some recipe_id) else o) before
      ∙ in_cell ((row == r) && (col == c)) recipe_id (latest days row col es) t
      ∙ ap (λ o. some (if_none o (latest days row col es)))
          (sym (latest-request name recipe_id row col))
      ∙ ap some (sym (latest-append days row col es (e ∷ [])))
      ∙ sym (entries_to_grid-latest days (es ++ e ∷ []) row col hrow hcol)

col_date-week :
    (cal : Calendar) (n c : ℕ) → col_date cal (week_monday cal n) c ≡ some (cal.iso (monday n + c))
col_date-week cal n c = rw (cal.day-iso (monday n)) refl

step-pick :
    (cal : Calendar) (n : ℕ) (k : Planner cal) (p : WeekPlan cal) (s : MealSlot)
    (recipe_id : String)
    → k.meal_plan ≡ some p
    → p.week_of ≡ week_monday cal n
    → k.picker_slot ≡ some s
    → plan_step cal k (pick recipe_id)
      ≡ with_slots cal none k.edit_slot (
          sends cal
            (upserts (request cal n s.row_idx s.col_idx recipe_id))
            (with_grid cal (set_cell s.row_idx s.col_idx (some recipe_id) k.local_grid) k))
step-pick cal n k p s recipe_id hp hw hs =
    ap₂ (λ a b. pick_recipe cal recipe_id a b k) hs hp
    ∙ ap
        (λ d.
          picked cal s recipe_id d
            (with_grid cal (set_cell s.row_idx s.col_idx (some recipe_id) k.local_grid) k))
        (ap (λ w. col_date cal w s.col_idx) hw ∙ col_date-week cal n s.col_idx)

-- While the screen shows a week's plan as its entries put it, a recipe that is picked for a cell of the week
-- sends one request; and the screen shows at once what `entriesToMealPlan` lays out when the entry of that
-- request comes after the others, in every cell of the week.
pub pick-Agrees :
    (cal : Calendar) (n : ℕ) (k : Planner cal) (p : WeekPlan cal) (s : MealSlot)
    (recipe_id : String) (es : List MealPlanEntry)
    → k.meal_plan ≡ some p
    → p.week_of ≡ week_monday cal n
    → k.picker_slot ≡ some s
    → s.row_idx < 4
    → s.col_idx < 7
    → truthy recipe_id ≡ true
    → Agrees cal n k.local_grid es
    → (u : Upsert) × (((plan_step cal k (pick recipe_id)).sent ≡ upserts u ∷ k.sent)
        × ((name : Upsert → String)
            → Agrees cal n
                (plan_step cal k (pick recipe_id)).local_grid
                (es ++ entry_of name u ∷ [])))
pick-Agrees cal n k p s recipe_id es hp hw hs hr hc t agrees =
    let step = step-pick cal n k p s recipe_id hp hw hs in
    (
      request cal n s.row_idx s.col_idx recipe_id,
      (
        ap (λ m. m.sent) step,
        λ name row col hrow hcol.
            ap (λ m. cell m.local_grid row col) step
            ∙ set_cell-Agrees cal n s.row_idx s.col_idx hr hc name recipe_id k.local_grid es t
                agrees row col hrow hcol,
      ),
    )
