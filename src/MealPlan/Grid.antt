-- ===== src/MealPlan/Grid.antt =====
-- What the grid of a week shows in each cell.
use tidyboard.Prelude.{
  ℕ, zero, suc, ◌<◌, ◌≡◌, ◌∙◌, refl, ap, Bool, true, false, ◌&&◌, List, [], ◌∷◌, Option, none, some,
  String, truthy, if◌then◌else◌, ◌==◌, arith, Bool-cases, inl, inr,
}
use tidyboard.MealPlan.{
  MealPlanEntry, Grid, slot_to_row_idx, day_index, modify, write_cell, place, fill, empty_row,
  empty_grid, entries_to_grid, replicate,
}

abbrev option_map {ℓ κ} : {A : Type ℓ} {B : Type κ} → (A → B) → Option A → Option B
option_map f none = none
option_map f (some a) = some (f a)

abbrev pub get_elem? {ℓ} : {A : Type ℓ} → List A → ℕ → Option A
get_elem? [] n = none
get_elem? (x ∷ xs) zero = some x
get_elem? (x ∷ xs) (suc n) = get_elem? xs n

abbrev pub in_row : Option (List (Option String)) → ℕ → Option (Option String)
in_row none col = none
in_row (some xs) col = get_elem? xs col

-- `grid[row][col]`; none is out of range.
abbrev pub cell : Grid → ℕ → ℕ → Option (Option String)
cell grid row col = in_row (get_elem? grid row) col

-- The recipe that an entry puts into the cell, if it belongs there.
abbrev pub lands : Option ℕ → Option ℕ → ℕ → ℕ → Option String → Option String
lands (some r) (some c) row col (some recipe_id) =
    if truthy recipe_id then (if (row == r) && (col == c) then some recipe_id else none) else none
lands _ _ row col _ = none

abbrev pub if_none : Option String → Option String → Option String
if_none (some v) old = some v
if_none none old = old

-- The recipe of the last entry of the list that belongs into the cell.
abbrev pub latest : List String → ℕ → ℕ → List MealPlanEntry → Option String
latest days row col [] = none
latest days row col (e ∷ es) =
    if_none (latest days row col es)
      (lands (slot_to_row_idx e.slot) (day_index days e.date) row col e.recipe_id)

suc_eq_zero : (m : ℕ) → (suc m == 0) ≡ false
suc_eq_zero m = ground arith

zero_eq_suc : (n : ℕ) → (0 == suc n) ≡ false
zero_eq_suc n = ground arith

suc_eq_suc : (m n : ℕ) → (suc m == suc n) ≡ (m == n)
suc_eq_suc m n = ground arith

get-modify {ℓ} :
    {A : Type ℓ} (f : A → A) (n m : ℕ) (xs : List A)
    → get_elem? (modify f n xs) m
      ≡ (if m == n then option_map f (get_elem? xs m) else get_elem? xs m)
get-modify f n m [] = elim (Bool-cases (m == n)) [ inl e ↦ rw e refl | inr e ↦ rw e refl ]
get-modify f zero zero (x ∷ xs) = refl
get-modify f zero (suc m) (x ∷ xs) = rw (suc_eq_zero m) refl
get-modify f (suc n) zero (x ∷ xs) = rw (zero_eq_suc n) refl
get-modify f (suc n) (suc m) (x ∷ xs) = rw (suc_eq_suc m n) (get-modify f n m xs)

-- Writing one cell, in range or not.
cell-write_cell :
    (r c : ℕ) (v : String) (grid : Grid) (row col : ℕ)
    → cell (write_cell r c v grid) row col ≡ (
        if (row == r) && (col == c)
        then option_map (λ _. some v) (cell grid row col)
        else cell grid row col)
cell-write_cell r c v grid row col =
    rw (get-modify (modify (λ _. some v) c) r row grid) (in_row_of (row == r) (get_elem? grid row))
  where
    in_row_of :
        (b : Bool) (xs : Option (List (Option String)))
        → in_row (if b then option_map (modify (λ _. some v) c) xs else xs) col
          ≡ (if b && (col == c) then option_map (λ _. some v) (in_row xs col) else in_row xs col)
    in_row_of true none = elim (Bool-cases (col == c)) [ inl e ↦ rw e refl | inr e ↦ rw e refl ]
    in_row_of true (some xs) = get-modify (λ _. some v) c col xs
    in_row_of false xs = refl

old_kept : (o : Option (Option String)) → o ≡ option_map (if_none none) o
old_kept none = refl
old_kept (some old) = refl

in_branch :
    (v : String) (b : Bool) (o : Option (Option String))
    → (if b then option_map (λ _. some v) o else o)
      ≡ option_map (if_none (if b then some v else none)) o
in_branch v true none = refl
in_branch v true (some old) = refl
in_branch v false o = old_kept o

cell-place :
    (r c : Option ℕ) (recipe_id : Option String) (grid : Grid) (row col : ℕ)
    → cell (place r c recipe_id grid) row col
      ≡ option_map (if_none (lands r c row col recipe_id)) (cell grid row col)
cell-place none c recipe_id grid row col = old_kept (cell grid row col)
cell-place (some r) none recipe_id grid row col = old_kept (cell grid row col)
cell-place (some r) (some c) none grid row col = old_kept (cell grid row col)
cell-place (some r) (some c) (some v) grid row col = elim (Bool-cases (truthy v)) [
  | inl e ↦
      rw (e, cell-write_cell r c v grid row col)
        (in_branch v ((row == r) && (col == c)) (cell grid row col))
  | inr e ↦ rw e (old_kept (cell grid row col))
]

if_none-if_none :
    (late early : Option String) (o : Option (Option String))
    → option_map (if_none late) (option_map (if_none early) o)
      ≡ option_map (if_none (if_none late early)) o
if_none-if_none late early none = refl
if_none-if_none none early (some old) = refl
if_none-if_none (some v) early (some old) = refl

cell-fill :
    (days : List String) (grid : Grid) (es : List MealPlanEntry) (row col : ℕ)
    → cell (fill days grid es) row col
      ≡ option_map (if_none (latest days row col es)) (cell grid row col)
unfolding fill
cell-fill days grid [] row col = old_kept (cell grid row col)
cell-fill days grid (e ∷ es) row col =
    let r = slot_to_row_idx e.slot in
    let c = day_index days e.date in
    cell-fill days (place r c e.recipe_id grid) es row col
    ∙ ap (option_map (if_none (latest days row col es))) (cell-place r c e.recipe_id grid row col)
    ∙ if_none-if_none (latest days row col es) (lands r c row col e.recipe_id) (cell grid row col)

get-replicate {ℓ} : {A : Type ℓ} (x : A) (n m : ℕ) → m < n → get_elem? (replicate n x) m ≡ some x
get-replicate x zero m h = absurd (omega arith)
get-replicate x (suc n) zero h = refl
get-replicate x (suc n) (suc m) h = get-replicate x n m (omega arith)

pub if_none-none : (v : Option String) → if_none v none ≡ v
if_none-none none = refl
if_none-none (some v) = refl

-- For every list of entries and every cell of the week (one of the four slots, one of the seven days), the
-- grid has the recipe of the last entry of the list that has a recipe, the cell's slot and its day, and
-- null if there is no such entry.
pub entries_to_grid-latest :
    (days : List String) (entries : List MealPlanEntry) (row col : ℕ)
    → row < 4
    → col < 7
    → cell (entries_to_grid days entries) row col ≡ some (latest days row col entries)
unfolding entries_to_grid
entries_to_grid-latest days entries row col r c =
    cell-fill days empty_grid entries row col
    ∙ ap (option_map (if_none (latest days row col entries))) empty
    ∙ ap some (if_none-none (latest days row col entries))
  where
    empty : cell empty_grid row col ≡ some none
    empty = rw (get-replicate empty_row 4 row r) (get-replicate {A = Option String} none 7 col c)
