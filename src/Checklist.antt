-- ===== src/Checklist.antt =====
-- web/src/components/screens/recipes.tsx, `ShoppingList`: the grocery list on the screen, over loads of the
-- list, taps on its items and answers to the requests that the taps make. Between two events the screen is
-- rendered anew.
mod Find
mod Kept
mod Taps
mod Tests
use tidyboard.Prelude.{
  ℕ, zero, suc, ◌+◌, Bool, true, false, not, ◌&&◌, List, [], ◌∷◌, Option, none, some, String,
  truthy, str_eq, if◌then◌else◌,
}
use tidyboard.Api.Query.{given}
use tidyboard.MealPlan.{modify}
use tidyboard.Shopping.{ShoppingItem, ShoppingCategory, Shopping}

-- The variables of a `toggleMutation`.
pub record Toggle : Type 0 where
  pub id : Option String
  pub category : String
  pub name : String
  pub done : Bool

-- What the `onError` of a toggle remembers.
pub record Undo : Type 0 where
  pub ci : ℕ
  pub ii : ℕ
  pub done : Bool

-- The component's state, the toggles that wait for their answers, the latest first, and those that it sent.
pub record Checklist : Type 0 where
  pub categories : List ShoppingCategory
  pub api_version : Option String
  pub waiting : List Undo
  pub sent : List Toggle

pub data ListEvent : Type 0 where
  loaded : Shopping → ListEvent
  tap : ShoppingItem → String → ListEvent
  -- the toggle, by its place among those that wait
  answered : ℕ → Bool → ListEvent

abbrev pub is_version : Option String → String → Bool
is_version none v = false
is_version (some a) v = str_eq a v

-- "When API data arrives (and differs from current), re-seed local state."
abbrev pub seeded : Shopping → Checklist → Checklist
seeded s k =
    let fresh = truthy s.week_of && not (is_version k.api_version s.week_of) in
    record {
      categories = if fresh then s.categories else k.categories;
      api_version = if fresh then some s.week_of else k.api_version;
      waiting = k.waiting;
      sent = k.sent;
    }

-- What `findIndices` returns.
pub record Found : Type 0 where
  pub ci : ℕ
  pub ii : ℕ
  pub cat : ShoppingCategory
  pub it : ShoppingItem

-- The inner loop: the first item that passes the test, with its place.
abbrev pub find_item : (ShoppingItem → Bool) → ℕ → List ShoppingItem → Option (ℕ × ShoppingItem)
find_item test ii [] = none
find_item test ii (it ∷ its) = if test it then some (ii, it) else find_item test (suc ii) its

abbrev pub found_in : ℕ → ShoppingCategory → Option (ℕ × ShoppingItem) → Option Found → Option Found
found_in ci cat (some (ii, it)) rest = some (record { ci = ci; ii = ii; cat = cat; it = it })
found_in ci cat none rest = rest

-- The outer loop, over the categories that are not passed by.
abbrev pub find_from :
    (ShoppingCategory → Bool) → (ShoppingItem → Bool) → ℕ → List ShoppingCategory → Option Found
find_from enters test ci [] = none
find_from enters test ci (cat ∷ cats) =
    found_in ci cat (if enters cat then find_item test 0 cat.items else none)
      (find_from enters test (suc ci) cats)

abbrev pub same_id : Option String → Option String → Bool
same_id none b = false
same_id (some a) none = false
same_id (some a) (some b) = truthy a && str_eq b a

-- `item.id && it.id === item.id`
abbrev pub has_id : ShoppingItem → ShoppingItem → Bool
has_id item it = same_id item.id it.id

abbrev pub has_name : ShoppingItem → ShoppingItem → Bool
has_name item it = str_eq it.name item.name && str_eq it.amt item.amt

abbrev pub or_found : Option Found → Option Found → Option Found
or_found (some f) other = some f
or_found none other = other

-- `!(sourceCategoryName && cat.name !== sourceCategoryName)`
abbrev pub is_source : String → ShoppingCategory → Bool
is_source source cat = if truthy source then str_eq cat.name source else true

abbrev pub find_indices : ShoppingItem → String → List ShoppingCategory → Option Found
find_indices item source cats =
    or_found (find_from (λ _. true) (has_id item) 0 cats)
      (find_from (is_source source) (has_name item) 0 cats)

abbrev pub with_done : Bool → ShoppingItem → ShoppingItem
with_done d it = record {
  amt = it.amt;
  name = it.name;
  done = d;
  id = it.id;
  source_recipes = it.source_recipes;
}

abbrev pub with_items : List ShoppingItem → ShoppingCategory → ShoppingCategory
with_items its cat = record { name = cat.name; pantry = cat.pantry; items = its }

-- The two `map`s of a change to the item at a place.
abbrev pub change_item :
    (ShoppingItem → ShoppingItem) → ℕ → ℕ → List ShoppingCategory → List ShoppingCategory
change_item f ci ii cats = modify (λ cat. with_items (modify f ii cat.items) cat) ci cats

abbrev pub flip : ShoppingItem → ShoppingItem
flip it = with_done (not it.done) it

abbrev pub toggle_found : Option Found → Checklist → Checklist
toggle_found none k = k
toggle_found (some f) k = record {
  categories = change_item flip f.ci f.ii k.categories;
  api_version = k.api_version;
  waiting = record { ci = f.ci; ii = f.ii; done = f.it.done } ∷ k.waiting;
  sent =
      record { id = f.it.id; category = f.cat.name; name = f.it.name; done = not f.it.done }
      ∷ k.sent;
}

-- `toggle`
abbrev pub toggle : ShoppingItem → String → Checklist → Checklist
toggle item source k = toggle_found (find_indices item source k.categories) k

abbrev pub without : ℕ → List Undo → List Undo
without n [] = []
without zero (u ∷ us) = us
without (suc n) (u ∷ us) = u ∷ without n us

abbrev pub waiting_at : ℕ → List Undo → Option Undo
waiting_at n [] = none
waiting_at zero (u ∷ us) = some u
waiting_at (suc n) (u ∷ us) = waiting_at n us

-- `onError` puts the remembered check back; a success changes nothing.
abbrev pub undone : Bool → Option Undo → List ShoppingCategory → List ShoppingCategory
undone true u cats = cats
undone false none cats = cats
undone false (some u) cats = change_item (with_done u.done) u.ci u.ii cats

abbrev pub toggle_answered : ℕ → Bool → Checklist → Checklist
toggle_answered n ok k = record {
  categories = undone ok (waiting_at n k.waiting) k.categories;
  api_version = k.api_version;
  waiting = without n k.waiting;
  sent = k.sent;
}

abbrev pub list_step : Checklist → ListEvent → Checklist
list_step k (loaded s) = seeded s k
list_step k (tap item source) = toggle item source k
list_step k (answered n ok) = toggle_answered n ok k

abbrev pub list_run : Checklist → List ListEvent → Checklist
list_run k [] = k
list_run k (e ∷ es) = list_run (list_step k e) es

-- A screen that is shown before the list has arrived.
abbrev pub unseeded : Checklist
unseeded = record { categories = []; api_version = none; waiting = []; sent = [] }
