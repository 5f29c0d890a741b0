-- ===== src/Shopping/Groups.antt =====
-- web/src/components/shopping/CategoryGroup.tsx: the categories of a grocery list regrouped by recipe or
-- into one list. `/pantry/i` and `toLowerCase` use the case tables of the parameter.
use mathlib.Core.List.{map}
use tidyboard.Prelude.{
  Bool, true, false, not, ◌&&◌, ◌||◌, List, [], ◌∷◌, ◌++◌, none, some, String, truthy,
  if◌then◌else◌, or_else, str_eq, any, keep,
}
use tidyboard.Prelude.Words.{Casing, includes}
use tidyboard.Shopping.Buckets.{Bucket, gather}
use tidyboard.Shopping.{ShoppingItem, ShoppingCategory, all_items}

pub data GroupMode : Type 0 where
  aisle recipe manual : GroupMode

abbrev pub is_staple_label : Casing → String → Bool
is_staple_label c s = str_eq (c.lower s) "pantry staple"

abbrev pub sources_of : ShoppingItem → List String
sources_of it = keep truthy (or_else it.source_recipes [])

abbrev no_sources : List String → Bool
no_sources [] = true
no_sources (_ ∷ _) = false

abbrev pub is_pantry : Casing → ShoppingCategory → ShoppingItem → Bool
is_pantry c cat it =
    or_else cat.pantry false
    || (no_sources (sources_of it) && includes "pantry" (c.lower cat.name)
        || any (is_staple_label c) (sources_of it))

abbrev pub or_other : List String → List String
or_other [] = "Other" ∷ []
or_other (name ∷ names) = name ∷ names

-- The names that an item is pushed under, in order.
abbrev pub groups_of : Casing → ShoppingCategory → ShoppingItem → List String
groups_of c cat it =
    if is_pantry c cat it
    then "Pantry staples" ∷ []
    else or_other (keep (λ s. not (is_staple_label c s)) (sources_of it))

abbrev pub pushes : ShoppingItem → List String → List (String × Unit {0} × ShoppingItem)
pushes it [] = []
pushes it (name ∷ names) = (name, tt, it) ∷ pushes it names

abbrev pub item_pushes :
    Casing → ShoppingCategory → List ShoppingItem → List (String × Unit {0} × ShoppingItem)
item_pushes c cat [] = []
item_pushes c cat (it ∷ its) = pushes it (groups_of c cat it) ++ item_pushes c cat its

-- Every call of `push` in the order in which the two loops make it.
abbrev pub all_pushes : Casing → List ShoppingCategory → List (String × Unit {0} × ShoppingItem)
all_pushes c [] = []
all_pushes c (cat ∷ cats) = item_pushes c cat cat.items ++ all_pushes c cats

abbrev pub recipe_category : Bucket (Unit {0}) ShoppingItem → ShoppingCategory
recipe_category b = record {
  name = b.key;
  pantry = some (str_eq b.key "Pantry staples");
  items = b.items;
}

abbrev pub one_list : List ShoppingItem → List ShoppingCategory
one_list [] = []
one_list (it ∷ its) = record { name = "All items"; pantry = none; items = it ∷ its } ∷ []

abbrev pub group_shopping : Casing → List ShoppingCategory → GroupMode → List ShoppingCategory
group_shopping c categories aisle = categories
group_shopping c categories manual = one_list (all_items categories)
group_shopping c categories recipe = map recipe_category (gather (all_pushes c categories) [])
