-- ===== src/Shopping.antt =====
-- web/src/lib/api/shopping.ts: the grocery list that the server sends, grouped by aisle for the screens.
-- A number that JavaScript prints (an amount) is its own type with the two things the code asks of it.
-- The rows have the fields that the grouping reads.
pub mod Buckets
mod Ascending
mod Aisles
pub mod Groups
pub mod Regroup
mod Tests
use mathlib.Core.List.{map}
use tidyboard.Prelude.{
  ℕ, Bool, true, false, not, List, [], ◌∷◌, ◌++◌, Option, none, some, String, truthy, ◌+++◌,
  if◌then◌else◌, or_else, str_eq, any, length,
}
use tidyboard.Prelude.Int.{ℤ, ltb_ℤ}
use tidyboard.Prelude.Words.{Casing, trim, words, char_at_0, slice_1, joined, includes}
use tidyboard.Sort.{sort}
use tidyboard.Shopping.Buckets.{Bucket, push}

-- `!amount`, and `String(amount)` after the rounding of `toFixed(2)`.
pub record Amounts : Type 1 where
  pub Amount : Type 0
  pub is_zero : Amount → Bool
  pub text : Amount → String

module _ (n : Amounts) where
  pub record ApiShoppingListItem : Type 0 where
    pub id : String
    pub name : String
    pub amount : n.Amount
    pub unit : String
    pub aisle : Option String
    pub source_recipes : Option (List String)
    pub completed : Bool
    pub sort_order : ℤ

  pub record ApiShoppingList : Type 0 where
    pub date_from : String
    pub items : Option (List ApiShoppingListItem)

pub record ShoppingItem : Type 0 where
  pub amt : String
  pub name : String
  pub done : Bool
  pub id : Option String
  pub source_recipes : Option (List String)

pub record ShoppingCategory : Type 0 where
  pub name : String
  pub pantry : Option Bool
  pub items : List ShoppingItem

pub record Shopping : Type 0 where
  pub week_of : String
  pub from_recipes : ℕ
  pub categories : List ShoppingCategory

-- The items of all categories, in order.
abbrev pub all_items : List ShoppingCategory → List ShoppingItem
all_items [] = []
all_items (c ∷ cs) = c.items ++ all_items cs

abbrev pub category_of_bucket : Bucket Bool ShoppingItem → ShoppingCategory
category_of_bucket b = record { name = b.key; pantry = some b.tag; items = b.items }

abbrev capitalised : Casing → List String → List String
capitalised c [] = []
capitalised c (part ∷ parts) =
    (c.upper (char_at_0 part) +++ c.lower (slice_1 part)) ∷ capitalised c parts

abbrev pub title_case : Casing → String → String
title_case c value = joined (capitalised c (words value))

module _ (n : Amounts) where
  abbrev pub format_amount : n.Amount → String → String
  format_amount amount unit =
      if n.is_zero amount
      then ""
      else if truthy unit
      then n.text amount +++ " " +++ unit
      else n.text amount

  abbrev pub api_shopping_list_item_to_shopping_item : ApiShoppingListItem n → ShoppingItem
  api_shopping_list_item_to_shopping_item item = record {
    amt = format_amount item.amount item.unit;
    name = item.name;
    done = item.completed;
    id = some item.id;
    source_recipes = some (or_else item.source_recipes []);
  }

  -- `item.aisle?.trim() || "other"`
  abbrev pub aisle_of : ApiShoppingListItem n → String
  aisle_of item =
      let trimmed = trim (or_else item.aisle "") in if truthy trimmed then trimmed else "other"

  abbrev pub category_name : Casing → ApiShoppingListItem n → String
  category_name c item = title_case c (aisle_of item)

  abbrev pub is_pantry_aisle : Casing → ApiShoppingListItem n → Bool
  is_pantry_aisle c item = includes "pantry" (c.lower (aisle_of item))

  -- `a.sort_order - b.sort_order <= 0`
  abbrev pub in_order : ApiShoppingListItem n → ApiShoppingListItem n → Bool
  in_order a b = not (ltb_ℤ b.sort_order a.sort_order)

  -- `recipeNames.add(source)` on a `Set`.
  abbrev pub add_name : String → List String → List String
  add_name s names = if any (str_eq s) names then names else names ++ s ∷ []

  abbrev pub add_sources : List String → List String → List String
  add_sources [] names = names
  add_sources (s ∷ sources) names =
      add_sources sources (if str_eq s "pantry staple" then names else add_name s names)

  -- The loop over the sorted items, with the categories and the recipe names so far.
  abbrev pub add_items :
      Casing
      → List (ApiShoppingListItem n)
      → List (Bucket Bool ShoppingItem)
      → List String
      → List (Bucket Bool ShoppingItem) × List String
  add_items c [] bs names = (bs, names)
  add_items c (item ∷ items) bs names =
      add_items c items
        (push (category_name c item) (is_pantry_aisle c item)
          (api_shopping_list_item_to_shopping_item item) bs)
        (add_sources (or_else item.source_recipes []) names)

  abbrev pub api_shopping_list_to_shopping : Casing → ApiShoppingList n → Shopping
  api_shopping_list_to_shopping c list =
      let (bs, names) = add_items c (sort in_order (or_else list.items [])) [] [] in
      record {
        week_of = list.date_from;
        from_recipes = length names;
        categories = map category_of_bucket bs;
      }
