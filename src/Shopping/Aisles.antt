-- ===== src/Shopping/Aisles.antt =====
-- web/src/lib/api/shopping.ts: the categories against a description that has no map, a filter of the
-- sorted list for each aisle.
use mathlib.Core.List.Perm
use mathlib.Core.List.{Perm, map}
use tidyboard.Prelude.{
  ◌≡◌, refl, ◌∙◌, Bool, false, Option, none, some, truthy, ap, List, [], ◌∷◌, ◌++◌, String, str_eq,
  if◌then◌else◌, or_else, Bool-cases, inl, inr, All, keep,
}
use tidyboard.Prelude.Words.{Casing, trim}
use tidyboard.Sort.{sort, sort-perm, sort-Sorted, keep-perm}
use tidyboard.Shopping.Buckets.{
  Bucket, gather, items_at, values_at, values, everything, DistinctKeys, Absent, items_at-gather,
  everything-gather, gather-DistinctKeys,
}
use tidyboard.Shopping.{
  Amounts, ApiShoppingListItem, ApiShoppingList, ShoppingItem, ShoppingCategory, category_of_bucket,
  all_items, api_shopping_list_item_to_shopping_item, category_name, is_pantry_aisle, in_order,
  add_items, title_case, api_shopping_list_to_shopping,
}
use tidyboard.Shopping.Ascending.{
  Ascending, Stable, in_order-total, in_order_trans, Sorted→Ascending, keep-Ascending, sort-Stable,
}

-- The items of the category with a name.
abbrev pub listed : String → List ShoppingCategory → List ShoppingItem
listed k [] = []
listed k (c ∷ cs) = if str_eq c.name k then c.items else listed k cs

abbrev pub DistinctNames : List ShoppingCategory → Type 0
DistinctNames [] = Unit
DistinctNames (c ∷ cs) = All (λ d. str_eq d.name c.name ≡ false) cs × DistinctNames cs

listed-map :
    (k : String) (bs : List (Bucket Bool ShoppingItem))
    → listed k (map category_of_bucket bs) ≡ items_at k bs
listed-map k [] = refl
listed-map k (b ∷ bs) = rw (listed-map k bs) refl

all_items-map :
    (bs : List (Bucket Bool ShoppingItem)) → all_items (map category_of_bucket bs) ≡ everything bs
all_items-map [] = refl
all_items-map (b ∷ bs) = rw (all_items-map bs) refl

Absent-map :
    (k : String) (bs : List (Bucket Bool ShoppingItem))
    → Absent k bs
    → All (λ d. str_eq d.name k ≡ false) (map category_of_bucket bs)
Absent-map k [] h = tt
Absent-map k (b ∷ bs) (e, h) = (e, Absent-map k bs h)

DistinctNames-map :
    (bs : List (Bucket Bool ShoppingItem))
    → DistinctKeys bs
    → DistinctNames (map category_of_bucket bs)
DistinctNames-map [] h = tt
DistinctNames-map (b ∷ bs) (a, h) = (Absent-map b.key bs a, DistinctNames-map bs h)

module _ (n : Amounts) (c : Casing) where
  abbrev keyed : ApiShoppingListItem n → String × Bool × ShoppingItem
  keyed item = (
    category_name n c item,
    is_pantry_aisle n c item,
    api_shopping_list_item_to_shopping_item n item,
  )

  -- The name in title case that an aisle counts under.
  abbrev pub title_of : Option String → String
  title_of none = title_case c "other"
  title_of (some aisle) =
      if truthy (trim aisle) then title_case c (trim aisle) else title_case c "other"

  abbrev pub in_aisle : String → ApiShoppingListItem n → Bool
  in_aisle k item = str_eq (title_of item.aisle) k

  category_name-title_of :
      (item : ApiShoppingListItem n) → category_name n c item ≡ title_of item.aisle
  category_name-title_of item = of item.aisle
    where
      of :
          (o : Option String)
          → title_case c
              (let trimmed = trim (or_else o "") in if truthy trimmed then trimmed else "other")
            ≡ title_of o
      of none = refl
      of (some a) = elim (Bool-cases (truthy (trim a))) [ inl e ↦ rw e refl | inr e ↦ rw e refl ]

  in_aisle-same :
      (k : String) (item : ApiShoppingListItem n)
      → str_eq (category_name n c item) k ≡ in_aisle k item
  in_aisle-same k item = ap (λ s. str_eq s k) (category_name-title_of item)

  add_items-gather :
      (items : List (ApiShoppingListItem n)) (bs : List (Bucket Bool ShoppingItem))
      (names : List String)
      → (add_items n c items bs names).0 ≡ gather (map keyed items) bs
  add_items-gather [] bs names = refl
  add_items-gather (item ∷ items) bs names = add_items-gather items _ _

  values_at-keyed :
      (k : String) (items : List (ApiShoppingListItem n))
      → values_at k (map keyed items)
        ≡ map (api_shopping_list_item_to_shopping_item n) (keep (in_aisle k) items)
  values_at-keyed k [] = refl
  values_at-keyed k (item ∷ items) = elim (Bool-cases (in_aisle k item)) [
    | inl e ↦ rw (in_aisle-same k item, e, values_at-keyed k items) refl
    | inr e ↦ rw (in_aisle-same k item, e, values_at-keyed k items) refl
  ]

  values-keyed :
      (items : List (ApiShoppingListItem n))
      → values (map keyed items) ++ [] ≡ map (api_shopping_list_item_to_shopping_item n) items
  values-keyed [] = refl
  values-keyed (item ∷ items) = rw (values-keyed items) refl

  abbrev pub categories : ApiShoppingList n → List ShoppingCategory
  categories list = (api_shopping_list_to_shopping n c list).categories

  abbrev pub items_in : ApiShoppingList n → List (ApiShoppingListItem n)
  items_in list = or_else list.items []

  -- For every list of the server and every name: the category of that name holds some items of the list, put in
  -- the screen's form. These are all those whose aisle in title case is the name, where an aisle that is
  -- missing or blank counts as "other"; their sort orders ascend, and those with the same sort order stand
  -- as the server sent them. No name is the name of two categories.
  pub categories-listed :
      (list : ApiShoppingList n) (k : String)
      → (xs : List (ApiShoppingListItem n)) × (listed k (categories list)
          ≡ map (api_shopping_list_item_to_shopping_item n) xs)
        × Perm xs (keep (in_aisle k) (items_in list))
        × Ascending n xs
        × Stable n xs (keep (in_aisle k) (items_in list))
        × DistinctNames (categories list)
  categories-listed list k =
      let items = sort (in_order n) (items_in list) in
      let grouped = add_items-gather items [] [] in
      (
        keep (in_aisle k) items,
        rw grouped (
            listed-map k (gather (map keyed items) [])
            ∙ items_at-gather k (map keyed items) []
            ∙ values_at-keyed k items),
        keep-perm (in_aisle k) items (items_in list) (sort-perm (in_order n) (items_in list)),
        keep-Ascending n (in_aisle k) items (
            Sorted→Ascending n items
              (sort-Sorted (in_order n) (in_order-total n) (in_order_trans n) (items_in list))),
        (λ v. sort-Stable n (in_aisle k) v (items_in list)),
        rw grouped (DistinctNames-map _ (gather-DistinctKeys (map keyed items) [] tt)),
      )

  -- The items of all categories together are the items of the server's list, each as often as it is
  -- there.
  pub categories-perm :
      (list : ApiShoppingList n)
      → Perm
          (all_items (categories list))
          (map (api_shopping_list_item_to_shopping_item n) (items_in list))
  categories-perm list =
      let items = sort (in_order n) (items_in list) in
      rw (add_items-gather items [] [], all_items-map (gather (map keyed items) []))
        (Perm.trans (everything-gather (map keyed items) []) (
          rw (values-keyed items) (
            Perm.map (api_shopping_list_item_to_shopping_item n)
              (sort-perm (in_order n) (items_in list)))))
