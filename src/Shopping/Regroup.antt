-- ===== src/Shopping/Regroup.antt =====
-- web/src/components/shopping/CategoryGroup.tsx: the three groupings show the same items.
use mathlib.Core.List.Perm
use mathlib.Core.List.{
  Mem, mem-append, mem-cons, mem-cons_self, Mem-prop, not-mem-nil, mem-append_left,
  mem-append_right, map, append-nil,
}
use mathlib.Core.Logic.Or
use tidyboard.Prelude.{
  ◌≡◌, refl, ap, ◌↔◌, Bool, true, false, List, [], ◌∷◌, ◌++◌, String, if◌then◌else◌,
}
use tidyboard.Prelude.Words.{Casing}
use tidyboard.Shopping.Buckets.{Bucket, gather, values, everything, everything-gather}
use tidyboard.Shopping.{ShoppingItem, ShoppingCategory, all_items}
use tidyboard.Shopping.Groups.{
  GroupMode, aisle, recipe, manual, is_pantry, groups_of, or_other, pushes, item_pushes, all_pushes,
  recipe_category, group_shopping, one_list,
}

all_items-recipe :
    (bs : List (Bucket (Unit {0}) ShoppingItem))
    → all_items (map recipe_category bs) ≡ everything bs
all_items-recipe [] = refl
all_items-recipe (b ∷ bs) = rw (all_items-recipe bs) refl

all_items-one_list : (its : List ShoppingItem) → all_items (one_list its) ≡ its
all_items-one_list [] = refl
all_items-one_list (it ∷ its) = append-nil (it ∷ its)

values-append :
    (xs ys : List (String × Unit {0} × ShoppingItem)) → values (xs ++ ys) ≡ values xs ++ values ys
values-append [] ys = refl
values-append (x ∷ xs) ys = ap (λ zs. x.2 ∷ zs) (values-append xs ys)

same-append :
    {it : ShoppingItem} (xs ys us vs : List ShoppingItem)
    → (Mem it xs → Mem it us)
    → (Mem it ys → Mem it vs)
    → Mem it (xs ++ ys)
    → Mem it (us ++ vs)
same-append xs ys us vs f g m =
    Or.elim Mem-prop (mem-append.0 m) (λ h. mem-append_left vs (f h))
      (λ h. mem-append_right us (g h))

mem_of_mem-pushes :
    (it x : ShoppingItem) (ks : List String) → Mem x (values (pushes it ks)) → Mem x (it ∷ [])
mem_of_mem-pushes it x [] m = absurd (not-mem-nil m)
mem_of_mem-pushes it x (k ∷ ks) m =
    Or.elim Mem-prop (mem-cons.0 m) (λ e. rw e mem-cons_self) (mem_of_mem-pushes it x ks)

mem-pushes :
    (it x : ShoppingItem) (b : Bool) (ns : List String)
    → Mem x (it ∷ [])
    → Mem x (values (pushes it (if b then "Pantry staples" ∷ [] else or_other ns)))
mem-pushes it x true ns m = m
mem-pushes it x false [] m = m
mem-pushes it x false (k ∷ ks) m = mem-append_left (values (pushes it ks)) m

module _ (c : Casing) (x : ShoppingItem) where
  mem_of_mem-item_pushes :
      (cat : ShoppingCategory) (its : List ShoppingItem)
      → Mem x (values (item_pushes c cat its))
      → Mem x its
  mem_of_mem-item_pushes cat [] m = absurd (not-mem-nil m)
  mem_of_mem-item_pushes cat (it ∷ its) m =
      same-append (values (pushes it (groups_of c cat it))) (values (item_pushes c cat its))
        (it ∷ []) its (mem_of_mem-pushes it x (groups_of c cat it)) (mem_of_mem-item_pushes cat its)
        (rw (values-append (pushes it (groups_of c cat it)) (item_pushes c cat its)) at m)

  mem-item_pushes :
      (cat : ShoppingCategory) (its : List ShoppingItem)
      → Mem x its
      → Mem x (values (item_pushes c cat its))
  mem-item_pushes cat [] m = m
  mem-item_pushes cat (it ∷ its) m =
      rw (values-append (pushes it (groups_of c cat it)) (item_pushes c cat its)) (
        same-append (it ∷ []) its (values (pushes it (groups_of c cat it)))
          (values (item_pushes c cat its)) (mem-pushes it x (is_pantry c cat it) _)
          (mem-item_pushes cat its) m)

  mem-all_pushes :
      (cats : List ShoppingCategory) → Mem x (values (all_pushes c cats)) ↔ Mem x (all_items cats)
  mem-all_pushes [] = (λ m. m, λ m. m)
  mem-all_pushes (cat ∷ cats) =
      rw (values-append (item_pushes c cat cat.items) (all_pushes c cats)) (
        same-append (values (item_pushes c cat cat.items)) (values (all_pushes c cats)) cat.items
            (all_items cats) (mem_of_mem-item_pushes cat cat.items) (mem-all_pushes cats).0,
        same-append cat.items (all_items cats) (values (item_pushes c cat cat.items))
            (values (all_pushes c cats)) (mem-item_pushes cat cat.items) (mem-all_pushes cats).1,
      )

-- In each of the three modes an item is shown in some category exactly when it is in some category of
-- the list: regrouping hides nothing and invents nothing.
pub group_shopping-mem_iff :
    (c : Casing) (x : ShoppingItem) (cats : List ShoppingCategory) (mode : GroupMode)
    → Mem x (all_items (group_shopping c cats mode)) ↔ Mem x (all_items cats)
group_shopping-mem_iff c x cats aisle = (λ m. m, λ m. m)
group_shopping-mem_iff c x cats manual = rw (all_items-one_list (all_items cats)) (λ m. m, λ m. m)
group_shopping-mem_iff c x cats recipe =
    let kvs = all_pushes c cats in
    let p = Perm.mem_iff (everything-gather kvs []) in
    rw (all_items-recipe (gather kvs [])) (
      λ m. (mem-all_pushes c x cats).0 (rw (append-nil (values kvs)) at (p.0 m)),
      λ m. p.1 (rw (append-nil (values kvs)) ((mem-all_pushes c x cats).1 m)),
    )
